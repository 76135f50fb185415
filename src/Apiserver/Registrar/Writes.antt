-- ===== src/Apiserver/Registrar/Writes.antt =====
-- Which writes the registrar of pkg/apiserver/apiservices.go sends, given what is wanted and what
-- exists.
use spillway.Prelude.{
  ◌≡◌, sym, ◌∙◌, ◌↔◌, ◌⊎◌, inl, inr, Bool, true, false, ◌&&◌, ◌||◌, Option, none, some, List, [],
  ◌∷◌, arith, ◌==◌, Any, Any-append, Any-iff, Bool-cases, any,
}
use spillway.Prelude.Text.{Text, text_key}
use spillway.Prelude.Maps.{Map, lookup}
use spillway.Prelude.Sets.{Sets}
use spillway.Kcp.Api.{GroupVersion, group_version_key}
use spillway.Apiserver.ClusterApis.{ApiServiceSpec, ApiService}
use spillway.Apiserver.Registrar.{
  ApiServiceOptions, Tally, Write, update, create, delete, WriteAnswer, is_managed, owns, merge,
  visit, visit_all, create_all, create_one, update_one,
}
use spillway.Apiserver.Registrar.Reconcile.{present_in, write_round, no_tally}

abbrev pub Sent : Write → List Write → Type 0
Sent w writes = Any (λ v. v ≡ w) writes

-- The writes that the specification asks of one entry of what is wanted.
abbrev pub OfWanted : (present : Text → Bool) → Write → Text × ApiService → Type 0
OfWanted present w entry = (present entry.0 ≡ false) × (create entry.1 ≡ w)

module _ (semantic_equal : ApiServiceSpec → ApiServiceSpec → Bool) (o : ApiServiceOptions) where
  -- The writes that the specification asks of one APIService that exists.
  abbrev pub OfCurrent : (wanted : Option ApiService) (current : ApiService) → Write → Type 0
  OfCurrent none current w =
      (is_managed current ≡ true) × (owns o current ≡ true) × (delete current.name ≡ w)
  OfCurrent (some wanted) current w =
      (is_managed current ≡ true)
      × ((merge semantic_equal current wanted).1 ≡ true)
      × (update (merge semantic_equal current wanted).0 ≡ w)

  module _ (answer : Write → WriteAnswer) where
    writes-update_one :
        (updated : ApiService) (changed : Bool) (t : Tally) (w : Write)
        → Sent w (update_one semantic_equal o answer updated changed t).writes
          ↔ (Sent w t.writes ⊎ ((changed ≡ true) × (update updated ≡ w)))
    writes-update_one updated false t w = ground arith
    writes-update_one updated true t w =
        ground (arith, Any-append (λ v. v ≡ w) t.writes (update updated ∷ []))

    writes-visit :
        (wanted : Option ApiService) (current : ApiService) (t : Tally) (w : Write)
        → Sent w (visit semantic_equal o answer wanted current t).writes
          ↔ (Sent w t.writes ⊎ OfCurrent wanted current w)
    unfolding visit
    writes-visit none current t w = elim (Bool-cases (is_managed current && owns o current)) [
      | inl gone ↦
          rw gone (ground (arith, Any-append (λ v. v ≡ w) t.writes (delete current.name ∷ [])))
      | inr kept ↦ rw kept (ground arith)
    ]
    writes-visit (some wanted) current t w = elim (Bool-cases (is_managed current)) [
      | inr other ↦ rw other (ground arith)
      | inl mine ↦ rw mine (
          ground (
            arith,
            writes-update_one (merge semantic_equal current wanted).0
                (merge semantic_equal current wanted).1 t w,
          ))
    ]

    writes-visit_all :
        (wanted : Map Text ApiService) (existing : List ApiService) (t : Tally) (w : Write)
        → Sent w (visit_all semantic_equal o answer wanted existing t).writes ↔ (
            Sent w t.writes
            ⊎ Any
                (λ (current : ApiService). OfCurrent (lookup current.name wanted) current w)
                existing)
    unfolding visit_all
    writes-visit_all wanted [] t w = ground arith
    writes-visit_all wanted (current ∷ rest) t w = ground (
      arith,
      writes-visit_all wanted rest
          (visit semantic_equal o answer (lookup current.name wanted) current t) w,
      writes-visit (lookup current.name wanted) current t w,
    )

    writes-create_all :
        (present : Text → Bool) (wanted : Map Text ApiService) (t : Tally) (w : Write)
        → Sent w (create_all semantic_equal o answer present wanted t).writes
          ↔ (Sent w t.writes ⊎ Any (OfWanted present w) wanted)
    unfolding create_all
    writes-create_all present [] t w = ground arith
    writes-create_all present ((name, service) ∷ rest) t w = elim (Bool-cases (present name)) [
      | inl there ↦ rw there (ground (arith, writes-create_all present rest t w))
      | inr missing ↦ rw missing (
          ground (
            arith,
            writes-create_all present rest (create_one semantic_equal o answer name service t) w,
            Any-append (λ v. v ≡ w) t.writes (create service ∷ []),
          ))
    ]

module _ ⦃S : Sets Text⦄ ⦃G : Sets GroupVersion⦄ where
  has-present_in :
      (present : S.Set) (existing : List ApiService) (name : Text)
      → S.has (present_in present existing) name
        ≡ (S.has present name || any (λ (c : ApiService). c.name == name) existing)
  unfolding present_in
  has-present_in present [] name = ground arith
  has-present_in present (current ∷ rest) name = ground (
    arith,
    has-present_in (S.insert present current.name) rest name,
    S.has-insert present current.name name,
  )

  abbrev pub exists : List ApiService → Text → Bool
  exists existing name = any (λ (c : ApiService). c.name == name) existing

  -- The writes that a round is to send: an update of each APIService that is spillway's, is wanted
  -- and differs, the deletion of each that is spillway's, points at its service and is not wanted,
  -- and the creation of each that is wanted and does not exist.
  abbrev pub IsAsked :
      (ApiServiceSpec → ApiServiceSpec → Bool)
      → ApiServiceOptions
      → Map Text ApiService
      → List ApiService
      → Write
      → Type 0
  IsAsked semantic_equal o wanted existing w =
      Any
        (λ (current : ApiService).
          OfCurrent semantic_equal o (lookup current.name wanted) current w)
        existing
      ⊎ Any (OfWanted (exists existing) w) wanted

  -- A round sends exactly the writes that are asked for, whatever the answers to the others are:
  -- an update of each APIService that carries spillway's label, is wanted and differs from what is
  -- wanted; the deletion of each that carries the label, points at spillway's service and is not
  -- wanted; the creation of each that is wanted and that none of the list has the name of.
  pub writes-write_round :
      (semantic_equal : ApiServiceSpec → ApiServiceSpec → Bool) (o : ApiServiceOptions)
      (answer : Write → WriteAnswer) (wanted : Map Text ApiService) (existing : List ApiService)
      (w : Write)
      → Sent w (write_round semantic_equal o answer wanted existing).writes
        ↔ IsAsked semantic_equal o wanted existing w
  unfolding write_round
  writes-write_round semantic_equal o answer wanted existing w =
      let same : (name : Text) → S.has (present_in S.empty existing) name ≡ exists existing name =
        λ name. ground (arith, has-present_in S.empty existing name, S.has-empty name) in
      let of_same =
        Any-iff (OfWanted (λ name. S.has (present_in S.empty existing) name) w)
          (OfWanted (exists existing) w)
          (λ (entry : Text × ApiService). (
            λ (absent, e). (sym (same entry.0) ∙ absent, e),
            λ (absent, e). (same entry.0 ∙ absent, e),
          ))
          wanted in
      ground (
        arith,
        of_same,
        writes-create_all semantic_equal o answer (λ name. S.has (present_in S.empty existing) name)
            wanted (visit_all semantic_equal o answer wanted existing no_tally) w,
        writes-visit_all semantic_equal o answer wanted existing no_tally w,
      )
