-- ===== src/Apiserver/Registrar/Rounds.antt =====
-- What one round of the registrar of pkg/apiserver/apiservices.go wants, and when it writes.
use spillway.Prelude.{
  ◌≡◌, refl, ◌∙◌, ◌↔◌, inl, inr, Bool, true, false, ◌&&◌, ◌||◌, not, Option, some, List, [], ◌∷◌,
  arith, ◌==◌, Any, Bool-cases, Option-cases, Result-cases, any, is_some, ok, All, subst,
}
use spillway.Prelude.Text.{Text, text_key}
use spillway.Prelude.Maps.{Map, lookup, insert, lookup-insert, All-insert}
use spillway.Prelude.Sets.{Sets}
use spillway.Kcp.Api.{GroupVersion, group_version_key, ApiResource}
use spillway.Apiserver.Leader.{leads}
use spillway.Apiserver.ClusterApis.{ApiServiceSpec, ApiService, foreign, service_name}
use spillway.Apiserver.Registrar.{ApiServiceOptions, Write, Round, desired, ca_bundle}
use spillway.Apiserver.Registrar.Reconcile.{Registrar, reconcile, wanted_of, warn_foreign}
use spillway.Apiserver.Registrar.Writes.{Sent, IsAsked, writes-write_round}

module _ ⦃S : Sets Text⦄ ⦃G : Sets GroupVersion⦄ where
  -- Whether a group version that is served, and is not the cluster's own, has an APIService of a
  -- name; and whether an APIService is the one that such a group version asks for.
  abbrev pub serves_name : G.Set → Text → Map GroupVersion (List ApiResource) → Bool
  serves_name found name resources =
      any
        (λ (e : GroupVersion × List ApiResource).
          not (G.has found e.0) && (service_name e.0 == name))
        resources

  abbrev pub IsServedFor :
      ApiServiceOptions
      → Option Text
      → G.Set
      → Map GroupVersion (List ApiResource)
      → Text × ApiService
      → Type 0
  IsServedFor o bundle found resources wanted =
      Any
        (λ (e : GroupVersion × List ApiResource).
          (G.has found e.0 ≡ false)
          × (service_name e.0 ≡ wanted.0)
          × (desired o e.0 bundle ≡ wanted.1))
        resources

  module _ (o : ApiServiceOptions) (bundle : Option Text) (found : G.Set) where
    All-wanted_of :
        (P : Text × ApiService → Type 0) (warned : G.Set) (wanted : Map Text ApiService)
        (resources : Map GroupVersion (List ApiResource))
        → All P wanted
        → All
            (λ (e : GroupVersion × List ApiResource).
              G.has found e.0 ≡ false → P (service_name e.0, desired o e.0 bundle))
            resources
        → All P (wanted_of o bundle found warned wanted resources).1
    unfolding wanted_of
    All-wanted_of P warned wanted [] held _ = held
    All-wanted_of P warned wanted ((gv, r) ∷ rest) held (new, more) =
        elim (Bool-cases (G.has found gv)) [
          | inl own ↦ rw own (All-wanted_of P (warn_foreign gv warned) wanted rest held more)
          | inr free ↦ rw free (
              All-wanted_of P warned (insert (service_name gv) (desired o gv bundle) wanted) rest
                (All-insert P (service_name gv) (desired o gv bundle) wanted held (new free)) more)
        ]

    insert-lem :
        (k : Text) (v : ApiService) (wanted : Map Text ApiService) (name : Text) (b : Bool)
        → (is_some (lookup name (insert k v wanted)) || b)
          ≡ (is_some (lookup name wanted) || (k == name || b))
    insert-lem k v wanted name b = ground (arith, lookup-insert k v wanted name)

    is_some-wanted_of :
        (warned : G.Set) (wanted : Map Text ApiService)
        (resources : Map GroupVersion (List ApiResource)) (name : Text)
        → is_some (lookup name (wanted_of o bundle found warned wanted resources).1)
          ≡ (is_some (lookup name wanted) || serves_name found name resources)
    unfolding wanted_of
    is_some-wanted_of warned wanted [] name = ground arith
    is_some-wanted_of warned wanted ((gv, r) ∷ rest) name = elim (Bool-cases (G.has found gv)) [
      | inl own ↦ rw own (is_some-wanted_of (warn_foreign gv warned) wanted rest name)
      | inr free ↦ rw free (
          is_some-wanted_of warned (insert (service_name gv) (desired o gv bundle) wanted) rest name
          ∙ insert-lem (service_name gv) (desired o gv bundle) wanted name
              (serves_name found name rest))
    ]

  module _ (semantic_equal : ApiServiceSpec → ApiServiceSpec → Bool) where
    IsAsked-again :
        (r : Registrar) (round : Round) (w : Write) (b bundle : Option Text) (f found : G.Set)
        (listing existing : List ApiService)
        → b ≡ bundle
        → f ≡ found
        → listing ≡ existing
        → IsAsked semantic_equal r.options
            (wanted_of r.options b f r.warned [] round.resources).1
            listing
            w
        → IsAsked semantic_equal r.options
            (wanted_of r.options bundle found r.warned [] round.resources).1
            existing
            w
    IsAsked-again r round w b bundle f found listing existing e1 e2 e3 asked =
        subst
          (λ x.
            IsAsked semantic_equal r.options
              (wanted_of r.options bundle found r.warned [] round.resources).1 x w)
          e3
          (subst
            (λ x.
              IsAsked semantic_equal r.options
                (wanted_of r.options bundle x r.warned [] round.resources).1 listing w)
            e2
            (subst
              (λ x.
                IsAsked semantic_equal r.options
                  (wanted_of r.options x f r.warned [] round.resources).1 listing w)
              e1 asked))

    -- A round sends a write exactly when this replica leads, every workspace has synced, the CA
    -- bundle, the cluster's own group versions and the list of the APIServices could be read, and
    -- the write is asked for by that list and by what is wanted.
    pub writes-reconcile :
        (r : Registrar) (round : Round) (w : Write)
        → Sent w (reconcile semantic_equal r round).0.writes ↔ (
            (leads round.leading ≡ true)
            × (round.synced ≡ true)
            × ((bundle : Option Text) × (found : G.Set) × (existing : List ApiService) × (ca_bundle
                    r.options round.ca_file
                  ≡ ok bundle)
                × (foreign r.cluster round.cluster_groups round.cluster_services ≡ ok found)
                × (round.existing ≡ some existing)
                × IsAsked semantic_equal r.options
                    (wanted_of r.options bundle found r.warned [] round.resources).1
                    existing
                    w))
    unfolding reconcile
    writes-reconcile r round w = elim (Bool-cases (leads round.leading)) [
      | inr follows ↦ rw follows (λ sent. absurd sent, λ (leads_now, _, _). cc leads_now)
      | inl leading ↦ elim (Bool-cases round.synced) [
        | inr unsynced ↦
            rw (leading, unsynced) (λ sent. absurd sent, λ (_, synced_now, _). cc synced_now)
        | inl synced ↦ elim (Result-cases (ca_bundle r.options round.ca_file)) [
          | inr (e, unread) ↦
              rw (leading, synced, unread)
                (λ sent. absurd sent, λ (_, _, (_, _, _, read, _, _, _)). cc read)
          | inl (bundle, read) ↦
              elim (Result-cases (foreign r.cluster round.cluster_groups round.cluster_services)) [
                | inr (e, unknown) ↦
                    rw (leading, synced, read, unknown)
                      (λ sent. absurd sent, λ (_, _, (_, _, _, _, known, _, _)). cc known)
                | inl (found, known) ↦ elim (Option-cases round.existing) [
                  | inl unlisted ↦
                      rw (leading, synced, read, known, unlisted)
                        (λ sent. absurd sent, λ (_, _, (_, _, _, _, _, listed, _)). cc listed)
                  | inr (existing, listed) ↦
                      rw (leading, synced, read, known, listed)
                        (let sends =
                            writes-write_round semantic_equal r.options round.answer
                              (wanted_of r.options bundle found r.warned [] round.resources).1
                              existing w in
                          (
                            λ sent. (
                              refl,
                              refl,
                              (bundle, found, existing, refl, refl, refl, sends.0 sent),
                            ),
                            λ (_, _, (b, f, listing, same_b, same_f, same_l, asked)). sends.1 (
                                IsAsked-again r round w b bundle f found listing existing
                                  (cc same_b) (cc same_f) (cc same_l) asked),
                          ))
                ]
              ]
        ]
      ]
    ]

  -- What a round wants has an APIService of a name exactly when a group version of that name is
  -- served and is not the cluster's own, and it is the one that such a group version asks for.
  pub lookup-wanted_of :
      (o : ApiServiceOptions) (bundle : Option Text) (found warned : G.Set)
      (resources : Map GroupVersion (List ApiResource)) (name : Text)
      → (is_some (lookup name (wanted_of o bundle found warned [] resources).1)
          ≡ serves_name found name resources)
        × All
            (IsServedFor o bundle found resources)
            (wanted_of o bundle found warned [] resources).1
  unfolding lookup
  lookup-wanted_of o bundle found warned resources name = (
    is_some-wanted_of o bundle found warned [] resources name,
    All-wanted_of o bundle found (IsServedFor o bundle found resources) warned [] resources tt
        (every resources (λ e h. h)),
  )
    where
      every :
          (rest : Map GroupVersion (List ApiResource))
          → ((e : Text × ApiService)
              → IsServedFor o bundle found rest e
              → IsServedFor o bundle found resources e)
          → All
              (λ (e : GroupVersion × List ApiResource).
                G.has found e.0 ≡ false
                → IsServedFor o bundle found resources (service_name e.0, desired o e.0 bundle))
              rest
      every [] within = tt
      every (e ∷ rest) within = (
        λ free. within (service_name e.0, desired o e.0 bundle) (inl (free, refl, refl)),
        every rest (λ d h. within d (inr h)),
      )
