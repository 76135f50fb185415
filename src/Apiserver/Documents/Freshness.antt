-- ===== src/Apiserver/Documents/Freshness.antt =====
-- When the cache of pkg/apiserver/openapicache.go builds, and what it hands out.
use spillway.Prelude.{
  ℕ, suc, ◌+◌, ◌≡◌, ◌⊎◌, inl, inr, refl, ap, ◌∙◌, subst, true, false, ◌&&◌, List, [], ◌∷◌, Result,
  ok, err, eqb, arith, Any, Bool-cases,
}
use spillway.Prelude.Text.{Text}
use spillway.Apiserver.Documents.{DocumentCache, new_document_cache, get, invalidate}

-- A request for the document of a generation, with what a build would answer, or a change that the
-- generation does not show.
pub data Event (E : Type 0) : Type 0 where
  request : (generation : ℕ) → Result E Text → Event E
  invalidated : Event E

abbrev Kept : DocumentCache → DocumentCache → Type 0
Kept c last = (c.built ≡ true) × (c.document ≡ last.document) × (c.generation ≡ last.generation)

module _ {E : Type 0} where
  unfoldable pub after : DocumentCache → List (Event E) → DocumentCache
  after c [] = c
  after c (request generation build ∷ es) = after (get c generation build).cache es
  after c (invalidated ∷ es) = after (invalidate c) es

  -- The builds that requests for one generation cost.
  unfoldable pub total_builds : DocumentCache → (generation : ℕ) → List (Result E Text) → ℕ
  total_builds c generation [] = 0
  total_builds c generation (b ∷ bs) =
      (get c generation b).builds + total_builds (get c generation b).cache generation bs

  abbrev failures_first : List (Result E Text) → ℕ
  failures_first [] = 0
  failures_first (ok _ ∷ bs) = 1
  failures_first (err _ ∷ bs) = suc (failures_first bs)

  held :
      (c : DocumentCache) (generation : ℕ) (bs : List (Result E Text))
      → c.built ≡ true
      → c.generation ≡ generation
      → total_builds c generation bs ≡ 0
  unfolding total_builds get
  held c generation [] built same = refl
  held c generation (b ∷ bs) built same = ground (arith, held c generation bs built same)

  -- Requests for one generation call the build until its first success, and never after it: a
  -- cache that holds nothing of that generation costs one build for each failure before the first
  -- success, one for the success, and none for any later request.
  pub total_builds_lem :
      (c : DocumentCache) (generation : ℕ) (bs : List (Result E Text))
      → (c.built && eqb c.generation generation) ≡ false
      → total_builds c generation bs ≡ failures_first bs
  unfolding total_builds get
  total_builds_lem c generation [] stale = refl
  total_builds_lem c generation (ok d ∷ bs) stale = rw stale (
      ground (
        arith,
        held (record { document = d; generation = generation; built = true }) generation bs refl
            refl,
      ))
  total_builds_lem c generation (err e ∷ bs) stale =
      rw stale (ground (arith, total_builds_lem c generation bs stale))

  -- A cache that has a document answers every request, whatever the build does: with the document
  -- it has, if that is of the generation asked for or the build fails, and with the new one if not.
  pub result-get :
      (c : DocumentCache) (generation : ℕ) (build : Result E Text)
      → c.built ≡ true
      → (document : Text) × ((get c generation build).result ≡ ok document)
        × ((get c generation build).cache.document ≡ document)
        × ((document ≡ c.document) ⊎ (build ≡ ok document))
  unfolding get
  result-get c generation (ok d) built = elim (Bool-cases (eqb c.generation generation)) [
    | inl same ↦ (c.document, ground arith, ground arith, inl refl)
    | inr other ↦ (d, ground arith, ground arith, inr refl)
  ]
  result-get c generation (err e) built = (c.document, ground arith, ground arith, inl refl)

  -- A document of a generation is one that a build for that generation returned.
  abbrev pub BuiltFor : DocumentCache → Event E → Type 0
  BuiltFor c (request generation build) = (generation ≡ c.generation) × (build ≡ ok c.document)
  BuiltFor c invalidated = ⊥

  step_source :
      (c : DocumentCache) (generation : ℕ) (build : Result E Text)
      → (get c generation build).cache.built ≡ true
      → ((get c generation build).cache ≡ c)
        ⊎ BuiltFor (get c generation build).cache (request generation build)
  unfolding get
  step_source c generation (ok d) h = elim (Bool-cases (c.built && eqb c.generation generation)) [
    | inl hit ↦ inl (rw hit refl)
    | inr miss ↦ inr (rw miss (refl, refl))
  ]
  step_source c generation (err e) h = elim (Bool-cases (c.built && eqb c.generation generation)) [
    | inl hit ↦ inl (rw hit refl)
    | inr miss ↦ inl (rw miss refl)
  ]

  source :
      (c : DocumentCache) (es : List (Event E))
      → (after c es).built ≡ true
      → Any (BuiltFor (after c es)) es ⊎ Kept c (after c es)
  unfolding after invalidate
  source c [] h = inr (h, refl, refl)
  source c (invalidated ∷ es) h = elim (source (invalidate c) es h) [
    | inl later ↦ inl (inr later)
    | inr never ↦ cc (never.0)
  ]
  source c (request generation build ∷ es) h =
      let mid = (get c generation build).cache in
      elim (source mid es h) [
        | inl later ↦ inl (inr later)
        | inr kept ↦ elim (step_source c generation build kept.0) [
          | inl same ↦ inr (subst (λ d. Kept d (after mid es)) same kept)
          | inr asked ↦ inl (inl (asked.0 ∙ kept.2, asked.1 ∙ ap ok kept.1))
        ]
      ]

  -- From a new cache, after any requests and invalidations, the document that is held for a
  -- generation is what one of the builds that were asked for that generation returned.
  pub after-BuiltFor :
      (es : List (Event E))
      → (after new_document_cache es).built ≡ true
      → Any (BuiltFor (after new_document_cache es)) es
  after-BuiltFor es h = elim (source new_document_cache es h) [
    | inl found ↦ found
    | inr never ↦ cc (never.0)
  ]
