-- ===== src/Apiserver/Conversion/Answered.antt =====
-- The policy of pkg/apiserver/conversion.go over a run of questions.
use spillway.Prelude.{
  ℕ, eqb, eqb_iff, ◌≡◌, ◌⊎◌, refl, Bool, true, false, Option, some, List, [], ◌∷◌, All, Any,
  Bool-cases, Option-cases, subst, inl, inr, arith,
}
use spillway.Prelude.Maps.{lookup}
use spillway.Kcp.Api.{GroupKind, group_kind_key}
use spillway.Apiserver.Conversion.{Definition, ConversionPolicy, fill, or_false, is_stale, relabels}
use spillway.Apiserver.Conversion.Presented.{
  IsInterchangeable, lookup-fill, relabels-IsInterchangeable,
}

-- A question about a kind, at a generation, and what the workspace answers if it is asked then.
pub record Question : Type 0 where
  pub generation : ℕ
  pub answer : Option (List Definition)
  pub kind : GroupKind

abbrev pub new_policy : ConversionPolicy
new_policy = record { cached = []; cached_from = 0; loaded = false }

-- The policy after some questions.
unfoldable pub ask_all : List Question → ConversionPolicy → ConversionPolicy
ask_all [] p = p
ask_all (q ∷ rest) p = ask_all rest (relabels q.generation q.answer q.kind p).0

abbrev pub ask : Question → ConversionPolicy → ConversionPolicy × Bool
ask q p = relabels q.generation q.answer q.kind p

IsInterchangeable-fill :
    (definitions : List Definition) (kind : GroupKind)
    → or_false (lookup kind (fill definitions [])) ≡ true
    → Any (IsInterchangeable kind) definitions
unfolding lookup
IsInterchangeable-fill definitions kind h = elim (lookup-fill definitions [] kind h) [
  | inl there ↦ there
  | inr nowhere ↦ absurd (cc (nowhere))
]

module _ (Answered : ℕ → List Definition → Type 0) where
  -- What is cached is what was answered for the generation that it is from.
  abbrev IsFrom : ConversionPolicy → Type 0
  IsFrom p =
      (p.loaded ≡ false)
      ⊎ ((definitions : List Definition) × Answered p.cached_from definitions
          × (p.cached ≡ fill definitions []))

  abbrev Answers : Question → Type 0
  Answers q =
      (definitions : List Definition)
      → q.answer ≡ some definitions
      → Answered q.generation definitions

  IsFrom-relabels :
      (q : Question) (p : ConversionPolicy) → Answers q → IsFrom p → IsFrom (ask q p).0
  unfolding relabels
  IsFrom-relabels q p answers from = elim (Bool-cases (is_stale p q.generation)) [
    | inr fresh ↦ rw (fresh, relabels) from
    | inl stale ↦ elim (Option-cases q.answer) [
      | inl silent ↦ rw (stale, relabels, silent) from
      | inr (definitions, known) ↦
          rw (stale, relabels, known) (inr (definitions, answers definitions known, refl))
    ]
  ]

  IsFrom-ask_all :
      (questions : List Question) (p : ConversionPolicy)
      → All Answers questions
      → IsFrom p
      → IsFrom (ask_all questions p)
  unfolding ask_all
  IsFrom-ask_all [] p _ from = from
  IsFrom-ask_all (q ∷ rest) p (answers, more) from =
      IsFrom-ask_all rest (ask q p).0 more (IsFrom-relabels q p answers from)

  relabelled_lem :
      (q : Question) (p : ConversionPolicy)
      → Answers q
      → IsFrom p
      → (ask q p).1 ≡ true
      → (definitions : List Definition) × Answered q.generation definitions
        × Any (IsInterchangeable q.kind) definitions
  unfolding relabels
  relabelled_lem q p answers from h = elim (Bool-cases (is_stale p q.generation)) [
    | inl stale ↦
        let (definitions, known, there) =
          relabels-IsInterchangeable q.generation q.answer q.kind p stale h in
        (definitions, answers definitions known, there)
    | inr fresh ↦ elim from [
      | inl unloaded ↦ absurd (ground (arith, fresh, unloaded))
      | inr (definitions, answered, same) ↦
          let e : or_false (lookup q.kind p.cached) ≡ true = rw (fresh, relabels) at h in
          let e1 : eqb p.cached_from q.generation ≡ true = ground (arith, fresh) in
          (
            definitions,
            subst (λ g. Answered g definitions) ((eqb_iff p.cached_from q.generation).0 e1)
                answered,
            IsInterchangeable-fill definitions q.kind (rw same at e),
          )
    ]
  ]

-- The question was answered with these definitions, at this generation.
abbrev pub IsAnswer : (generation : ℕ) → List Definition → Question → Type 0
IsAnswer generation definitions q = (q.generation ≡ generation) × (q.answer ≡ some definitions)

Answers-self :
    (earlier questions : List Question)
    → ((q : Question) → Any (λ x. x ≡ q) questions → Any (λ x. x ≡ q) earlier)
    → All (Answers (λ g ds. Any (IsAnswer g ds) earlier)) questions
Answers-self earlier [] _ = tt
Answers-self earlier (q ∷ rest) within = (
  λ definitions known. found earlier definitions known (within q (inl refl)),
  Answers-self earlier rest (λ x there. within x (inr there)),
)
  where
    found :
        (xs : List Question) (definitions : List Definition)
        → q.answer ≡ some definitions
        → Any (λ x. x ≡ q) xs
        → Any (IsAnswer q.generation definitions) xs
    found [] definitions known there = there
    found (x ∷ xs) definitions known (inl same) = inl (rw same refl, rw same known)
    found (x ∷ xs) definitions known (inr later) = inr (found xs definitions known later)

-- Whatever questions a new policy has had, of whatever generations, it says that a kind may be
-- relabelled only if the workspace has answered one of its questions at that very generation, the
-- last one included, with a definition for the kind that declares its versions interchangeable.
pub relabels-IsAnswer :
    (questions : List Question) (last : Question)
    → (ask last (ask_all questions new_policy)).1 ≡ true
    → (definitions : List Definition) × Any
        (IsAnswer last.generation definitions)
        (last ∷ questions)
      × Any (IsInterchangeable last.kind) definitions
relabels-IsAnswer questions last h =
    let (one, all) = Answers-self (last ∷ questions) (last ∷ questions) (λ q there. there) in
    relabelled_lem (λ g ds. Any (IsAnswer g ds) (last ∷ questions)) last
      (ask_all questions new_policy) one
      (IsFrom-ask_all (λ g ds. Any (IsAnswer g ds) (last ∷ questions)) questions new_policy all
        (inl refl))
      h
