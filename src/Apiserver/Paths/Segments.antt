-- ===== src/Apiserver/Paths/Segments.antt =====
-- Splitting a path at its slashes and joining the segments again.
use spillway.Prelude.{
  ℕ, ◌≡◌, refl, ◌∙◌, ap, false, List, [], ◌∷◌, ◌++◌, arith, All, eqb, eqb_iff, Bool-cases, inl, inr,
}
use spillway.Prelude.Text.{Text, text_key, contains_byte}
use spillway.Apiserver.Paths.{split, cons_head, join_path}

abbrev pub IsSegment : Text → Type 0
IsSegment s = contains_byte s b'/' ≡ false

join_path-cons_head :
    (c : ℕ) (segments : List Text) → join_path (cons_head c segments) ≡ c ∷ join_path segments
unfolding join_path
join_path-cons_head c [] = refl
join_path-cons_head c (h ∷ []) = refl
join_path-cons_head c (h ∷ t ∷ rest) = refl

join_path-empty : (c : ℕ) (s : Text) → c ≡ b'/' → join_path ([] ∷ split s) ≡ c ∷ join_path (split s)
unfolding join_path split
join_path-empty c [] e = rw e refl
join_path-empty c (d ∷ s) e = elim (Bool-cases (eqb d b'/')) [
  | inl slash ↦ rw (e, slash) refl
  | inr other ↦ rw (e, other) (nonempty (split s))
]
  where
    nonempty :
        (segments : List Text)
        → join_path ([] ∷ cons_head d segments) ≡ b'/' ∷ join_path (cons_head d segments)
    nonempty [] = refl
    nonempty (h ∷ t) = refl

-- Joining what was split gives the path back.
pub join_path-split : (s : Text) → join_path (split s) ≡ s
unfolding split join_path
join_path-split [] = refl
join_path-split (c ∷ s) = elim (Bool-cases (eqb c b'/')) [
  | inl slash ↦
      rw slash
        (join_path-empty c s ((eqb_iff c b'/').0 slash) ∙ ap (λ t. c ∷ t) (join_path-split s))
  | inr other ↦ rw other (join_path-cons_head c (split s) ∙ ap (λ t. c ∷ t) (join_path-split s))
]

split-append : (a s : Text) → IsSegment a → split (a ++ (b'/' ∷ s)) ≡ a ∷ split s
unfolding split contains_byte
split-append [] s h = refl
split-append (c ∷ a) s h =
    let other : eqb c b'/' ≡ false = ground (arith, h) in
    rw other (ap (cons_head c) (split-append a s (ground (arith, h))))

split-IsSegment : (a : Text) → IsSegment a → split a ≡ a ∷ []
unfolding split contains_byte
split-IsSegment [] h = refl
split-IsSegment (c ∷ a) h =
    let other : eqb c b'/' ≡ false = ground (arith, h) in
    rw other (ap (cons_head c) (split-IsSegment a (ground (arith, h))))

-- Splitting what was joined gives the segments back, if there is one and none has a slash in it.
pub split-join_path :
    (s : Text) (rest : List Text)
    → IsSegment s
    → All IsSegment rest
    → split (join_path (s ∷ rest)) ≡ s ∷ rest
unfolding join_path
split-join_path s [] h _ = split-IsSegment s h
split-join_path s (t ∷ rest) h (k, more) =
    split-append s (join_path (t ∷ rest)) h ∙ ap (λ x. s ∷ x) (split-join_path t rest k more)

pub All-split : (s : Text) → All IsSegment (split s)
unfolding split contains_byte
All-split [] = (refl, tt)
All-split (c ∷ s) = elim (Bool-cases (eqb c b'/')) [
  | inl slash ↦ rw slash (refl, All-split s)
  | inr other ↦ rw other (headed c other (split s) (All-split s))
]
  where
    headed :
        (c : ℕ)
        → eqb c b'/' ≡ false
        → (segments : List Text) → All IsSegment segments
        → All IsSegment (cons_head c segments)
    headed c other [] _ = (ground (arith, other), tt)
    headed c other (h ∷ t) (p, more) = (ground (arith, other, p), more)

-- The segments of a path that is put together at a slash.
pub split-split : (a b : Text) → split (a ++ (b'/' ∷ b)) ≡ split a ++ split b
unfolding split
split-split [] b = refl
split-split (c ∷ a) b = elim (Bool-cases (eqb c b'/')) [
  | inl slash ↦ rw slash (ap (λ x. [] ∷ x) (split-split a b))
  | inr other ↦ rw other (ap (cons_head c) (split-split a b) ∙ headed a)
]
  where
    headed : (a : Text) → cons_head c (split a ++ split b) ≡ cons_head c (split a) ++ split b
    headed [] = refl
    headed (d ∷ a) = elim (Bool-cases (eqb d b'/')) [
      | inl slash ↦ rw slash refl
      | inr other ↦ rw other (twice d (split a))
    ]
      where
        twice :
            (d : ℕ) (xs : List Text)
            → cons_head c (cons_head d xs ++ split b) ≡ cons_head c (cons_head d xs) ++ split b
        twice d [] = refl
        twice d (h ∷ t) = refl
