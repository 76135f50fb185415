-- ===== src/Apiserver/Paths/Cleaning.antt =====
-- What Clean leaves as it is.
pub mod Joining
use mathlib.Core.List.{append-nil}
use spillway.Prelude.{
  ◌≡◌, ◌↔◌, ◌⊎◌, refl, sym, ◌∙◌, ap, Bool, true, ◌||◌, List, [], ◌∷◌, ◌++◌, arith, All, Bool-cases,
  inl, inr, ◌==◌, subst,
}
use spillway.Prelude.Text.{Text, bytes, text_key, text_eq}
use spillway.Apiserver.Paths.{
  split, join_path, is_plain, resolve_up, resolve, walk, finish, clean, join_two,
}
use spillway.Apiserver.Paths.Segments.{
  IsSegment, join_path-split, split-join_path, All-split, split-split,
}

-- A segment that names something: it is not empty, `.` or `..`.
abbrev pub IsPlain : Text → Type 0
IsPlain s = is_plain s ≡ true

resolve-IsPlain :
    (rooted : Bool) (stack : List Text) (s : Text) → IsPlain s → resolve rooted stack s ≡ s ∷ stack
unfolding resolve
resolve-IsPlain rooted stack s h = elim (Bool-cases (s == [])) [
  | inl a ↦ ground (arith, a, h)
  | inr a ↦ elim (Bool-cases (s == bytes ".")) [
    | inl b ↦ ground (arith, b, h)
    | inr b ↦ elim (Bool-cases (s == bytes "..")) [
      | inl c ↦ ground (arith, c, h)
      | inr c ↦ rw (a, b, c) refl
    ]
  ]
]

finish-walk :
    (rooted : Bool) (stack segments out : List Text)
    → All IsPlain segments
    → finish (walk rooted stack segments) out ≡ finish stack (segments ++ out)
unfolding walk finish
finish-walk rooted stack [] out _ = refl
finish-walk rooted stack (s ∷ rest) out (plain, more) =
    rw (resolve-IsPlain rooted stack s plain) (finish-walk rooted (s ∷ stack) rest out more)

walk-append :
    (rooted : Bool) (stack xs ys : List Text)
    → walk rooted stack (xs ++ ys) ≡ walk rooted (walk rooted stack xs) ys
unfolding walk
walk-append rooted stack [] ys = refl
walk-append rooted stack (x ∷ xs) ys = walk-append rooted (resolve rooted stack x) xs ys

walk-empty : (rooted : Bool) (stack : List Text) → walk rooted stack ([] ∷ []) ≡ stack
unfolding walk resolve text_eq
walk-empty rooted stack = refl

-- What is kept of a rooted path names something, and is a segment.
abbrev IsKept : Text → Type 0
IsKept s = IsPlain s × IsSegment s

resolve-IsKept :
    (stack : List Text) (s : Text)
    → All IsKept stack
    → IsSegment s
    → All IsKept (resolve true stack s)
unfolding resolve
resolve-IsKept stack s kept segment = elim (Bool-cases (s == [] || s == bytes ".")) [
  | inl skip ↦ rw skip kept
  | inr named ↦ elim (Bool-cases (s == bytes "..")) [
    | inl up ↦ rw (named, up) (below stack kept)
    | inr plain ↦ rw (named, plain) ((ground (arith, named, plain), segment), kept)
  ]
]
  where
    below : (stack : List Text) → All IsKept stack → All IsKept (resolve_up true stack)
    below [] _ = tt
    below (top ∷ rest) ((plain, seg), more) = elim (Bool-cases (top == bytes "..")) [
      | inl up ↦ absurd (ground (arith, up, plain))
      | inr other ↦ rw other more
    ]

walk-IsKept :
    (stack segments : List Text)
    → All IsKept stack
    → All IsSegment segments
    → All IsKept (walk true stack segments)
unfolding walk
walk-IsKept stack [] kept _ = kept
walk-IsKept stack (s ∷ rest) kept (segment, more) =
    walk-IsKept (resolve true stack s) rest (resolve-IsKept stack s kept segment) more

finish-IsKept :
    (stack out : List Text) → All IsKept stack → All IsKept out → All IsKept (finish stack out)
unfolding finish
finish-IsKept [] out _ kept = kept
finish-IsKept (top ∷ below) out (k, more) kept = finish-IsKept below (top ∷ out) more (k, kept)

pub clean-rooted :
    (s : Text) → clean (b'/' ∷ s) ≡ b'/' ∷ join_path (finish (walk true [] (split s)) [])
unfolding clean
clean-rooted s = refl

IsKept-clean : (s : Text) → All IsKept (finish (walk true [] (split s)) [])
IsKept-clean s =
    finish-IsKept (walk true [] (split s)) [] (walk-IsKept [] (split s) tt (All-split s)) tt

-- The segments that are kept, if they join to the path, are its segments.
IsPlain-join_path :
    (s : Text) (kept : List Text)
    → All IsKept kept
    → join_path kept ≡ s
    → (s ≡ []) ⊎ All IsPlain (split s)
unfolding join_path
IsPlain-join_path s [] _ e = inl (sym e)
IsPlain-join_path s (t ∷ rest) ((plain, segment), more) e =
    let same : split s ≡ t ∷ rest =
      ap split (sym e) ∙ split-join_path t rest segment (segments rest more) in
    inr (subst (All IsPlain) (sym same) (plain, plains rest more))
  where
    segments : (ts : List Text) → All IsKept ts → All IsSegment ts
    segments [] _ = tt
    segments (x ∷ xs) ((_, s), k) = (s, segments xs k)

    plains : (ts : List Text) → All IsKept ts → All IsPlain ts
    plains [] _ = tt
    plains (x ∷ xs) ((p, _), k) = (p, plains xs k)

finish-empty : (segments out : List Text) → finish [] (segments ++ out) ≡ segments ++ out
unfolding finish
finish-empty segments out = refl

clean-plain : (s : Text) → All IsPlain (split s) → clean (b'/' ∷ s) ≡ b'/' ∷ s
clean-plain s plain =
    clean-rooted s
    ∙ ap (λ segments. b'/' ∷ join_path segments)
        (finish-walk true [] (split s) [] plain ∙ finish_nil (split s))
    ∙ ap (λ t. b'/' ∷ t) (join_path-split s)
  where
    finish_nil : (segments : List Text) → finish [] (segments ++ []) ≡ segments
    finish_nil segments = finish-empty segments [] ∙ append-nil segments

root_clean : clean (b'/' ∷ []) ≡ b'/' ∷ []
unfolding clean split walk resolve finish join_path text_eq
root_clean = refl

-- Clean leaves a path from the root as it is exactly when it is the root or each of its segments
-- names something.
pub clean-IsPlain : (s : Text) → (clean (b'/' ∷ s) ≡ b'/' ∷ s) ↔ ((s ≡ []) ⊎ All IsPlain (split s))
clean-IsPlain s = (
  λ e.
      IsPlain-join_path s (finish (walk true [] (split s)) []) (IsKept-clean s)
        (cc (sym (clean-rooted s) ∙ e)),
  λ h. elim h [ inl root ↦ rw root root_clean | inr plain ↦ clean-plain s plain ],
)
