-- ===== src/Apiserver/Proxy/Canonical.antt =====
-- Which paths `canonicalPath` of pkg/apiserver/proxy.go lets pass, and where `targetFor` takes them.
use mathlib.Core.List.{append-nil}
use spillway.Prelude.{
  ℕ, ◌≡◌, ◌∙◌, ◌↔◌, ◌⊎◌, refl, sym, ap, subst, true, false, List, [], ◌∷◌, ◌++◌, All, eqb, eqb_iff,
  Bool-cases, inl, inr, ◌==◌, ==_iff,
}
use spillway.Prelude.Text.{Text, bytes, text_key, text_eq, has_prefix, has_prefix-append}
use spillway.Apiserver.Paths.{split, clean, join_two}
use spillway.Apiserver.Paths.Segments.{split-split}
use spillway.Apiserver.Paths.Cleaning.{IsPlain, clean-IsPlain}
use spillway.Apiserver.Paths.Cleaning.Joining.{join_two-under, join_two-root}
use spillway.Apiserver.Proxy.{trim_slash, canonical_path}

trim_slash-cons : (c : ℕ) (s : Text) → (s == []) ≡ false → trim_slash (c ∷ s) ≡ c ∷ trim_slash s
unfolding trim_slash text_eq
trim_slash-cons c [] h = absurd (cc (h))
trim_slash-cons c (d ∷ s) h = refl

trim_slash_lem : (s : Text) → (trim_slash s ≡ s) ⊎ (s ≡ trim_slash s ++ (b'/' ∷ []))
unfolding trim_slash
trim_slash_lem [] = inl refl
trim_slash_lem (c ∷ []) = elim (Bool-cases (eqb c b'/')) [
  | inl slash ↦ inr (rw (slash, (eqb_iff c b'/').0 slash) refl)
  | inr other ↦ inl (rw other refl)
]
trim_slash_lem (c ∷ d ∷ s) = elim (trim_slash_lem (d ∷ s)) [
  | inl same ↦ inl (ap (λ t. c ∷ t) same)
  | inr ends ↦ inr (ap (λ t. c ∷ t) ends)
]

trim_slash-append : (s : Text) → trim_slash (s ++ (b'/' ∷ [])) ≡ s
unfolding trim_slash
trim_slash-append [] = refl
trim_slash-append (c ∷ []) = refl
trim_slash-append (c ∷ d ∷ s) = ap (λ t. c ∷ t) (trim_slash-append (d ∷ s))

IsPlain-end : (xs : List Text) → All IsPlain (xs ++ ([] ∷ [])) → ⊥
unfolding text_eq
IsPlain-end [] (p, _) = cc (p)
IsPlain-end (x ∷ xs) (_, h) = IsPlain-end xs h

-- A path whose segments all name something does not end in a slash.
trim_slash-IsPlain : (s : Text) → All IsPlain (split s) → trim_slash s ≡ s
unfolding split
trim_slash-IsPlain s plain = elim (trim_slash_lem s) [
  | inl same ↦ same
  | inr ends ↦ absurd (
      IsPlain-end (split (trim_slash s))
        (subst (All IsPlain) (ap split ends ∙ split-split (trim_slash s) []) plain))
]

-- What follows the first slash of a path that passes: nothing, a slash, or segments that all name
-- something, with or without a slash at the end.
abbrev pub IsCanonical : Text → Type 0
IsCanonical s =
    (s ≡ [])
    ⊎ (s ≡ bytes "/")
    ⊎ ((t : Text) × All IsPlain (split t) × ((s ≡ t) ⊎ (s ≡ t ++ (b'/' ∷ []))))

canonical_path-cons :
    (s : Text)
    → (s == []) ≡ false
    → canonical_path (b'/' ∷ s) ≡ (clean (b'/' ∷ trim_slash s) == (b'/' ∷ trim_slash s))
unfolding canonical_path text_eq
canonical_path-cons s named = rw (trim_slash-cons b'/' s named) refl

canonical_clean :
    (s : Text)
    → (s == []) ≡ false
    → (canonical_path (b'/' ∷ s) ≡ true)
      ↔ ((trim_slash s ≡ []) ⊎ All IsPlain (split (trim_slash s)))
canonical_clean s named =
    let e = canonical_path-cons s named in
    let same = ==_iff (clean (b'/' ∷ trim_slash s)) (b'/' ∷ trim_slash s) in
    let plain = clean-IsPlain (trim_slash s) in
    (λ h. plain.0 (same.0 (sym e ∙ h)), λ h. e ∙ same.1 (plain.1 h))

named_cons : (c : ℕ) (s : Text) → ((c ∷ s) == []) ≡ false
unfolding text_eq
named_cons c s = refl

canonical_root : canonical_path (b'/' ∷ []) ≡ true
unfolding canonical_path trim_slash text_eq
canonical_root = refl

trim_slash_slash : trim_slash (bytes "/") ≡ []
unfolding trim_slash
trim_slash_slash = refl

-- A path from the root passes exactly when it is the root, two slashes, or its segments all name
-- something, so that none is empty, `.` or `..`; one slash at its end is let pass.
pub canonical_path-IsCanonical : (s : Text) → (canonical_path (b'/' ∷ s) ≡ true) ↔ IsCanonical s
canonical_path-IsCanonical [] = (λ _. inl refl, λ _. canonical_root)
canonical_path-IsCanonical (c ∷ s) =
    (λ h. shape ((canonical_clean (c ∷ s) (named_cons c s)).0 h), passes)
  where
    shape :
        (trim_slash (c ∷ s) ≡ []) ⊎ All IsPlain (split (trim_slash (c ∷ s))) → IsCanonical (c ∷ s)
    shape (inl empty) = elim (trim_slash_lem (c ∷ s)) [
      | inl same ↦ inl (sym same ∙ empty)
      | inr ends ↦ inr (inl (ends ∙ ap (λ t. t ++ (b'/' ∷ [])) empty))
    ]
    shape (inr plain) = elim (trim_slash_lem (c ∷ s)) [
      | inl same ↦ inr (inr (trim_slash (c ∷ s), plain, inl (sym same)))
      | inr ends ↦ inr (inr (trim_slash (c ∷ s), plain, inr ends))
    ]

    passes : IsCanonical (c ∷ s) → canonical_path (b'/' ∷ c ∷ s) ≡ true
    passes (inl empty) = absurd (cc (empty))
    passes (inr (inl slash)) =
        (canonical_clean (c ∷ s) (named_cons c s)).1 (inl (ap trim_slash slash ∙ trim_slash_slash))
    passes (inr (inr (t, plain, inl same))) =
        let e : trim_slash (c ∷ s) ≡ t = ap trim_slash same ∙ trim_slash-IsPlain t plain in
        (canonical_clean (c ∷ s) (named_cons c s)).1
          (inr (subst (λ x. All IsPlain (split x)) (sym e) plain))
    passes (inr (inr (t, plain, inr ends))) =
        let e : trim_slash (c ∷ s) ≡ t = ap trim_slash ends ∙ trim_slash-append t in
        (canonical_clean (c ∷ s) (named_cons c s)).1
          (inr (subst (λ x. All IsPlain (split x)) (sym e) plain))

-- Where what follows the first slash of a request's path leads in the workspace: nothing, or no more
-- than a slash, to the workspace's own path, and anything else below that, as it stands but for one
-- slash at its end.
abbrev pub IsWithin : (location s target : Text) → Type 0
IsWithin location s target =
    (((s ≡ []) ⊎ (s ≡ bytes "/")) × (target ≡ location))
    ⊎ ((t : Text) × All IsPlain (split t)
        × ((s ≡ t) ⊎ (s ≡ t ++ (b'/' ∷ [])))
        × (target ≡ location ++ (b'/' ∷ t)))

-- For a workspace whose path has only segments that name something, a request path that passes is
-- joined to it unchanged but for a slash at the end: the target is the workspace's path if the
-- request's is the root or two slashes, else that path followed by the request's, less one slash at
-- its end if it has one, and its segments all name something.
pub canonical_path-IsWithin :
    (l s : Text)
    → All IsPlain (split l)
    → canonical_path (b'/' ∷ s) ≡ true
    → IsWithin (b'/' ∷ l) s (join_two (b'/' ∷ l) (b'/' ∷ s))
canonical_path-IsWithin l s plain passes = within ((canonical_path-IsCanonical s).0 passes)
  where
    within : IsCanonical s → IsWithin (b'/' ∷ l) s (join_two (b'/' ∷ l) (b'/' ∷ s))
    within (inl root) = inl (inl root, rw root (join_two-root l plain).0)
    within (inr (inl slash)) = inl (inr slash, rw slash (join_two-root l plain).1)
    within (inr (inr (t, named, inl same))) =
        inr (t, named, inl same, rw same (join_two-under l t plain named).0)
    within (inr (inr (t, named, inr ends))) =
        inr (t, named, inr ends, rw ends (join_two-under l t plain named).1)

-- So the test that the target is addressed to the workspace always passes.
pub has_prefix-join_two :
    (l s : Text)
    → All IsPlain (split l)
    → canonical_path (b'/' ∷ s) ≡ true
    → has_prefix (join_two (b'/' ∷ l) (b'/' ∷ s)) (b'/' ∷ l) ≡ true
has_prefix-join_two l s plain passes = elim (canonical_path-IsWithin l s plain passes) [
  | inl (_, same) ↦ rw same (
      ap (λ x. has_prefix x (b'/' ∷ l)) (sym (append-nil (b'/' ∷ l)))
      ∙ has_prefix-append (b'/' ∷ l) [])
  | inr (t, _, _, below) ↦ rw below (has_prefix-append (b'/' ∷ l) (b'/' ∷ t))
]
