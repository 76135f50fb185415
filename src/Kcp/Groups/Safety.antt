-- ===== src/Kcp/Groups/Safety.antt =====
-- No wildcard puts spillway in front of Kubernetes' own groups.
use spillway.Prelude.{
  ℕ, ◌+◌, ◌≤◌, ◌≡◌, ◌⊎◌, inl, inr, true, false, some, List, [], ◌∷◌, ◌++◌, arith, ok, Result-cases,
  Bool-cases, refl, Option-cases, Any, any, All, All-append, ap, drop, sym, ◌∙◌,
}
use spillway.Prelude.Text.{
  Text, text_key, text_eq_iff, has_suffix, count_byte, cut_byte, has_suffix_sound,
  has_suffix_complete,
}
use spillway.Prelude.Sets.{Sets}
use spillway.Kcp.Groups.{
  under_suffix, GroupMatcher, no_groups, reserved_suffix, matches, include, exclude, add_pattern,
  add_patterns, parse_group_matcher,
}
use spillway.Kcp.Groups.Spec.{under_suffix_sound}
use spillway.Kcp.Groups.Refinement.{parse_group_matcher-add_patterns}

count_byte-append : (s t : Text) (c : ℕ) → count_byte (s ++ t) c ≡ count_byte s c + count_byte t c
unfolding count_byte
count_byte-append [] t c = omega arith
count_byte-append (b ∷ s) t c = ground (arith, count_byte-append s t c)

-- Of two ends of one text, one is an end of the other.
two_suffixes :
    (r s q t : Text) → r ++ s ≡ q ++ t → ((u : Text) × (s ≡ u ++ t)) ⊎ ((u : Text) × (t ≡ u ++ s))
two_suffixes [] s q t e = inl (q, e)
two_suffixes (c ∷ r) s [] t e = inr (c ∷ r, sym e)
two_suffixes (c ∷ r) s (d ∷ q) t e = two_suffixes r s q t (cc)

-- What the guards of `ParseGroupMatcher` leave of a wildcard.
abbrev IsBounded : Text → Type 0
IsBounded suffix = (2 ≤ count_byte suffix b'.') × (has_suffix suffix reserved_suffix ≡ false)

-- Such a suffix and Kubernetes' domain end no text together.
apart :
    (suffix : Text)
    → IsBounded suffix
    → ((u : Text) × (suffix ≡ u ++ reserved_suffix))
      ⊎ ((u : Text) × (reserved_suffix ≡ u ++ suffix))
    → ⊥
unfolding count_byte
apart suffix (wide, free) (inl (u, longer)) =
    cc (has_suffix_complete u reserved_suffix, ap (λ s. has_suffix s reserved_suffix) longer)
apart suffix (wide, free) (inr ([], same)) = cc (has_suffix_complete [] reserved_suffix)
apart suffix (wide, free) (inr (c ∷ u, shorter)) =
    let counted : ◌≡◌ {A = ℕ} 1 (count_byte (u ++ suffix) b'.') =
      ap (λ s. count_byte (drop 1 s) b'.') shorter in
    omega (arith, count_byte-append u suffix b'.')

IsBounded-misses :
    (group suffix : Text)
    → IsBounded suffix
    → under_suffix group suffix ≡ true
    → has_suffix group reserved_suffix ≡ true
    → ⊥
IsBounded-misses group suffix bounded under hit =
    let (rest, _, e) = under_suffix_sound group suffix under in
    let (q, e') = has_suffix_sound group reserved_suffix hit in
    apart suffix bounded (two_suffixes rest suffix q reserved_suffix (sym e ∙ e'))

any-misses :
    (group : Text) (suffixes : List Text)
    → All IsBounded suffixes
    → has_suffix group reserved_suffix ≡ true
    → any (λ suffix. under_suffix group suffix) suffixes ≡ false
any-misses group [] _ hit = refl
any-misses group (s ∷ ss) (b, bs) hit = elim (Bool-cases (under_suffix group s)) [
  | inl under ↦ absurd (IsBounded-misses group s b under hit)
  | inr miss ↦ rw miss (any-misses group ss bs hit)
]

module _ ⦃S : Sets Text⦄ where
  include-IsBounded :
      (m next : GroupMatcher) (pattern : Text)
      → include m pattern ≡ ok next
      → All IsBounded m.suffixes
      → All IsBounded next.suffixes
  unfolding include
  include-IsBounded m next pattern h keep =
      ground (arith, All-append IsBounded m.suffixes (drop 1 pattern ∷ []) keep)

  include-exact :
      (m next : GroupMatcher) (pattern group : Text)
      → include m pattern ≡ ok next
      → S.has next.exact group ≡ true
      → (pattern ≡ group) ⊎ (S.has m.exact group ≡ true)
  unfolding include
  include-exact m next pattern group h =
      ground (arith, S.has-insert m.exact pattern group, text_eq_iff pattern group)

  exclude-keeps :
      (m next : GroupMatcher) (pattern : Text)
      → exclude m pattern ≡ ok next
      → (next.suffixes ≡ m.suffixes) × (next.exact ≡ m.exact)
  unfolding exclude
  exclude-keeps m next pattern h = ground arith

  add_pattern-IsBounded :
      (m next : GroupMatcher) (pattern : Text)
      → add_pattern m pattern ≡ ok next
      → All IsBounded m.suffixes
      → All IsBounded next.suffixes
  unfolding add_pattern
  add_pattern-IsBounded m next pattern h keep = elim (Option-cases (cut_byte b'!' pattern)) [
    | inl plain ↦ include-IsBounded m next pattern (rw (plain, add_pattern) at h) keep
    | inr (rest, bang) ↦ rw ((exclude-keeps m next rest (rw (bang, add_pattern) at h)).0) keep
  ]

  add_pattern-exact :
      (m next : GroupMatcher) (pattern group : Text)
      → add_pattern m pattern ≡ ok next
      → S.has next.exact group ≡ true
      → (pattern ≡ group) ⊎ (S.has m.exact group ≡ true)
  unfolding add_pattern
  add_pattern-exact m next pattern group h has = elim (Option-cases (cut_byte b'!' pattern)) [
    | inl plain ↦ include-exact m next pattern group (rw (plain, add_pattern) at h) has
    | inr (rest, bang) ↦
        inr (rw ((exclude-keeps m next rest (rw (bang, add_pattern) at h)).1) at has)
  ]

  add_patterns-IsBounded :
      (m next : GroupMatcher) (patterns : List Text)
      → add_patterns m patterns ≡ ok next
      → All IsBounded m.suffixes
      → All IsBounded next.suffixes
  unfolding add_patterns
  add_patterns-IsBounded m next [] h keep = ground arith
  add_patterns-IsBounded m next (p ∷ ps) h keep = elim (Result-cases (add_pattern m p)) [
    | inl (m', added) ↦
        add_patterns-IsBounded m' next ps (rw (added, add_patterns) at h)
          (add_pattern-IsBounded m m' p added keep)
    | inr (e, failed) ↦ ground arith
  ]

  add_patterns-exact :
      (m next : GroupMatcher) (patterns : List Text) (group : Text)
      → add_patterns m patterns ≡ ok next
      → S.has next.exact group ≡ true
      → Any (λ p. p ≡ group) patterns ⊎ (S.has m.exact group ≡ true)
  unfolding add_patterns
  add_patterns-exact m next [] group h has = ground arith
  add_patterns-exact m next (p ∷ ps) group h has = elim (Result-cases (add_pattern m p)) [
    | inl (m', added) ↦ ground (
      arith,
      add_patterns-exact m' next ps group (rw (added, add_patterns) at h) has,
      add_pattern-exact m m' p group added,
    )
    | inr (e, failed) ↦ ground arith
  ]

  -- A group under `.k8s.io` that a parsed matcher serves is an entry of the configuration, letter
  -- by letter: no wildcard that `ParseGroupMatcher` accepts reaches such a group.
  pub matches-reserved :
      (patterns : List Text) (m : GroupMatcher) (group : Text)
      → parse_group_matcher patterns ≡ ok m
      → has_suffix group reserved_suffix ≡ true
      → matches (some m) group ≡ true
      → Any (λ p. p ≡ group) patterns
  unfolding matches
  matches-reserved patterns m group h hit matched =
      let added = parse_group_matcher-add_patterns m patterns h in
      ground (
        arith,
        any-misses group m.suffixes (add_patterns-IsBounded no_groups m patterns added tt) hit,
        add_patterns-exact no_groups m patterns group added,
        S.has-empty group,
      )
