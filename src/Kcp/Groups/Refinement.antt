-- ===== src/Kcp/Groups/Refinement.antt =====
-- `ParseGroupMatcher` against the meaning of the entries.
use spillway.Prelude.{
  ◌≡◌, ◌↔◌, inl, inr, Bool, true, ◌||◌, some, List, [], ◌∷◌, arith, ok, Result-cases, Option-cases,
  any, any-append, any_iff, drop,
}
use spillway.Prelude.Text.{Text, bytes, text_key, has_prefix, cut_byte}
use spillway.Prelude.Sets.{Sets}
use spillway.Kcp.Groups.{
  GroupMatcher, no_groups, under_suffix, excluded, matches, exclude, include, add_pattern,
  add_patterns, parse_group_matcher,
}
use spillway.Kcp.Groups.Spec.{
  names, covers, excludes, covers_iff, excludes_iff, Covers, Excludes, Serves,
}

-- A pattern that begins with `*.` is a star and its domain.
star_cut :
    (pattern : Text)
    → has_prefix pattern (bytes "*.") ≡ true
    → cut_byte b'*' pattern ≡ some (drop 1 pattern)
unfolding has_prefix cut_byte
star_cut [] h = ground arith
star_cut (c ∷ s) h = ground arith

module _ ⦃S : Sets Text⦄ where
  -- What the entries that are no exclusions take.
  abbrev takes : GroupMatcher → Text → Bool
  takes m group = S.has m.exact group || any (λ suffix. under_suffix group suffix) m.suffixes

  include-takes :
      (m next : GroupMatcher) (pattern group : Text)
      → include m pattern ≡ ok next
      → (takes next group ≡ (names pattern group || takes m group))
        × (excluded next group ≡ excluded m group)
  unfolding include names excluded
  include-takes m next pattern group h = ground (
    arith,
    S.has-insert m.exact pattern group,
    any-append (λ suffix. under_suffix group suffix) m.suffixes (drop 1 pattern),
    star_cut pattern,
  )

  exclude-takes :
      (m next : GroupMatcher) (pattern group : Text)
      → exclude m pattern ≡ ok next
      → (takes next group ≡ takes m group)
        × (excluded next group ≡ (names pattern group || excluded m group))
  unfolding exclude names excluded
  exclude-takes m next pattern group h = ground (
    arith,
    S.has-insert m.excluded_exact pattern group,
    any-append (λ suffix. under_suffix group suffix) m.excluded_suffixes (drop 1 pattern),
    star_cut pattern,
  )

  add_pattern-takes :
      (m next : GroupMatcher) (pattern group : Text)
      → add_pattern m pattern ≡ ok next
      → (takes next group ≡ (covers group pattern || takes m group))
        × (excluded next group ≡ (excludes group pattern || excluded m group))
  unfolding add_pattern
  add_pattern-takes m next pattern group h = elim (Option-cases (cut_byte b'!' pattern)) [
    | inl plain ↦
        rw (plain, covers, excludes)
          (include-takes m next pattern group (rw (plain, add_pattern) at h))
    | inr (rest, bang) ↦
        rw (bang, covers, excludes) (exclude-takes m next rest group (rw (bang, add_pattern) at h))
  ]

  add_patterns-takes :
      (m next : GroupMatcher) (patterns : List Text) (group : Text)
      → add_patterns m patterns ≡ ok next
      → (takes next group ≡ (any (covers group) patterns || takes m group))
        × (excluded next group ≡ (any (excludes group) patterns || excluded m group))
  unfolding add_patterns
  add_patterns-takes m next [] group h = ground arith
  add_patterns-takes m next (p ∷ ps) group h = elim (Result-cases (add_pattern m p)) [
    | inl (m', added) ↦ ground (
      arith,
      add_pattern-takes m m' p group added,
      add_patterns-takes m' next ps group (rw (added, add_patterns) at h),
    )
    | inr (e, failed) ↦ ground arith
  ]

  pub parse_group_matcher-add_patterns :
      (m : GroupMatcher) (patterns : List Text)
      → parse_group_matcher patterns ≡ ok m
      → add_patterns no_groups patterns ≡ ok m
  unfolding parse_group_matcher
  parse_group_matcher-add_patterns m patterns h =
      elim (Result-cases (add_patterns no_groups patterns)) [
        | inl (m', added) ↦ ground arith
        | inr (e, failed) ↦ ground arith
      ]

  -- A matcher that `ParseGroupMatcher` returns matches a group exactly when an entry of the
  -- configuration covers it and no exclusion names it, in whatever order the entries stand.
  pub matches-parse_group_matcher :
      (patterns : List Text) (m : GroupMatcher) (group : Text)
      → parse_group_matcher patterns ≡ ok m
      → (matches (some m) group ≡ true) ↔ Serves patterns group
  unfolding matches
  matches-parse_group_matcher patterns m group h =
      let added = parse_group_matcher-add_patterns m patterns h in
      let (taken, out) = add_patterns-takes no_groups m patterns group added in
      ground (
        arith,
        taken,
        out,
        S.has-empty group,
        any_iff (covers group) (Covers group) (covers_iff group) patterns,
        any_iff (excludes group) (Excludes group) (excludes_iff group) patterns,
      )
