-- ===== src/Kcp/Groups.antt =====
-- pkg/kcp/groups.go: which of a workspace's API groups spillway serves. A `*GroupMatcher` that may
-- be nil is an `Option`; the texts of the errors are left out.
pub mod Spec
pub mod Refinement
pub mod Safety
mod Tests
use spillway.Prelude.{
  ℕ, ◌≤◌, ◌≡◌, Bool, true, false, not, ◌&&◌, ◌||◌, Option, none, some, List, [], ◌∷◌, ◌++◌, map,
  if◌then◌else◌, Result, ok, err, ◌>>=◌, ltb, eqb, length, drop, any, ◌==◌,
}
use spillway.Prelude.Text.{
  Text, bytes, text_key, has_prefix, has_suffix, contains_byte, count_byte, cut_byte, join,
}
use spillway.Prelude.Sets.{Sets}

-- The errors of `ParseGroupMatcher` and `exclude`, in the order of their tests.
pub data GroupError : Type 0 where
  empty_group versioned not_wildcard many_wildcards too_broad reserved : Text → GroupError
  empty_exclusion exclusion_versioned exclusion_malformed : Text → GroupError
  nothing_served : GroupError

abbrev pub reserved_suffix : Text
reserved_suffix = bytes ".k8s.io"

-- The test on one suffix in `Matches` and `excluded`.
unfoldable pub under_suffix : Text → Text → Bool
under_suffix group suffix = has_suffix group suffix && ltb (length suffix) (length group)

module _ ⦃S : Sets Text⦄ where
  pub record GroupMatcher : Type 0 where
    pub exact : S.Set
    pub suffixes : List Text
    pub excluded_exact : S.Set
    pub excluded_suffixes : List Text

  abbrev pub no_groups : GroupMatcher
  no_groups = record {
    exact = S.empty;
    suffixes = [];
    excluded_exact = S.empty;
    excluded_suffixes = [];
  }

  -- m.excluded(group)
  unfoldable pub excluded : GroupMatcher → Text → Bool
  unfolding under_suffix
  excluded m group =
      S.has m.excluded_exact group || any (λ suffix. under_suffix group suffix) m.excluded_suffixes

  -- m.Matches(group)
  unfoldable pub matches : Option GroupMatcher → Text → Bool
  unfolding excluded under_suffix
  matches none group = false
  matches (some m) group =
      if excluded m group
      then false
      else (S.has m.exact group || any (λ suffix. under_suffix group suffix) m.suffixes)

  -- m.Empty()
  unfoldable pub is_empty : Option GroupMatcher → Bool
  is_empty none = true
  is_empty (some m) = eqb (S.len m.exact) 0 && eqb (length m.suffixes) 0

  -- m.exclude(pattern)
  unfoldable pub exclude : GroupMatcher → Text → Result GroupError GroupMatcher
  exclude m pattern =
      if pattern == []
      then err (empty_exclusion pattern)
      else if contains_byte pattern b'/'
      then err (exclusion_versioned pattern)
      else if not (contains_byte pattern b'*')
      then ok (record m { excluded_exact = S.insert m.excluded_exact pattern })
      else if has_prefix pattern (bytes "*.") && not (contains_byte (drop 2 pattern) b'*')
      then ok (record m { excluded_suffixes = m.excluded_suffixes ++ drop 1 pattern ∷ [] })
      else err (exclusion_malformed pattern)

  -- The cases of one round of `ParseGroupMatcher` for a pattern that is no exclusion.
  unfoldable pub include : GroupMatcher → Text → Result GroupError GroupMatcher
  include m pattern =
      if pattern == []
      then err (empty_group pattern)
      else if contains_byte pattern b'/'
      then err (versioned pattern)
      else if not (contains_byte pattern b'*')
      then ok (record m { exact = S.insert m.exact pattern })
      else if not (has_prefix pattern (bytes "*."))
      then err (not_wildcard pattern)
      else (let suffix = drop 1 pattern in
          if contains_byte (drop 1 suffix) b'*'
          then err (many_wildcards pattern)
          else if ltb (count_byte suffix b'.') 2
          then err (too_broad pattern)
          else if (suffix == reserved_suffix || has_suffix suffix reserved_suffix)
          then err (reserved pattern)
          else ok (record m { suffixes = m.suffixes ++ suffix ∷ [] }))

  -- One round of the loop of `ParseGroupMatcher`.
  unfoldable pub add_pattern : GroupMatcher → Text → Result GroupError GroupMatcher
  unfolding exclude include
  add_pattern m pattern = elim (cut_byte b'!' pattern) [
    | some rest ↦ exclude m rest
    | none ↦ include m pattern
  ]

  unfoldable pub add_patterns : GroupMatcher → List Text → Result GroupError GroupMatcher
  unfolding add_pattern
  add_patterns m [] = ok m
  add_patterns m (pattern ∷ rest) = add_pattern m pattern >>= λ next. add_patterns next rest

  -- ParseGroupMatcher(patterns)
  unfoldable pub parse_group_matcher : List Text → Result GroupError GroupMatcher
  unfolding add_patterns is_empty
  parse_group_matcher patterns = add_patterns no_groups patterns >>= λ m.
      if is_empty (some m) then err nothing_served else ok m

  unfoldable pub not_excluded : GroupMatcher → List Text → List Text
  unfolding excluded
  not_excluded m [] = []
  not_excluded m (group ∷ rest) =
      let later = not_excluded m rest in if excluded m group then later else group ∷ later

  -- m.Exact()
  unfoldable pub exact : Option GroupMatcher → List Text
  unfolding not_excluded
  exact none = []
  exact (some m) = not_excluded m (S.list m.exact)

  -- m.String()
  unfoldable pub to_string : Option GroupMatcher → Text
  to_string none = []
  to_string (some m) = join (bytes ",") (
      S.list m.exact
      ++ map (λ suffix. b'*' ∷ suffix) m.suffixes
      ++ map (λ group. b'!' ∷ group) (S.list m.excluded_exact)
      ++ map (λ suffix. b'!' ∷ b'*' ∷ suffix) m.excluded_suffixes)
