-- ===== src/Kcp/Groups/Tests.antt =====
-- Runs of the matcher of pkg/kcp/groups.go, and the theorems at concrete configurations.
use spillway.Prelude.{◌≡◌, refl, ◌↔◌, true, false, some, List, [], ◌∷◌, ok, err, Any}
use spillway.Prelude.Text.{
  Text, bytes, text_key, text_eq, has_suffix, has_prefix, contains_byte, count_byte, cut_byte,
}
use spillway.Prelude.ListSets.{list_sets}
use spillway.Kcp.Groups.{
  GroupMatcher, matches, parse_group_matcher, nothing_served, too_broad, reserved,
}
use spillway.Kcp.Groups.Spec.{Serves}
use spillway.Kcp.Groups.Refinement.{matches-parse_group_matcher}
use spillway.Kcp.Groups.Safety.{matches-reserved}

texts : Unit {0}
unfolding text_eq has_suffix has_prefix contains_byte count_byte cut_byte
texts = tt

abbrev widgets : Text
widgets = bytes "widgets.example.com"

abbrev gateways : Text
gateways = bytes "gateway.networking.k8s.io"

abbrev entries : List Text
entries = bytes "*.example.com" ∷ bytes "!*.internal.example.com" ∷ gateways ∷ []

abbrev matcher : GroupMatcher
matcher = record {
  exact = gateways ∷ [];
  suffixes = bytes ".example.com" ∷ [];
  excluded_exact = [];
  excluded_suffixes = bytes ".internal.example.com" ∷ [];
}

parsed : parse_group_matcher entries ≡ ok matcher
unfolding parse_group_matcher texts
parsed = refl

matches_tests :
    (matches (some matcher) widgets ≡ true)
    × (matches (some matcher) (bytes "a.internal.example.com") ≡ false)
    × (matches (some matcher) (bytes "example.com") ≡ false)
unfolding matches texts
matches_tests = (refl, refl, refl)

refusals :
    (parse_group_matcher (bytes "*.com" ∷ []) ≡ err (too_broad (bytes "*.com")))
    × (parse_group_matcher (bytes "*.apps.k8s.io" ∷ []) ≡ err (reserved (bytes "*.apps.k8s.io")))
    × (parse_group_matcher (bytes "!a.b" ∷ []) ≡ err nothing_served)
unfolding parse_group_matcher texts
refusals = (refl, refl, refl)

matches-parse_group_matcher_example :
    (matches (some matcher) widgets ≡ true) ↔ Serves entries widgets
matches-parse_group_matcher_example = matches-parse_group_matcher entries matcher widgets parsed

matches-reserved_example : Any (λ p. p ≡ gateways) entries
unfolding matches texts
matches-reserved_example = matches-reserved entries matcher gateways parsed refl refl
