-- ===== src/Apiserver/AdmissionMatch/Tests.antt =====
-- A webhook on example.com/v1 widgets, and a write to something else.
use spillway.Prelude.{◌≡◌, refl, true, false, all, some, [], ◌∷◌}
use spillway.Prelude.Text.{bytes, text_key, text_eq}
use spillway.Apiserver.AdmissionMatch.{
  create, update, create_type, GroupVersionResource, Rule, AdmissionMatcher, absent, listing,
  matches_write, contains_operation, contains, contains_resource, rule_matches, rules_match,
  webhooks_match, configurations_match, lister_matches,
}
use spillway.Apiserver.AdmissionMatch.Rules.{Silent, IsUnbound, matches_write-Silent}

abbrev widgets : GroupVersionResource
widgets = record { group = bytes "example.com"; version = bytes "v1"; resource = bytes "widgets" }

abbrev gadgets : GroupVersionResource
gadgets = record { group = bytes "example.com"; version = bytes "v1"; resource = bytes "gadgets" }

abbrev rule : Rule
rule = record {
  operations = create_type ∷ [];
  api_groups = bytes "*" ∷ [];
  api_versions = bytes "v1" ∷ [];
  resources = bytes "widgets/*" ∷ [];
}

abbrev matcher : AdmissionMatcher
matcher = record {
  validating = listing (((rule ∷ []) ∷ []) ∷ []);
  mutating = absent;
  bindings = absent;
  synced = true ∷ [];
}

code : Unit {0}
unfolding matches_write contains_operation contains contains_resource rule_matches rules_match
    webhooks_match configurations_match lister_matches text_eq
code = tt

answers :
    (matches_write (some matcher) widgets create ≡ true)
    × (matches_write (some matcher) gadgets create ≡ false)
    × (matches_write (some matcher) widgets update ≡ false)
unfolding code
answers = (refl, refl, refl)

matches_write-Silent_example :
    (all (λ synced. synced) matcher.synced ≡ true)
    × IsUnbound matcher.bindings
    × Silent gadgets create_type matcher.mutating
    × Silent gadgets create_type matcher.validating
unfolding code
matches_write-Silent_example = (matches_write-Silent matcher gadgets create).0 refl
