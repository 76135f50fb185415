-- ===== src/Apiserver/Router/Tests.antt =====
-- A router over two workspaces whose wildcards overlap.
use spillway.Prelude.{
  ◌≡◌, refl, true, Option, none, some, List, [], ◌∷◌, arith, is_some, inl, inr, Bool-cases, subst,
  ==_iff, ◌==◌,
}
use spillway.Prelude.Text.{Text, bytes, text_key, text_eq, has_suffix}
use spillway.Prelude.Maps.{lookup, insert}
use spillway.Prelude.ListSets.{list_sets}
use spillway.Kcp.Api.{GroupVersion, group_version_key, group_version_eq}
use spillway.Kcp.Groups.{GroupMatcher, matches}
use spillway.Kcp.Discovery.{DiscoveryClient, ResourceCache}
use spillway.Apiserver.Router.{
  Workspace, Router, new_router, current, serving_for, owns, replace, rebuild, take_groups,
  take_resources, merge, total_generation, configured_for,
}
use spillway.Apiserver.Router.Merge.{IsFrom, first_serving, AreDistinct, AreMaps}
use spillway.Apiserver.Router.Coherence.{Reachable, started, asked, total, current-rebuild}
use spillway.Apiserver.Router.Answers.{current-first_serving, serving_for-owns, AreServing}

abbrev example : Text
example = bytes "a.example.com"

abbrev example_v1 : GroupVersion
example_v1 = record { group = example; version = bytes "v1" }

abbrev matcher : Option GroupMatcher
matcher = some (record {
  exact = [];
  suffixes = bytes ".example.com" ∷ [];
  excluded_exact = [];
  excluded_suffixes = [];
})

abbrev cache_of : Text → ResourceCache
cache_of name = record {
  workspace = name;
  owned = matcher;
  snapshot = record {
    groups = (example, record { name = example; versions = [] }) ∷ [];
    resources = (example_v1, []) ∷ [];
  };
  synced = true;
  matched = none;
  generation = 1;
}

abbrev team_a : Workspace
team_a = record {
  address = 1;
  name = bytes "team-a";
  fingerprint = [];
  groups = matcher;
  cache = cache_of (bytes "team-a");
}

abbrev team_b : Workspace
team_b = record {
  address = 2;
  name = bytes "team-b";
  fingerprint = [];
  groups = matcher;
  cache = cache_of (bytes "team-b");
}

abbrev both : List Workspace
both = team_a ∷ team_b ∷ []

abbrev silent : DiscoveryClient
silent = record { server_groups = none; server_resources = λ _. none }

abbrev parse : Text → Option GroupVersion
parse text = none

code : Unit {0}
unfolding new_router replace current serving_for owns configured_for rebuild take_groups
    take_resources merge total_generation total lookup insert matches has_suffix text_eq
    group_version_eq first_serving
code = tt

-- The router after a first request: the merged view is held.
abbrev asked_once : Router
asked_once = (current (new_router both)).1

reachable : Reachable parse asked_once
unfolding code
reachable = asked (started both (omega arith))

distinct : AreDistinct asked_once.workspaces
unfolding code
distinct = ((refl, tt), (tt, tt))

maps : AreMaps asked_once.workspaces
unfolding code
maps = ((refl, tt), ((refl, tt), tt))

answers : serving_for asked_once example ≡ some 1
unfolding code
answers = refl

current-rebuild_example : (current asked_once).0 ≡ rebuild (total parse both) 1 both
unfolding code
current-rebuild_example = current-rebuild parse asked_once reachable

current-first_serving_example :
    IsFrom (current asked_once).0 example_v1 (some team_a)
    × (serving_for asked_once example ≡ some 1)
unfolding code
current-first_serving_example =
    current-first_serving parse asked_once example_v1 reachable distinct maps

covers_example :
    (name : Text)
    → is_some (lookup name (cache_of []).snapshot.groups) ≡ true
    → matches matcher name ≡ true
unfolding code
covers_example name h = elim (Bool-cases (example == name)) [
  | inl same ↦ subst (λ n. matches matcher n ≡ true) ((==_iff example name).0 same) refl
  | inr other ↦ ground (arith, h)
]

serving : AreServing parse asked_once.workspaces
unfolding code
serving = (
  (record { covered = covers_example; unsynced = λ h. cc }, refl),
  ((record { covered = covers_example; unsynced = λ h. cc }, refl), tt),
)

serving_for-owns_example : owns asked_once example ≡ true
unfolding code
serving_for-owns_example =
    serving_for-owns parse asked_once example reachable distinct maps serving refl
