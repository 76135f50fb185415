-- ===== src/Kcp/Discovery/Tests.antt =====
-- Refreshes of the cache of pkg/kcp/discovery.go against a small workspace.
use spillway.Prelude.{
  ◌≡◌, refl, true, false, ◌&&◌, Option, none, some, List, [], ◌∷◌, ok, is_ok, is_some, any, ◌==◌,
  if◌then◌else◌,
}
use spillway.Prelude.Text.{Text, bytes, text_key, text_eq, has_suffix}
use spillway.Prelude.Maps.{lookup, insert}
use spillway.Prelude.ListSets.{list_sets}
use spillway.Kcp.Api.{GroupVersion, group_version_key, group_version_eq, ApiGroup, ApiResource}
use spillway.Kcp.Groups.{GroupMatcher, matches, exact}
use spillway.Kcp.Discovery.{
  DiscoveryClient, ResourceCache, new_resource_cache, refresh, refresh_snapshot, run, tick, changed,
  cancelled,
}
use spillway.Kcp.Discovery.Contents.{groups-refresh_snapshot}
use spillway.Kcp.Discovery.Refreshes.{IsServing, run-IsServing}
use spillway.Kcp.Discovery.Series.{series}

abbrev example : Text
example = bytes "a.example.com"

abbrev matcher : Option GroupMatcher
matcher = some (record {
  exact = bytes "gone.io" ∷ [];
  suffixes = bytes ".example.com" ∷ [];
  excluded_exact = [];
  excluded_suffixes = [];
})

-- "group/version" in this workspace is always of version v1.
abbrev parse : Text → Option GroupVersion
parse text =
    if text == bytes "bad" then none else some (record { group = text; version = bytes "v1" })

abbrev widgets : ApiResource
widgets = record {
  name = bytes "widgets";
  singular_name = bytes "widget";
  namespaced = true;
  group = [];
  version = [];
  kind = bytes "Widget";
  verbs = [];
  short_names = [];
  categories = [];
}

abbrev served : ApiGroup
served = record {
  name = example;
  versions = record { group_version = example; version = bytes "v1" } ∷ [];
}

abbrev other : ApiGroup
other = record { name = bytes "apps"; versions = [] }

abbrev reported : List ApiGroup
reported = served ∷ other ∷ []

abbrev client : DiscoveryClient
client = record { server_groups = some reported; server_resources = λ _. some (widgets ∷ []) }

abbrev silent : DiscoveryClient
silent = record { server_groups = none; server_resources = λ _. none }

abbrev start : ResourceCache
start = new_resource_cache (bytes "team-a") matcher

abbrev filled : ResourceCache
filled = record {
  workspace = bytes "team-a";
  owned = matcher;
  snapshot = record {
    groups = (example, served) ∷ [];
    resources = (record { group = example; version = bytes "v1" }, widgets ∷ []) ∷ [];
  };
  synced = true;
  matched = none;
  generation = 1;
}

cache : Unit {0}
unfolding refresh refresh_snapshot new_resource_cache matches exact insert lookup has_suffix text_eq
    run series group_version_eq
cache = tt

refreshed : refresh_snapshot parse client start ≡ ok filled
unfolding cache
refreshed = refl

refresh_tests :
    (is_ok (refresh parse client start).0 ≡ true)
    × (is_ok (refresh parse silent start).0 ≡ false)
    × ((run parse start (tick client ∷ tick silent ∷ changed false client ∷ cancelled ∷ [])).1 ≡ 2)
unfolding cache
refresh_tests = (refl, refl, refl)

groups-refresh_snapshot_example :
    is_some (lookup example filled.snapshot.groups)
    ≡ any (λ (g : ApiGroup). g.name == example && matches matcher g.name) reported
unfolding new_resource_cache
groups-refresh_snapshot_example =
    groups-refresh_snapshot parse client start filled reported example refl refreshed

run-IsServing_example :
    IsServing (run parse (new_resource_cache (bytes "team-a") matcher) (tick client ∷ [])).0
run-IsServing_example = run-IsServing parse (bytes "team-a") matcher (tick client ∷ [])
