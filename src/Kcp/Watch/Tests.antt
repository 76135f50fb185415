-- ===== src/Kcp/Watch/Tests.antt =====
-- Definitions that are applied, one of them in a group that is not owned.
use spillway.Prelude.{◌≡◌, refl, false, Option, none, some, List, [], ◌∷◌, ◌++◌}
use spillway.Prelude.Text.{Text, bytes, text_key, text_eq}
use spillway.Prelude.ListSets.{list_sets}
use spillway.Kcp.Groups.{GroupMatcher, excluded, matches}
use spillway.Kcp.Api.{GroupVersion}
use spillway.Kcp.Discovery.{
  DiscoveryClient, ResourceCache, changed, new_resource_cache, refresh, run,
}
use spillway.Kcp.Watch.Refreshed.{
  Step, crd, binding, wake, wakeups, watched, watched-changes_served,
}
use spillway.Kcp.Watch.{
  Event, definition, tombstone, other, crd_event, receive, notify, watch_all, HasUnread,
  watch_all-HasUnread,
}

abbrev matcher : Option GroupMatcher
matcher = some (record {
  exact = bytes "e.com" ∷ [];
  suffixes = [];
  excluded_exact = [];
  excluded_suffixes = [];
})

abbrev applied : List Event
applied =
    crd_event (definition (bytes "e.com"))
    ∷ receive
    ∷ crd_event (tombstone (some (bytes "e.com")))
    ∷ crd_event (definition (bytes "other.com"))
    ∷ crd_event other
    ∷ []

code : Unit {0}
unfolding text_eq excluded matches notify watch_all
code = tt

quiet : watch_all matcher (crd_event (definition (bytes "other.com")) ∷ []) false ≡ false
unfolding code
quiet = refl

unread : HasUnread matcher applied
unfolding code
unread = (watch_all-HasUnread matcher applied).0 refl

abbrev parse : Text → Option GroupVersion
parse text = some (record { group = text; version = bytes "v1" })

abbrev client : DiscoveryClient
client = record {
  server_groups = some (record { name = bytes "e.com"; versions = [] } ∷ []);
  server_resources = λ _. none;
}

-- A burst of two changes and an event of no concern.
abbrev burst : List Step
burst = crd (definition (bytes "e.com")) ∷ crd (definition (bytes "other.com")) ∷ binding ∷ []

abbrev cache : ResourceCache
cache = new_resource_cache (bytes "team-a") matcher

watched-changes_served_example :
    watched matcher parse cache
      (burst ++ wake (changed false client) ∷ wake (changed false client) ∷ [])
      false
    ≡ (refresh parse client cache).1
unfolding code new_resource_cache wakeups run
watched-changes_served_example =
    watched-changes_served matcher parse cache burst (wake (changed false client) ∷ []) client
      (tt, (tt, (tt, tt)))
