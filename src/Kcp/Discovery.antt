-- ===== src/Kcp/Discovery.antt =====
-- `ResourceCache` of pkg/kcp/discovery.go. The discovery client is an argument: what it answers
-- during one refresh. So is schema.ParseGroupVersion.
pub mod Refreshes
pub mod Contents
pub mod Series
mod Tests
use spillway.Prelude.{
  ℕ, suc, ◌+◌, ◌%◌, ◌^◌, Bool, true, false, not, Option, none, some, List, [], ◌∷◌, ◌++◌, map,
  if◌then◌else◌, Result, ok, err, ◌>>=◌, is_some, is_ok, Comparable, ◌==◌,
}
use spillway.Prelude.Text.{Text, bytes, text_key}
use spillway.Prelude.Maps.{Map, lookup, insert}
use spillway.Prelude.Sets.{Sets}
use spillway.Kcp.Api.{GroupVersion, group_version_key, ApiGroup, VersionInfo, ApiResource}
use spillway.Kcp.Metrics.{
  Metric, refresh_duration, refresh_total, last_success_timestamp, group_served,
  group_served_deleted,
}
use spillway.Kcp.Groups.{GroupMatcher, matches, exact}

pub record Snapshot : Type 0 where
  pub groups : Map Text ApiGroup
  pub resources : Map GroupVersion (List ApiResource)

abbrev pub empty_snapshot : Snapshot
empty_snapshot = record { groups = []; resources = [] }

pub data RefreshError : Type 0 where
  listing_groups : RefreshError
  parsing_group_version listing_resources : Text → RefreshError

-- discovery.DiscoveryInterface, as it answers during one refresh; no answer is an error.
pub record DiscoveryClient : Type 0 where
  pub server_groups : Option (List ApiGroup)
  pub server_resources : Text → Option (List ApiResource)

-- What `Run` waits for: the end of its context, a tick, or a change signal, which is followed by a
-- pause in which the context may end. A refresh finds the client as it is then.
pub data Wakeup : Type 0 where
  cancelled : Wakeup
  tick : DiscoveryClient → Wakeup
  changed : (ended_in_pause : Bool) → DiscoveryClient → Wakeup

-- c.generation.Add(1) on an atomic.Uint64
abbrev pub next_generation : ℕ → ℕ
next_generation n = (n + 1) % 2 ^ 64

abbrev or_error {ℓ} : {A : Type ℓ} → RefreshError → Option A → Result RefreshError A
or_error e none = err e
or_error e (some a) = ok a

module _ (parse_group_version : Text → Option GroupVersion) (client : DiscoveryClient) where
  -- The inner loop of `refresh`, over the versions of a group.
  unfoldable pub add_versions : Snapshot → List VersionInfo → Result RefreshError Snapshot
  add_versions next [] = ok next
  add_versions next (version ∷ rest) =
      or_error (parsing_group_version version.group_version)
        (parse_group_version version.group_version)
      >>= λ gv.
          or_error (listing_resources version.group_version)
            (client.server_resources version.group_version)
          >>= λ listed.
              add_versions (record next { resources = insert gv listed next.resources }) rest

-- The series that `Refresh` sets for the groups named outright.
unfoldable pub named_series : Snapshot → List Text → List Metric
named_series snapshot [] = []
named_series snapshot (group ∷ rest) =
    group_served group (if is_some (lookup group snapshot.groups) then 1 else 0)
    ∷ named_series snapshot rest

unfoldable pub current_series : List Text → List Metric
current_series [] = []
current_series (group ∷ rest) = group_served group 1 ∷ current_series rest

module _ ⦃S : Sets Text⦄ where
  pub record ResourceCache : Type 0 where
    pub workspace : Text
    pub owned : Option GroupMatcher
    pub snapshot : Snapshot
    pub synced : Bool
    pub matched : Option S.Set
    pub generation : ℕ

  -- NewResourceCache(workspace, client, owned)
  unfoldable pub new_resource_cache : Text → Option GroupMatcher → ResourceCache
  new_resource_cache workspace owned = record {
    workspace = workspace;
    owned = owned;
    snapshot = empty_snapshot;
    synced = false;
    matched = none;
    generation = 0;
  }

  -- c.Owns(group)
  unfoldable pub owns : ResourceCache → Text → Bool
  unfolding matches
  owns c group = matches c.owned group

  -- groupNames(snapshot), from the entries of its groups
  unfoldable pub names_from : S.Set → Map Text ApiGroup → S.Set
  names_from names [] = names
  names_from names ((group, _) ∷ rest) = names_from (S.insert names group) rest

  unfoldable pub group_names : Snapshot → S.Set
  unfolding names_from
  group_names snapshot = names_from S.empty snapshot.groups

  -- c.ServedGroups()
  unfoldable pub served_groups : ResourceCache → S.Set
  unfolding group_names
  served_groups c = group_names c.snapshot

  module _ (parse_group_version : Text → Option GroupVersion) (client : DiscoveryClient) where
    -- The outer loop of `refresh`.
    unfoldable pub add_groups :
        Option GroupMatcher → Snapshot → List ApiGroup → Result RefreshError Snapshot
    unfolding add_versions matches
    add_groups owned next [] = ok next
    add_groups owned next (group ∷ rest) =
        let skipped = add_groups owned next rest in
        let added =
          (add_versions parse_group_version client
              (record next { groups = insert group.name group next.groups }) group.versions
            >>= λ filled. add_groups owned filled rest) in
        if not (matches owned group.name) then skipped else added

    -- c.refresh()
    unfoldable pub refresh_snapshot : ResourceCache → Result RefreshError ResourceCache
    unfolding add_groups
    refresh_snapshot c = or_error listing_groups client.server_groups >>= λ groups.
        add_groups c.owned empty_snapshot groups >>= λ next.
        ok (record c { snapshot = next; synced = true; generation = next_generation c.generation })

  -- c.owned.exact.Has(group); with no matcher nothing was ever served, and it is not asked
  abbrev pub names_outright : Option GroupMatcher → Text → Bool
  names_outright none group = false
  names_outright (some m) group = S.has m.exact group

  unfoldable pub gone_series : Option GroupMatcher → List Text → List Metric
  gone_series owned [] = []
  gone_series owned (group ∷ rest) =
      let later = gone_series owned rest in
      if names_outright owned group then later else group_served_deleted group ∷ later

  abbrev pub previous_gone : Option S.Set → S.Set → List Text
  previous_gone none current = []
  previous_gone (some previous) current = S.list (S.difference previous current)

  -- What `Refresh` does after a success, on the cache that `refresh` has left.
  unfoldable pub publish_series : ResourceCache → ResourceCache × List Metric
  unfolding named_series current_series gone_series group_names exact
  publish_series c =
      let current = group_names c.snapshot in
      (
        record c { matched = some current },
        named_series c.snapshot (exact c.owned)
            ++ current_series (S.list current)
            ++ gone_series c.owned (previous_gone c.matched current),
      )

  module _ (parse_group_version : Text → Option GroupVersion) where
    after_refresh :
        ResourceCache
        → Result RefreshError ResourceCache
        → Result RefreshError ResourceCache × ResourceCache × List Metric
    unfolding publish_series
    after_refresh c (err e) =
        (err e, c, refresh_duration c.workspace ∷ refresh_total c.workspace (bytes "error") ∷ [])
    after_refresh c (ok refreshed) =
        let (published, series) = publish_series refreshed in
        (
          ok published,
          published,
          refresh_duration c.workspace
              ∷ refresh_total c.workspace (bytes "success")
              ∷ last_success_timestamp c.workspace
              ∷ series,
        )

    -- c.Refresh(): its error or success, the cache after it, and what it published
    unfoldable pub refresh :
        DiscoveryClient
        → ResourceCache
        → Result RefreshError ResourceCache × ResourceCache × List Metric
    unfolding after_refresh refresh_snapshot
    refresh client c = after_refresh c (refresh_snapshot parse_group_version client c)

    -- c.Run(…) over its wakeups: the cache, and how often onChange was called.
    unfoldable pub run : ResourceCache → List Wakeup → ResourceCache × ℕ
    unfolding refresh
    run c [] = (c, 0)
    run c (cancelled ∷ rest) = (c, 0)
    run c (changed true client ∷ rest) = (c, 0)
    run c (changed false client ∷ rest) =
        let (result, next, _) = refresh client c in
        let (last, calls) = run next rest in (last, (if is_ok result then 1 else 0) + calls)
    run c (tick client ∷ rest) =
        let (result, next, _) = refresh client c in
        let (last, calls) = run next rest in (last, (if is_ok result then 1 else 0) + calls)
