-- ===== src/Apiserver/Router.antt =====
-- The router of pkg/apiserver/router.go. A workspace is known by its address, since the code
-- compares pointers; the caches are the workspaces' own, as they are at the moment.
pub mod Takes
pub mod Merge
pub mod Coherence
pub mod Answers
mod Tests
use spillway.Prelude.{
  ℕ, ◌+◌, ◌%◌, ◌^◌, Bool, true, false, ◌&&◌, ◌||◌, not, Option, none, some, List, [], ◌∷◌,
  if◌then◌else◌, eqb, is_some, Comparable, ◌==◌, number_key,
}
use spillway.Prelude.Text.{Text, text_key}
use spillway.Prelude.Maps.{Map, lookup, insert}
use spillway.Prelude.Sets.{Sets}
use spillway.Kcp.Api.{GroupVersion, group_version_key, ApiGroup, ApiResource}
use spillway.Kcp.Groups.{GroupMatcher, matches}
use spillway.Kcp.Discovery.{Snapshot, empty_snapshot, ResourceCache, group_names}

-- What `current` keeps: the merged view, and the owner of each group by its address.
pub record MergedSnapshot : Type 0 where
  pub generation : ℕ
  pub revision : ℕ
  pub snapshot : Snapshot
  pub owners : Map Text ℕ

-- The body of the loop over a workspace's groups: the first workspace to have a group keeps it.
unfoldable pub take_groups : (address : ℕ) → MergedSnapshot → Map Text ApiGroup → MergedSnapshot
take_groups address merged [] = merged
take_groups address merged ((group, api_group) ∷ rest) =
    take_groups address
      (if is_some (lookup group merged.snapshot.groups) then merged else (record merged {
        snapshot = record merged.snapshot {
          groups = insert group api_group merged.snapshot.groups;
        };
        owners = insert group address merged.owners;
      }))
      rest

abbrev pub owned_by : (address : ℕ) → Option ℕ → Bool
owned_by address none = false
owned_by address (some owner) = eqb owner address

-- The body of the loop over a workspace's resources.
unfoldable pub take_resources :
    (address : ℕ) → MergedSnapshot → Map GroupVersion (List ApiResource) → MergedSnapshot
take_resources address merged [] = merged
take_resources address merged ((gv, resources) ∷ rest) =
    take_resources address
      (if not (owned_by address (lookup gv.group merged.owners)) then merged else (record merged {
        snapshot = record merged.snapshot {
          resources = insert gv resources merged.snapshot.resources;
        };
      }))
      rest

module _ ⦃S : Sets Text⦄ where
  pub record Workspace : Type 0 where
    pub address : ℕ
    pub name : Text
    pub fingerprint : Text
    pub groups : Option GroupMatcher
    pub cache : ResourceCache

  pub record Router : Type 0 where
    pub workspaces : List Workspace
    pub revision : ℕ
    pub merged : Option MergedSnapshot

  -- r.replace(workspaces), with revision an atomic.Uint64
  unfoldable pub replace : Router → List Workspace → Router
  replace r workspaces = record r { workspaces = workspaces; revision = (r.revision + 1) % 2 ^ 64 }

  -- newRouter(workspaces)
  unfoldable pub new_router : List Workspace → Router
  unfolding replace
  new_router workspaces =
      replace (record { workspaces = []; revision = 0; merged = none }) workspaces

  -- The sum of r.Generation(), in uint64.
  unfoldable pub total_generation : List Workspace → ℕ
  total_generation [] = 0
  total_generation (w ∷ ws) = (w.cache.generation + total_generation ws) % 2 ^ 64

  -- r.HasSynced()
  unfoldable pub has_synced : List Workspace → Bool
  has_synced [] = true
  has_synced (w ∷ ws) = w.cache.synced && has_synced ws

  -- r.configuredFor(group)
  unfoldable pub configured_for : List Workspace → Text → Option Workspace
  configured_for [] group = none
  configured_for (w ∷ ws) group = if matches w.groups group then some w else configured_for ws group

  -- r.Owns(group)
  unfoldable pub owns : Router → Text → Bool
  unfolding configured_for
  owns r group = is_some (configured_for r.workspaces group)

  -- The loop of `current` over the workspaces.
  unfoldable pub merge : MergedSnapshot → List Workspace → MergedSnapshot
  merge merged [] = merged
  merge merged (w ∷ ws) =
      merge
        (take_resources w.address (take_groups w.address merged w.cache.snapshot.groups)
          w.cache.snapshot.resources)
        ws

  unfoldable pub rebuild : (generation revision : ℕ) → List Workspace → MergedSnapshot
  rebuild generation revision workspaces =
      merge
        (record {
          generation = generation;
          revision = revision;
          snapshot = empty_snapshot;
          owners = [];
        })
        workspaces

  -- The test on r.merged, which `current` makes before and after it takes the lock.
  abbrev pub is_current : (generation revision : ℕ) → MergedSnapshot → Bool
  is_current generation revision merged =
      eqb merged.generation generation && eqb merged.revision revision

  current_at : (generation revision : ℕ) → Router → Option MergedSnapshot → MergedSnapshot × Router
  current_at generation revision r none =
      let merged = rebuild generation revision r.workspaces in
      (merged, record r { merged = some merged })
  current_at generation revision r (some held) =
      let merged = rebuild generation revision r.workspaces in
      if is_current generation revision held
      then (held, r)
      else (merged, record r { merged = some merged })

  -- r.current()
  unfoldable pub current : Router → MergedSnapshot × Router
  unfolding current_at
  current r = current_at (total_generation r.workspaces) r.revision r r.merged

  -- r.servingFor(group), the address of the workspace
  unfoldable pub serving_for : Router → Text → Option ℕ
  serving_for r group = lookup group (current r).0.owners

  -- r.ServedGroups()
  unfoldable pub served_groups : Router → S.Set
  served_groups r = group_names (current r).0.snapshot
