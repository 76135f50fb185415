-- ===== src/Apiserver/Router/Merge.antt =====
-- The merged view of pkg/apiserver/router.go: each group, and all that is served of it, comes from
-- the first workspace that serves it.
use spillway.Prelude.{
  ℕ, ◌≡◌, refl, ◌∙◌, Bool, true, false, ◌&&◌, Option, none, some, List, [], ◌∷◌, arith,
  if◌then◌else◌, eqb, is_some, All, Bool-cases, inl, inr, ap, subst,
}
use spillway.Prelude.Text.{Text, text_key}
use spillway.Prelude.Maps.{Map, IsMap, lookup}
use spillway.Prelude.Sets.{Sets}
use spillway.Kcp.Api.{GroupVersion, group_version_key, ApiGroup, ApiResource}
use spillway.Kcp.Discovery.{empty_snapshot}
use spillway.Apiserver.Router.{
  MergedSnapshot, take_groups, take_resources, owned_by, Workspace, merge, rebuild,
}
use spillway.Apiserver.Router.Takes.{
  groups-take_groups, owners-take_groups, resources-take_groups, take_resources-keeps,
  resources-take_resources, take_groups-stamp, take_resources-stamp,
}

module _ ⦃S : Sets Text⦄ where
  abbrev taken : Workspace → MergedSnapshot → MergedSnapshot
  taken w m =
      take_resources w.address (take_groups w.address m w.cache.snapshot.groups)
        w.cache.snapshot.resources

  abbrev serves : Workspace → Text → Bool
  serves w g = is_some (lookup g w.cache.snapshot.groups)

  -- What one workspace adds, as the view shows it for one group version.
  taken_groups :
      (w : Workspace) (m : MergedSnapshot) (g : Text)
      → lookup g (taken w m).snapshot.groups ≡ (
          if is_some (lookup g m.snapshot.groups)
          then lookup g m.snapshot.groups
          else lookup g w.cache.snapshot.groups)
  taken_groups w m g =
      ap (λ (gs : Map Text ApiGroup). lookup g gs)
        ((take_resources-keeps w.address (take_groups w.address m w.cache.snapshot.groups)
          w.cache.snapshot.resources).0)
      ∙ groups-take_groups w.address m w.cache.snapshot.groups g

  taken_owners :
      (w : Workspace) (m : MergedSnapshot) (g : Text)
      → lookup g (taken w m).owners ≡ (
          if is_some (lookup g m.snapshot.groups)
          then lookup g m.owners
          else if serves w g
          then some w.address
          else lookup g m.owners)
  taken_owners w m g =
      ap (λ (os : Map Text ℕ). lookup g os)
        ((take_resources-keeps w.address (take_groups w.address m w.cache.snapshot.groups)
          w.cache.snapshot.resources).1)
      ∙ owners-take_groups w.address m w.cache.snapshot.groups g

  taken_resources :
      (w : Workspace) (m : MergedSnapshot) (gv : GroupVersion)
      → IsMap w.cache.snapshot.resources
      → lookup gv (taken w m).snapshot.resources ≡ (
          if owned_by w.address (lookup gv.group (taken w m).owners)
            && is_some (lookup gv w.cache.snapshot.resources)
          then lookup gv w.cache.snapshot.resources
          else lookup gv m.snapshot.resources)
  taken_resources w m gv h = ground (
    arith,
    resources-take_resources w.address (take_groups w.address m w.cache.snapshot.groups)
        w.cache.snapshot.resources gv h,
    ap (λ (os : Map Text ℕ). owned_by w.address (lookup gv.group os))
        ((take_resources-keeps w.address (take_groups w.address m w.cache.snapshot.groups)
          w.cache.snapshot.resources).1),
    ap (λ (rs : Map GroupVersion (List ApiResource)). lookup gv rs)
        (resources-take_groups w.address m w.cache.snapshot.groups),
  )

  abbrev pub AreMaps : List Workspace → Type 0
  AreMaps ws = All (λ (w : Workspace). IsMap w.cache.snapshot.resources) ws

  settled :
      (m : MergedSnapshot) (ws : List Workspace) (gv : GroupVersion) (o : ℕ)
      → is_some (lookup gv.group m.snapshot.groups) ≡ true
      → lookup gv.group m.owners ≡ some o
      → All (λ (w : Workspace). eqb o w.address ≡ false) ws
      → AreMaps ws
      → (lookup gv.group (merge m ws).snapshot.groups ≡ lookup gv.group m.snapshot.groups)
        × (lookup gv.group (merge m ws).owners ≡ some o)
        × (lookup gv (merge m ws).snapshot.resources ≡ lookup gv m.snapshot.resources)
  unfolding merge
  settled m [] gv o known own others maps = (refl, own, refl)
  settled m (w ∷ ws) gv o known own (other, others) (is_map, maps) =
      let groups = taken_groups w m gv.group in
      let owners = taken_owners w m gv.group in
      let resources = taken_resources w m gv is_map in
      let (a, b, c) = settled (taken w m) ws gv o (ground arith) (ground arith) others maps in
      (ground arith, ground arith, ground arith)

  -- The specification: the first of the workspaces, in their order, that serves a group.
  unfoldable pub first_serving : List Workspace → Text → Option Workspace
  first_serving [] g = none
  first_serving (w ∷ ws) g = if serves w g then some w else first_serving ws g

  abbrev pub address_of : Option Workspace → Option ℕ
  address_of none = none
  address_of (some w) = some w.address

  abbrev pub group_of : Text → Option Workspace → Option ApiGroup
  group_of g none = none
  group_of g (some w) = lookup g w.cache.snapshot.groups

  abbrev pub resources_of : GroupVersion → Option Workspace → Option (List ApiResource)
  resources_of gv none = none
  resources_of gv (some w) = lookup gv w.cache.snapshot.resources

  -- What a view shows of a group version, when it comes from the workspace given.
  pub record IsFrom (m : MergedSnapshot) (gv : GroupVersion) (w : Option Workspace) : Type 0 where
    pub owner : lookup gv.group m.owners ≡ address_of w
    pub group : lookup gv.group m.snapshot.groups ≡ group_of gv.group w
    pub resources : lookup gv m.snapshot.resources ≡ resources_of gv w

  abbrev pub AreDistinct : List Workspace → Type 0
  AreDistinct [] = Unit
  AreDistinct (w ∷ ws) =
      All (λ (v : Workspace). eqb w.address v.address ≡ false) ws × AreDistinct ws

  merge-first_serving :
      (m : MergedSnapshot) (ws : List Workspace) (gv : GroupVersion)
      → IsFrom m gv none
      → AreDistinct ws
      → AreMaps ws
      → IsFrom (merge m ws) gv (first_serving ws gv.group)
  unfolding merge first_serving
  merge-first_serving m [] gv untaken distinct maps = untaken
  merge-first_serving m (w ∷ ws) gv untaken (others, distinct) (is_map, maps) =
      let groups = taken_groups w m gv.group in
      let owners = taken_owners w m gv.group in
      let resources = taken_resources w m gv is_map in
      let owner = untaken.owner in
      let group = untaken.group in
      let listed = untaken.resources in
      elim (Bool-cases (serves w gv.group)) [
        | inl taken_here ↦
            let (a, b, c) =
              settled (taken w m) ws gv w.address (ground arith) (ground arith) others maps in
            let e : some w ≡ (if serves w gv.group then some w else first_serving ws gv.group) =
              rw taken_here refl in
            subst (λ v. IsFrom (merge (taken w m) ws) gv v) e
              (record { owner = b; group = (ground arith); resources = (ground arith) })
        | inr elsewhere ↦
            let e : first_serving ws gv.group
                ≡ (if serves w gv.group then some w else first_serving ws gv.group) =
              rw elsewhere refl in
            subst (λ v. IsFrom (merge (taken w m) ws) gv v) e
              (merge-first_serving (taken w m) ws gv
                (record { owner = ground arith; group = ground arith; resources = ground arith })
                distinct maps)
      ]

  -- What the router shows of a group version is what the first workspace that serves its group has
  -- in its cache: that workspace owns the group, and gives its description and its resources. A
  -- group that no workspace serves is not shown. No two workspaces share an address.
  pub rebuild-first_serving :
      (generation revision : ℕ) (ws : List Workspace) (gv : GroupVersion)
      → AreDistinct ws
      → AreMaps ws
      → IsFrom (rebuild generation revision ws) gv (first_serving ws gv.group)
  unfolding rebuild lookup
  rebuild-first_serving generation revision ws gv distinct maps =
      merge-first_serving
        (record {
          generation = generation;
          revision = revision;
          snapshot = empty_snapshot;
          owners = [];
        })
        ws gv (record { owner = refl; group = refl; resources = refl }) distinct maps

  -- Merging leaves the two counters of a view alone.
  merge-stamp :
      (m : MergedSnapshot) (ws : List Workspace)
      → ((merge m ws).generation ≡ m.generation) × ((merge m ws).revision ≡ m.revision)
  unfolding merge
  merge-stamp m [] = (refl, refl)
  merge-stamp m (w ∷ ws) =
      let a = take_groups-stamp w.address m w.cache.snapshot.groups in
      let b =
        take_resources-stamp w.address (take_groups w.address m w.cache.snapshot.groups)
          w.cache.snapshot.resources in
      let c =
        merge-stamp
          (take_resources w.address (take_groups w.address m w.cache.snapshot.groups)
            w.cache.snapshot.resources)
          ws in
      (c.0 ∙ b.0 ∙ a.0, c.1 ∙ b.1 ∙ a.1)

  pub rebuild-stamp :
      (generation revision : ℕ) (ws : List Workspace)
      → ((rebuild generation revision ws).generation ≡ generation)
        × ((rebuild generation revision ws).revision ≡ revision)
  unfolding rebuild
  rebuild-stamp generation revision ws =
      merge-stamp
        (record {
          generation = generation;
          revision = revision;
          snapshot = empty_snapshot;
          owners = [];
        })
        ws
