-- ===== src/Apiserver/Router/Takes.antt =====
-- The two inner loops of `current` in pkg/apiserver/router.go: what they add to a view and what
-- they leave alone.
use spillway.Prelude.{
  ℕ, ◌≡◌, refl, ◌&&◌, not, some, List, [], ◌∷◌, arith, if◌then◌else◌, is_some, ◌==◌, ==_iff,
  Bool-cases, Option-cases, inl, inr, ap,
}
use spillway.Prelude.Text.{Text, text_key}
use spillway.Prelude.Maps.{Map, IsMap, lookup, insert, lookup-insert}
use spillway.Kcp.Api.{GroupVersion, group_version_key, ApiGroup, ApiResource}
use spillway.Apiserver.Router.{MergedSnapshot, take_groups, take_resources, owned_by}

pub groups-take_groups :
    (a : ℕ) (m : MergedSnapshot) (gs : Map Text ApiGroup) (g : Text)
    → lookup g (take_groups a m gs).snapshot.groups
      ≡ (if is_some (lookup g m.snapshot.groups) then lookup g m.snapshot.groups else lookup g gs)
unfolding take_groups lookup
groups-take_groups a m [] g = elim (Option-cases (lookup g m.snapshot.groups)) [
  | inl out ↦ rw out refl
  | inr (v, kept) ↦ rw kept refl
]
groups-take_groups a m ((k, v) ∷ rest) g = ground (
  arith,
  groups-take_groups a
      (if is_some (lookup k m.snapshot.groups) then m else (record m {
        snapshot = record m.snapshot { groups = insert k v m.snapshot.groups };
        owners = insert k a m.owners;
      }))
      rest g,
  lookup-insert k v m.snapshot.groups g,
  ==_iff k g,
)

pub owners-take_groups :
    (a : ℕ) (m : MergedSnapshot) (gs : Map Text ApiGroup) (g : Text)
    → lookup g (take_groups a m gs).owners ≡ (
        if is_some (lookup g m.snapshot.groups)
        then lookup g m.owners
        else if is_some (lookup g gs)
        then some a
        else lookup g m.owners)
unfolding take_groups lookup
owners-take_groups a m [] g = elim (Bool-cases (is_some (lookup g m.snapshot.groups))) [
  | inl kept ↦ rw kept refl
  | inr out ↦ rw out refl
]
owners-take_groups a m ((k, v) ∷ rest) g = ground (
  arith,
  owners-take_groups a
      (if is_some (lookup k m.snapshot.groups) then m else (record m {
        snapshot = record m.snapshot { groups = insert k v m.snapshot.groups };
        owners = insert k a m.owners;
      }))
      rest g,
  lookup-insert k v m.snapshot.groups g,
  lookup-insert k a m.owners g,
  ==_iff k g,
)

pub resources-take_groups :
    (a : ℕ) (m : MergedSnapshot) (gs : Map Text ApiGroup)
    → (take_groups a m gs).snapshot.resources ≡ m.snapshot.resources
unfolding take_groups
resources-take_groups a m [] = refl
resources-take_groups a m ((k, v) ∷ rest) = ground (
  arith,
  resources-take_groups a
      (if is_some (lookup k m.snapshot.groups) then m else (record m {
        snapshot = record m.snapshot { groups = insert k v m.snapshot.groups };
        owners = insert k a m.owners;
      }))
      rest,
)

abbrev put : GroupVersion → List ApiResource → MergedSnapshot → MergedSnapshot
put gv listed m = record m {
  snapshot = record m.snapshot { resources = insert gv listed m.snapshot.resources };
}

-- Taking resources changes neither the groups nor the owners.
pub take_resources-keeps :
    (a : ℕ) (m : MergedSnapshot) (rs : Map GroupVersion (List ApiResource))
    → ((take_resources a m rs).snapshot.groups ≡ m.snapshot.groups)
      × ((take_resources a m rs).owners ≡ m.owners)
unfolding take_resources
take_resources-keeps a m [] = (refl, refl)
take_resources-keeps a m ((k, v) ∷ rest) = ground (
  arith,
  take_resources-keeps a (if not (owned_by a (lookup k.group m.owners)) then m else put k v m) rest,
)

pub resources-take_resources :
    (a : ℕ) (m : MergedSnapshot) (rs : Map GroupVersion (List ApiResource)) (gv : GroupVersion)
    → IsMap rs
    → lookup gv (take_resources a m rs).snapshot.resources ≡ (
        if owned_by a (lookup gv.group m.owners) && is_some (lookup gv rs)
        then lookup gv rs
        else lookup gv m.snapshot.resources)
unfolding take_resources lookup
resources-take_resources a m [] gv h = elim (Bool-cases (owned_by a (lookup gv.group m.owners))) [
  | inl mine ↦ rw mine refl
  | inr other ↦ rw other refl
]
resources-take_resources a m ((k, v) ∷ rest) gv (only, h) = elim (Bool-cases (k == gv)) [
  | inl same ↦
      let e = (==_iff k gv).0 same in
      ground (
        arith,
        resources-take_resources a
            (if not (owned_by a (lookup k.group m.owners)) then m else put k v m) rest gv h,
        lookup-insert k v m.snapshot.resources gv,
        ap (λ (x : GroupVersion). x.group) e,
        ap (λ x. lookup x rest) e,
        same,
      )
  | inr different ↦ ground (
    arith,
    resources-take_resources a (if not (owned_by a (lookup k.group m.owners)) then m else put k v m)
        rest gv h,
    lookup-insert k v m.snapshot.resources gv,
    different,
  )
]

-- Merging leaves the two counters of a view alone.
pub take_groups-stamp :
    (a : ℕ) (m : MergedSnapshot) (gs : Map Text ApiGroup)
    → ((take_groups a m gs).generation ≡ m.generation)
      × ((take_groups a m gs).revision ≡ m.revision)
unfolding take_groups
take_groups-stamp a m [] = (refl, refl)
take_groups-stamp a m ((k, v) ∷ rest) = ground (
  arith,
  take_groups-stamp a
      (if is_some (lookup k m.snapshot.groups) then m else (record m {
        snapshot = record m.snapshot { groups = insert k v m.snapshot.groups };
        owners = insert k a m.owners;
      }))
      rest,
)

pub take_resources-stamp :
    (a : ℕ) (m : MergedSnapshot) (rs : Map GroupVersion (List ApiResource))
    → ((take_resources a m rs).generation ≡ m.generation)
      × ((take_resources a m rs).revision ≡ m.revision)
unfolding take_resources
take_resources-stamp a m [] = (refl, refl)
take_resources-stamp a m ((k, v) ∷ rest) = ground (
  arith,
  take_resources-stamp a
      (if not (owned_by a (lookup k.group m.owners)) then m else (record m {
        snapshot = record m.snapshot { resources = insert k v m.snapshot.resources };
      }))
      rest,
)
