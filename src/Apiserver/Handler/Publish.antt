-- ===== src/Apiserver/Handler/Publish.antt =====
-- `publish` of pkg/apiserver/discovery.go, and the aggregated form of a version. The document /apis
-- and the aggregated one are the maps that the managers of the API server keep.
use spillway.Prelude.{ℕ, Bool, ◌&&◌, Option, none, some, List, [], ◌∷◌, ◌++◌, if◌then◌else◌, ◌==◌}
use spillway.Prelude.Text.{Text, text_key}
use spillway.Prelude.Maps.{Map, lookup, insert}
use spillway.Prelude.Sets.{Sets}
use spillway.Kcp.Api.{GroupVersion, group_version_key, VersionInfo, ApiGroup, ApiResource}
use spillway.Kcp.Discovery.{Snapshot}
use spillway.Apiserver.Handler.{cut_slash}

pub data Scope : Type 0 where
  cluster namespaced : Scope

pub record ResponseKind : Type 0 where
  pub group : Text
  pub version : Text
  pub kind : Text

pub record SubresourceDiscovery : Type 0 where
  pub subresource : Text
  pub response_kind : ResponseKind
  pub verbs : List Text

pub record ResourceDiscovery : Type 0 where
  pub resource : Text
  pub response_kind : ResponseKind
  pub scope : Scope
  pub singular_resource : Text
  pub verbs : List Text
  pub short_names : List Text
  pub categories : List Text
  pub subresources : List SubresourceDiscovery

pub record VersionDiscovery : Type 0 where
  pub version : Text
  pub resources : List ResourceDiscovery

-- responseKind(gv, resource)
abbrev pub response_kind : GroupVersion → ApiResource → ResponseKind
response_kind gv resource =
    if resource.group == [] && resource.version == []
    then record { group = gv.group; version = gv.version; kind = resource.kind }
    else record { group = resource.group; version = resource.version; kind = resource.kind }

-- What the loop over the resources has gathered: the maps parents and subresources, and the order.
pub record Gathered : Type 0 where
  pub parents : Map Text ResourceDiscovery
  pub subresources : Map Text (List SubresourceDiscovery)
  pub order : List Text

abbrev pub parent_of : GroupVersion → ApiResource → ResourceDiscovery
parent_of gv resource = record {
  resource = (cut_slash resource.name).before;
  response_kind = response_kind gv resource;
  scope = if resource.namespaced then namespaced else cluster;
  singular_resource = resource.singular_name;
  verbs = resource.verbs;
  short_names = resource.short_names;
  categories = resource.categories;
  subresources = [];
}

abbrev pub subresource_of : GroupVersion → ApiResource → SubresourceDiscovery
subresource_of gv resource = record {
  subresource = (cut_slash resource.name).after;
  response_kind = response_kind gv resource;
  verbs = resource.verbs;
}

-- The value of a missing key is nil.
abbrev pub list_of_missing : {V : Type 0} → Option (List V) → List V
list_of_missing none = []
list_of_missing (some values) = values

abbrev pub list_at : Text → Map Text (List SubresourceDiscovery) → List SubresourceDiscovery
list_at name m = list_of_missing (lookup name m)

-- One round of the loop.
unfoldable pub gather : GroupVersion → ApiResource → Gathered → Gathered
gather gv resource g =
    let name = (cut_slash resource.name).before in
    if (cut_slash resource.name).found
    then record g {
      subresources =
          insert name (list_at name g.subresources ++ (subresource_of gv resource ∷ []))
            g.subresources;
    }
    else record g {
      parents = insert name (parent_of gv resource) g.parents;
      order = g.order ++ (name ∷ []);
    }

unfoldable pub gather_all : GroupVersion → List ApiResource → Gathered → Gathered
gather_all gv [] g = g
gather_all gv (resource ∷ rest) g = gather_all gv rest (gather gv resource g)

-- The second loop; each name of the order has a parent.
unfoldable pub discovered : Gathered → List Text → List ResourceDiscovery
discovered g [] = []
discovered g (name ∷ rest) =
    let more = discovered g rest in
    elim (lookup name g.parents) [
      | none ↦ more
      | some parent ↦ record parent { subresources = list_at name g.subresources } ∷ more
    ]

-- aggregatedVersion(gv, resources)
unfoldable pub aggregated_version : GroupVersion → List ApiResource → VersionDiscovery
aggregated_version gv resources =
    let g = gather_all gv resources (record { parents = []; subresources = []; order = [] }) in
    record { version = gv.version; resources = discovered g g.order }

-- The calls of the two discovery managers.
pub data Call : Type 0 where
  add_group : ApiGroup → Call
  remove_group aggregated_remove_group : (group : Text) → Call
  add_group_version : (group : Text) → VersionDiscovery → Call
  set_group_version_priority : GroupVersion → (group_priority version_priority : ℕ) → Call

abbrev pub discovery_group_priority : ℕ
discovery_group_priority = 1000

abbrev pub discovery_version_priority : ℕ
discovery_version_priority = 15

-- The withdrawal of the groups that are gone.
unfoldable pub withdraw : (aggregated : Bool) → List Text → List Call
withdraw aggregated [] = []
withdraw aggregated (group ∷ rest) =
    remove_group group
    ∷ ((if aggregated then aggregated_remove_group group ∷ [] else []) ++ withdraw aggregated rest)

module _ (parse_group_version : Text → Option GroupVersion)
    (resources : Map GroupVersion (List ApiResource)) where
  -- The calls for the versions of one group; a malformed one is skipped.
  unfoldable pub add_versions : (group : Text) → List VersionInfo → List Call
  add_versions group [] = []
  add_versions group (version ∷ rest) =
      let more = add_versions group rest in
      elim (parse_group_version version.group_version) [
        | none ↦ more
        | some gv ↦
            add_group_version group (aggregated_version gv (list_of_missing (lookup gv resources)))
            ∷ (set_group_version_priority gv discovery_group_priority discovery_version_priority
                ∷ more)
      ]

  unfoldable pub add_groups_of : (aggregated : Bool) → Map Text ApiGroup → List Call
  add_groups_of aggregated [] = []
  add_groups_of aggregated ((group, api_group) ∷ rest) =
      add_group api_group
      ∷ ((if aggregated then add_versions group api_group.versions else [])
          ++ add_groups_of aggregated rest)

module _ ⦃S : Sets Text⦄ where
  unfoldable pub keys_of : Map Text ApiGroup → S.Set
  keys_of [] = S.empty
  keys_of ((group, _) ∷ rest) = S.insert (keys_of rest) group

  -- h.publish(), with what was published before and whether there is an aggregated document
  unfoldable pub publish :
      (Text → Option GroupVersion) → (aggregated : Bool) → Snapshot → S.Set → S.Set × List Call
  publish parse_group_version aggregated snapshot published =
      let current = keys_of snapshot.groups in
      (
        current,
        withdraw aggregated (S.list (S.difference published current))
            ++ add_groups_of parse_group_version snapshot.resources aggregated snapshot.groups,
      )
