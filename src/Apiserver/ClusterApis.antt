-- ===== src/Apiserver/ClusterApis.antt =====
-- What the workload cluster serves without spillway: pkg/apiserver/clusterapis.go, and the
-- APIService objects it reads. Discovery and the listing are arguments: what they answer, and no
-- answer for an error.
pub mod Foreign
use spillway.Prelude.{
  ℕ, Bool, false, ◌&&◌, Option, none, some, List, [], ◌∷◌, ◌++◌, if◌then◌else◌, Result, ok, err,
  Comparable, ◌==◌,
}
use spillway.Prelude.Integers.{ℤ}
use spillway.Prelude.Text.{Text, bytes, text_key}
use spillway.Prelude.Maps.{Map, lookup, insert}
use spillway.Prelude.Sets.{Sets}
use spillway.Kcp.Api.{GroupVersion, group_version_key, ApiGroup, VersionInfo}

-- apiregistrationv1.ServiceReference
pub record ServiceReference : Type 0 where
  pub name : Text
  pub namespace : Text
  pub port : Option ℤ

pub record ApiServiceSpec : Type 0 where
  pub service : Option ServiceReference
  pub group : Text
  pub version : Text
  pub insecure_skip_tls_verify : Bool
  pub ca_bundle : Option Text
  pub group_priority_minimum : ℕ
  pub version_priority : ℕ

-- A nil map of labels is an empty one, which reads the same; annotations stand for the metadata
-- that spillway does not set.
pub record ApiService : Type 0 where
  pub name : Text
  pub labels : Map Text Text
  pub annotations : Map Text Text
  pub spec : ApiServiceSpec

pub data ClusterError : Type 0 where
  listing_cluster_groups listing_services : ClusterError

-- The name of the APIService of a group version, gv.Version + "." + gv.Group.
abbrev pub service_name : GroupVersion → Text
service_name gv = gv.version ++ bytes "." ++ gv.group

-- c.ours(service), with none for a nil service
abbrev pub ours : ServiceReference → Option ApiService → Bool
ours own none = false
ours own (some service) = elim service.spec.service [
  | none ↦ false
  | some reference ↦ reference.name == own.name && reference.namespace == own.namespace
]

-- The loop that fills `routing`.
unfoldable pub routing_of : Map Text ApiService → List ApiService → Map Text ApiService
routing_of routing [] = routing
routing_of routing (service ∷ rest) = routing_of (insert service.name service routing) rest

module _ ⦃G : Sets GroupVersion⦄ where
  -- The inner loop of `foreign`, over the versions of a group.
  unfoldable pub foreign_versions :
      ServiceReference → Map Text ApiService → (group : Text) → G.Set → List VersionInfo → G.Set
  foreign_versions own routing group found [] = found
  foreign_versions own routing group found (version ∷ rest) =
      let gv : GroupVersion = record { group = group; version = version.version } in
      foreign_versions own routing group
        (if ours own (lookup (service_name gv) routing) then found else G.insert found gv) rest

  unfoldable pub foreign_groups :
      ServiceReference → Map Text ApiService → G.Set → List ApiGroup → G.Set
  unfolding foreign_versions
  foreign_groups own routing found [] = found
  foreign_groups own routing found (group ∷ rest) =
      foreign_groups own routing (foreign_versions own routing group.name found group.versions) rest

  -- c.foreign(), with none for a nil c
  unfoldable pub foreign :
      Option ServiceReference
      → Option (List ApiGroup)
      → Option (List ApiService)
      → Result ClusterError G.Set
  foreign none groups services = ok G.empty
  foreign (some own) none services = err listing_cluster_groups
  foreign (some own) (some groups) none = err listing_services
  foreign (some own) (some groups) (some services) =
      ok (foreign_groups own (routing_of [] services) G.empty groups)
