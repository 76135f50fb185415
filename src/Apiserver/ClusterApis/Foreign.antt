-- ===== src/Apiserver/ClusterApis/Foreign.antt =====
-- Which group versions pkg/apiserver/clusterapis.go finds to be the cluster's own.
use spillway.Prelude.{
  ◌≡◌, refl, Bool, ◌&&◌, ◌||◌, not, some, List, [], ◌∷◌, if◌then◌else◌, arith, any, ok, ◌==◌,
  ==_iff, Bool-cases, inl, inr, ap, ◌∙◌, sym,
}
use spillway.Prelude.Text.{Text, text_key}
use spillway.Prelude.Maps.{Map, lookup}
use spillway.Prelude.Sets.{Sets}
use spillway.Kcp.Api.{GroupVersion, group_version_key, group_version_eq, ApiGroup, VersionInfo}
use spillway.Apiserver.ClusterApis.{
  ServiceReference, ApiService, service_name, ours, foreign_versions, foreign_groups, foreign,
  routing_of,
}

-- Whether discovery lists a version among those of a group, and a group version at all.
abbrev pub lists_version : Text → List VersionInfo → Bool
lists_version version versions = any (λ (v : VersionInfo). v.version == version) versions

abbrev pub reported : GroupVersion → List ApiGroup → Bool
reported gv groups =
    any (λ (g : ApiGroup). g.name == gv.group && lists_version gv.version g.versions) groups

module _ ⦃G : Sets GroupVersion⦄ (own : ServiceReference) (routing : Map Text ApiService) where
  abbrev version_of : Text → Text → GroupVersion
  version_of group version = record { group = group; version = version }

  abbrev routed : GroupVersion → Bool
  routed gv = ours own (lookup (service_name gv) routing)

  gv-same :
      (group version : Text) (gv : GroupVersion)
      → (version_of group version == gv) ≡ (group == gv.group && version == gv.version)
  unfolding group_version_eq
  gv-same group version gv = refl

  has-foreign_versions :
      (group : Text) (found : G.Set) (versions : List VersionInfo) (gv : GroupVersion)
      → G.has (foreign_versions own routing group found versions) gv ≡ (
          G.has found gv
          || (group == gv.group && lists_version gv.version versions && not (routed gv)))
  unfolding foreign_versions
  has-foreign_versions group found [] gv = ground arith
  has-foreign_versions group found (v ∷ rest) gv =
      let this = version_of group v.version in
      let grown =
        (if ours own (lookup (service_name this) routing) then found else G.insert found this) in
      elim (Bool-cases (this == gv)) [
        | inl same ↦ ground (
          arith,
          same,
          has-foreign_versions group grown rest gv,
          G.has-insert found this gv,
          gv-same group v.version gv,
          ap (λ x. ours own (lookup (service_name x) routing)) ((==_iff this gv).0 same),
        )
        | inr other ↦ ground (
          arith,
          other,
          has-foreign_versions group grown rest gv,
          G.has-insert found this gv,
          gv-same group v.version gv,
        )
      ]

  has-foreign_groups :
      (found : G.Set) (groups : List ApiGroup) (gv : GroupVersion)
      → G.has (foreign_groups own routing found groups) gv
        ≡ (G.has found gv || (reported gv groups && not (routed gv)))
  unfolding foreign_groups
  has-foreign_groups found [] gv = ground arith
  has-foreign_groups found (g ∷ rest) gv = ground (
    arith,
    has-foreign_groups (foreign_versions own routing g.name found g.versions) rest gv,
    has-foreign_versions g.name found g.versions gv,
  )

module _ ⦃G : Sets GroupVersion⦄ where
  -- A group version is the cluster's own exactly when its discovery reports it and no APIService of
  -- its name routes it to spillway.
  pub has-foreign :
      (own : ServiceReference) (groups : List ApiGroup) (services : List ApiService) (found : G.Set)
      (gv : GroupVersion)
      → foreign (some own) (some groups) (some services) ≡ ok found
      → G.has found gv
        ≡ (reported gv groups && not (ours own (lookup (service_name gv) (routing_of [] services))))
  unfolding foreign
  has-foreign own groups services found gv h =
      let same : foreign_groups own (routing_of [] services) G.empty groups ≡ found =
        ground (arith, h) in
      ap (λ s. G.has s gv) (sym same)
      ∙ ground
          (arith, has-foreign_groups own (routing_of [] services) G.empty groups gv, G.has-empty gv)
