-- ===== src/Kcp/Discovery/Contents.antt =====
-- What the snapshot of pkg/kcp/discovery.go holds after a successful `refresh`.
use spillway.Prelude.{
  ◌≡◌, ◌⊎◌, inl, inr, ap, ◌∙◌, true, ◌&&◌, ◌||◌, Option, some, List, [], ◌∷◌, arith, ok, is_some,
  any, Any, ◌==◌, ==_iff, Option-cases, Result-cases, Bool-cases,
}
use spillway.Prelude.Text.{Text, text_key}
use spillway.Prelude.Maps.{lookup, insert, lookup-insert}
use spillway.Prelude.Sets.{Sets}
use spillway.Kcp.Api.{GroupVersion, group_version_key, ApiGroup, VersionInfo, ApiResource}
use spillway.Kcp.Groups.{GroupMatcher, matches}
use spillway.Kcp.Discovery.{
  Snapshot, empty_snapshot, DiscoveryClient, add_versions, add_groups, ResourceCache,
  refresh_snapshot,
}

module _ (parse_group_version : Text → Option GroupVersion) (client : DiscoveryClient) where
  -- A version's entry in the snapshot: what the client answers for it.
  abbrev pub ListedAs : GroupVersion → List ApiResource → VersionInfo → Type 0
  ListedAs gv listed version =
      (parse_group_version version.group_version ≡ some gv)
      × (client.server_resources version.group_version ≡ some listed)

  add_versions-cons :
      (next last : Snapshot) (v : VersionInfo) (vs : List VersionInfo)
      → add_versions parse_group_version client next (v ∷ vs) ≡ ok last
      → (gv : GroupVersion) × (listed : List ApiResource) × ListedAs gv listed v
        × (add_versions parse_group_version client
              (record next { resources = insert gv listed next.resources })
              vs
            ≡ ok last)
  unfolding add_versions
  add_versions-cons next last v vs h = elim (Option-cases (parse_group_version v.group_version)) [
    | inl bad ↦ ground arith
    | inr (gv, parsed) ↦ elim (Option-cases (client.server_resources v.group_version)) [
      | inl failed ↦ ground arith
      | inr (listed, answered) ↦
          (gv, listed, (parsed, answered), rw (parsed, answered, add_versions) at h)
    ]
  ]

  groups-add_versions :
      (next last : Snapshot) (vs : List VersionInfo)
      → add_versions parse_group_version client next vs ≡ ok last
      → last.groups ≡ next.groups
  unfolding add_versions
  groups-add_versions next last [] h = ground arith
  groups-add_versions next last (v ∷ vs) h =
      let (gv, listed, _, rest) = add_versions-cons next last v vs h in
      groups-add_versions (record next { resources = insert gv listed next.resources }) last vs rest

  resources-add_versions :
      (next last : Snapshot) (vs : List VersionInfo) (gv : GroupVersion) (listed : List ApiResource)
      → add_versions parse_group_version client next vs ≡ ok last
      → lookup gv last.resources ≡ some listed
      → Any (ListedAs gv listed) vs ⊎ (lookup gv next.resources ≡ some listed)
  unfolding add_versions
  resources-add_versions next last [] gv listed h found = inr (ground arith)
  resources-add_versions next last (v ∷ vs) gv listed h found =
      let (gv', listed', origin, rest) = add_versions-cons next last v vs h in
      let next' : Snapshot = record next { resources = insert gv' listed' next.resources } in
      elim (resources-add_versions next' last vs gv listed rest found) [
        | inl later ↦ inl (inr later)
        | inr old ↦ elim (Bool-cases (gv' == gv)) [
          | inl same ↦
              let put : some listed' ≡ some listed =
                ground (arith, lookup-insert gv' listed' next.resources gv, old, same) in
              inl (inl (origin.0 ∙ ap some ((==_iff gv' gv).0 same), origin.1 ∙ put))
          | inr other ↦
              inr (ground (arith, lookup-insert gv' listed' next.resources gv, old, other))
        ]
      ]

module _ ⦃S : Sets Text⦄ (parse_group_version : Text → Option GroupVersion)
    (client : DiscoveryClient) where
  -- The snapshot's entry for a group version is the answer for a version of a matched group.
  abbrev pub ComesFrom : Option GroupMatcher → GroupVersion → List ApiResource → ApiGroup → Type 0
  ComesFrom owned gv listed group =
      (matches owned group.name ≡ true)
      × Any (ListedAs parse_group_version client gv listed) group.versions

  add_groups-cons :
      (owned : Option GroupMatcher) (next last : Snapshot) (g : ApiGroup) (gs : List ApiGroup)
      → matches owned g.name ≡ true
      → add_groups parse_group_version client owned next (g ∷ gs) ≡ ok last
      → (filled : Snapshot) × (add_versions parse_group_version client
            (record next { groups = insert g.name g next.groups })
            g.versions
          ≡ ok filled)
        × (add_groups parse_group_version client owned filled gs ≡ ok last)
  unfolding add_groups
  add_groups-cons owned next last g gs taken h =
      elim (Result-cases (
        add_versions parse_group_version client
          (record next { groups = insert g.name g next.groups }) g.versions)) [
            | inl (filled, e) ↦ (filled, e, rw (taken, e, add_groups) at h)
            | inr (e, failed) ↦ ground arith
          ]

  is_some-groups-add_groups :
      (owned : Option GroupMatcher) (next last : Snapshot) (gs : List ApiGroup) (name : Text)
      → add_groups parse_group_version client owned next gs ≡ ok last
      → is_some (lookup name last.groups) ≡ (
          any (λ g. g.name == name && matches owned g.name) gs || is_some (lookup name next.groups))
  unfolding add_groups
  is_some-groups-add_groups owned next last [] name h = ground arith
  is_some-groups-add_groups owned next last (g ∷ gs) name h =
      elim (Bool-cases (matches owned g.name)) [
        | inl taken ↦
            let (filled, versions, rest) = add_groups-cons owned next last g gs taken h in
            ground (
              arith,
              taken,
              is_some-groups-add_groups owned filled last gs name rest,
              groups-add_versions parse_group_version client
                  (record next { groups = insert g.name g next.groups }) filled g.versions versions,
              lookup-insert g.name g next.groups name,
            )
        | inr skipped ↦ ground (
          arith,
          skipped,
          is_some-groups-add_groups owned next last gs name (rw (skipped, add_groups) at h),
        )
      ]

  resources-add_groups :
      (owned : Option GroupMatcher) (next last : Snapshot) (gs : List ApiGroup) (gv : GroupVersion)
      (listed : List ApiResource)
      → add_groups parse_group_version client owned next gs ≡ ok last
      → lookup gv last.resources ≡ some listed
      → Any (ComesFrom owned gv listed) gs ⊎ (lookup gv next.resources ≡ some listed)
  unfolding add_groups
  resources-add_groups owned next last [] gv listed h found = inr (ground arith)
  resources-add_groups owned next last (g ∷ gs) gv listed h found =
      elim (Bool-cases (matches owned g.name)) [
        | inl taken ↦
            let (filled, versions, rest) = add_groups-cons owned next last g gs taken h in
            elim (resources-add_groups owned filled last gs gv listed rest found) [
              | inl later ↦ inl (inr later)
              | inr old ↦
                  elim (resources-add_versions parse_group_version client
                    (record next { groups = insert g.name g next.groups }) filled g.versions gv
                    listed versions old) [
                      | inl here ↦ inl (inl (taken, here))
                      | inr before ↦ inr before
                    ]
            ]
        | inr skipped ↦
            elim (resources-add_groups owned next last gs gv listed (rw (skipped, add_groups) at h)
              found) [ inl later ↦ inl (inr later) | inr before ↦ inr before ]
      ]

  refresh_snapshot-ok :
      (c next : ResourceCache) (reported : List ApiGroup)
      → client.server_groups ≡ some reported
      → refresh_snapshot parse_group_version client c ≡ ok next
      → add_groups parse_group_version client c.owned empty_snapshot reported ≡ ok next.snapshot
  unfolding refresh_snapshot
  refresh_snapshot-ok c next reported answered h =
      elim (Result-cases (add_groups parse_group_version client c.owned empty_snapshot reported)) [
        | inl (last, filled) ↦ ground arith
        | inr (e, failed) ↦ ground arith
      ]

  -- After a successful refresh the snapshot has a group exactly if the workspace reported one of
  -- that name and the matcher covers it.
  pub groups-refresh_snapshot :
      (c next : ResourceCache) (reported : List ApiGroup) (name : Text)
      → client.server_groups ≡ some reported
      → refresh_snapshot parse_group_version client c ≡ ok next
      → is_some (lookup name next.snapshot.groups)
        ≡ any (λ g. g.name == name && matches c.owned g.name) reported
  unfolding lookup
  groups-refresh_snapshot c next reported name answered h = ground (
    arith,
    is_some-groups-add_groups c.owned empty_snapshot next.snapshot reported name
        (refresh_snapshot-ok c next reported answered h),
  )

  -- After a successful refresh each list of resources in the snapshot is the workspace's answer for
  -- a version, parsed to its key, of a reported group that the matcher covers.
  pub resources-refresh_snapshot :
      (c next : ResourceCache) (reported : List ApiGroup) (gv : GroupVersion)
      (listed : List ApiResource)
      → client.server_groups ≡ some reported
      → refresh_snapshot parse_group_version client c ≡ ok next
      → lookup gv next.snapshot.resources ≡ some listed
      → Any (ComesFrom c.owned gv listed) reported
  unfolding lookup
  resources-refresh_snapshot c next reported gv listed answered h found =
      elim (resources-add_groups c.owned empty_snapshot next.snapshot reported gv listed
        (refresh_snapshot-ok c next reported answered h) found) [ inl from ↦ from | inr empty ↦ cc ]
