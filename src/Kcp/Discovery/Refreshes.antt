-- ===== src/Kcp/Discovery/Refreshes.antt =====
-- The cache of pkg/kcp/discovery.go over many refreshes, failed ones among them.
use spillway.Prelude.{
  ◌+◌, ◌%◌, ◌^◌, ◌<◌, ◌≡◌, inl, inr, refl, sym, true, false, ◌&&◌, Option, some, List, [], ◌∷◌,
  arith, ok, is_some, is_ok, if◌then◌else◌, any, ◌==◌, ==_iff, ap, ◌∙◌, Option-cases, Result-cases,
  Bool-cases,
}
use spillway.Prelude.Text.{Text, text_key}
use spillway.Prelude.Maps.{lookup}
use spillway.Prelude.Sets.{Sets}
use spillway.Kcp.Api.{GroupVersion, ApiGroup}
use spillway.Kcp.Groups.{GroupMatcher, matches}
use spillway.Kcp.Discovery.{
  Snapshot, empty_snapshot, DiscoveryClient, ResourceCache, new_resource_cache, refresh_snapshot,
  refresh, after_refresh, run, Wakeup, cancelled, tick, changed, next_generation, publish_series,
  add_groups,
}
use spillway.Kcp.Discovery.Contents.{groups-refresh_snapshot}

module _ ⦃S : Sets Text⦄ where
  -- Nothing is served that the matcher does not cover, and nothing before the first success.
  pub record IsServing (c : ResourceCache) : Type 0 where
    pub covered :
        (name : Text) → is_some (lookup name c.snapshot.groups) ≡ true → matches c.owned name ≡ true
    pub unsynced : c.synced ≡ false → c.snapshot ≡ empty_snapshot

  IsServing-new_resource_cache :
      (workspace : Text) (owned : Option GroupMatcher)
      → IsServing (new_resource_cache workspace owned)
  unfolding new_resource_cache lookup
  IsServing-new_resource_cache workspace owned = record {
    covered = λ name h. cc;
    unsynced = λ h. refl;
  }

  -- The groups that pass the matcher bear names that it covers.
  any-covered :
      (owned : Option GroupMatcher) (name : Text) (gs : List ApiGroup)
      → any (λ (g : ApiGroup). g.name == name && matches owned g.name) gs ≡ true
      → matches owned name ≡ true
  any-covered owned name [] h = cc
  any-covered owned name (g ∷ gs) h = elim (Bool-cases (g.name == name && matches owned g.name)) [
    | inr other ↦ any-covered owned name gs (ground arith)
    | inl this ↦
        let same : (g.name == name) ≡ true = ground arith in
        let taken : matches owned g.name ≡ true = ground arith in
        rw (← (==_iff g.name name).0 same) taken
  ]

  -- The fields that the writes of the metrics leave alone.
  publish_series-keeps :
      (c : ResourceCache)
      → ((publish_series c).0.generation ≡ c.generation)
        × ((publish_series c).0.snapshot ≡ c.snapshot)
        × ((publish_series c).0.owned ≡ c.owned)
        × ((publish_series c).0.synced ≡ c.synced)
  unfolding publish_series
  publish_series-keeps c = (refl, refl, refl, refl)

  module _ (parse_group_version : Text → Option GroupVersion) where
    abbrev Refreshed : DiscoveryClient → ResourceCache → ResourceCache → Type 0
    Refreshed client c next =
        (snapshot : Snapshot) × (reported : List ApiGroup) × (client.server_groups ≡ some reported)
        × (next ≡ record c {
          snapshot = snapshot;
          synced = true;
          generation = next_generation c.generation;
        })

    refresh_snapshot-Refreshed :
        (client : DiscoveryClient) (c next : ResourceCache)
        → refresh_snapshot parse_group_version client c ≡ ok next
        → Refreshed client c next
    unfolding refresh_snapshot
    refresh_snapshot-Refreshed client c next h = elim (Option-cases client.server_groups) [
      | inl none' ↦ ground arith
      | inr (reported, answered) ↦
          elim (Result-cases
            (add_groups parse_group_version client c.owned empty_snapshot reported)) [
              | inl (snapshot, filled) ↦ (snapshot, reported, answered, ground arith)
              | inr (e, failed) ↦ ground arith
            ]
    ]

    pub generation-refresh :
        (client : DiscoveryClient) (c : ResourceCache)
        → (refresh parse_group_version client c).1.generation ≡ (
            if is_ok (refresh parse_group_version client c).0
            then next_generation c.generation
            else c.generation)
    unfolding refresh
    generation-refresh client c =
        elim (Result-cases (refresh_snapshot parse_group_version client c)) [
          | inr (e, failed) ↦ rw (failed, after_refresh) refl
          | inl (next, done) ↦
              let (_, _, _, same) = refresh_snapshot-Refreshed client c next done in
              rw (done, after_refresh)
                ((publish_series-keeps next).0 ∙ ap (λ (d : ResourceCache). d.generation) same)
        ]

    refresh-IsServing :
        (client : DiscoveryClient) (c : ResourceCache)
        → IsServing c
        → IsServing (refresh parse_group_version client c).1
    unfolding refresh
    refresh-IsServing client c v =
        elim (Result-cases (refresh_snapshot parse_group_version client c)) [
          | inr (e, failed) ↦ rw (failed, after_refresh) v
          | inl (next, done) ↦
              let (snapshot, reported, answered, same) =
                refresh_snapshot-Refreshed client c next done in
              rw (done, after_refresh)
                (record {
                  covered = λ name h. rw (ap (λ (d : ResourceCache). d.owned) same) (
                      any-covered c.owned name reported (
                        sym (
                          groups-refresh_snapshot parse_group_version client c next reported name
                            answered done)
                        ∙ h));
                  unsynced = λ h. cc (ap (λ (d : ResourceCache). d.synced) same);
                })
        ]

    generation-lt :
        (client : DiscoveryClient) (c : ResourceCache)
        → c.generation < 2 ^ 64
        → (refresh parse_group_version client c).1.generation < 2 ^ 64
    generation-lt client c h = ground (arith, generation-refresh client c)

    -- After any wakeups of `Run` the generation is the one before plus the calls of `onChange`,
    -- modulo 2^64: each successful refresh advances it once and is announced once.
    pub generation-run :
        (c : ResourceCache) (ws : List Wakeup)
        → c.generation < 2 ^ 64
        → (run parse_group_version c ws).0.generation
          ≡ (c.generation + (run parse_group_version c ws).1) % 2 ^ 64
    unfolding run
    generation-run c [] h = omega arith
    generation-run c (cancelled ∷ rest) h = omega arith
    generation-run c (changed true client ∷ rest) h = omega arith
    generation-run c (changed false client ∷ rest) h = ground (
      arith,
      generation-refresh client c,
      generation-run (refresh parse_group_version client c).1 rest (generation-lt client c h),
    )
    generation-run c (tick client ∷ rest) h = ground (
      arith,
      generation-refresh client c,
      generation-run (refresh parse_group_version client c).1 rest (generation-lt client c h),
    )

    run_keeps-IsServing :
        (c : ResourceCache) (ws : List Wakeup)
        → IsServing c
        → IsServing (run parse_group_version c ws).0
    unfolding run
    run_keeps-IsServing c [] v = v
    run_keeps-IsServing c (cancelled ∷ rest) v = v
    run_keeps-IsServing c (changed true client ∷ rest) v = v
    run_keeps-IsServing c (changed false client ∷ rest) v =
        run_keeps-IsServing (refresh parse_group_version client c).1 rest
          (refresh-IsServing client c v)
    run_keeps-IsServing c (tick client ∷ rest) v =
        run_keeps-IsServing (refresh parse_group_version client c).1 rest
          (refresh-IsServing client c v)

    -- A new cache, after any wakeups of `Run` and whatever the workspace answered in them, serves
    -- no group that the matcher does not cover, and serves nothing while it has not synced.
    pub run-IsServing :
        (workspace : Text) (owned : Option GroupMatcher) (ws : List Wakeup)
        → IsServing (run parse_group_version (new_resource_cache workspace owned) ws).0
    run-IsServing workspace owned ws =
        run_keeps-IsServing (new_resource_cache workspace owned) ws
          (IsServing-new_resource_cache workspace owned)

    -- A refresh that fails leaves the whole cache as it was; one that succeeds marks it synced.
    pub refresh_or_keep :
        (client : DiscoveryClient) (c : ResourceCache)
        → (if is_ok (refresh parse_group_version client c).0
            then (refresh parse_group_version client c).1.synced ≡ true
            else (refresh parse_group_version client c).1 ≡ c)
    unfolding refresh
    refresh_or_keep client c = elim (Result-cases (refresh_snapshot parse_group_version client c)) [
      | inr (e, failed) ↦ rw (failed, after_refresh) refl
      | inl (next, done) ↦
          let (_, _, _, same) = refresh_snapshot-Refreshed client c next done in
          rw (done, after_refresh) (ap (λ (d : ResourceCache). d.synced) same)
    ]
