-- ===== src/Server/Workspaces/Accepted.antt =====
-- The whole of a workspaces file that `loadWorkspaces` of pkg/cmd/server/workspaces.go accepts.
use spillway.Prelude.{
  ℕ, ◌+◌, ◌≡◌, ◌≢◌, ◌∙◌, refl, sym, false, ◌||◌, Option, none, some, List, [], ◌∷◌, Result, ok,
  ◌==◌, ==_iff, All, Bool-cases, Option-cases, Result-cases, inl, inr, arith, subst,
}
use spillway.Prelude.Text.{Text, text_key}
use spillway.Prelude.Maps.{Map, lookup}
use spillway.Prelude.Sets.{Sets}
use spillway.Kcp.Groups.{exact}
use spillway.Apiserver.Manager.{WorkspaceConfig}
use spillway.Server.Workspaces.{
  WorkspaceEntry, Defaults, LoadError, claim_groups, load_entry, load_entries, load_file,
  load_workspaces,
}
use spillway.Server.Workspaces.Claims.{IsFree, IsClaimed, kept_claim_groups, claim_groups-IsClaimed}
use spillway.Server.Workspaces.Distinct.{
  IsComplete, IsOther, AreApart, ArePairwise, IsNew, AreOf, HasLoaded, HasLoaded-load_entry,
}

All-map :
    {A : Type 0} (P Q : A → Type 0) → ((x : A) → P x → Q x) → (xs : List A) → All P xs → All Q xs
All-map P Q f [] _ = tt
All-map P Q f (x ∷ xs) (p, more) = (f x p, All-map P Q f xs more)

IsOther-free :
    (taken : Map Text Text) (name g h : Text)
    → IsClaimed taken name g
    → IsFree taken h
    → IsOther g h
IsOther-free taken name g h claimed free = elim (Bool-cases (g == h)) [
  | inl same ↦ absurd (cc (claimed, free, (==_iff g h).0 same))
  | inr other ↦ other
]

module _ ⦃S : Sets Text⦄ (defaults : Defaults) where
  -- What is new after a workspace was new before it, and is apart from it.
  IsNew-insert :
      (names : S.Set) (claimed taken : Map Text Text) (name : Text) (groups : List Text)
      (d : WorkspaceConfig)
      → claim_groups name groups claimed ≡ ok taken
      → IsNew (S.insert names name) taken d
      → IsNew names claimed d × ((name == d.name) ≡ false)
  IsNew-insert names claimed taken name groups d claims (unlisted, free) =
      let e : (name == d.name || S.has names d.name) ≡ false =
        sym (S.has-insert names name d.name) ∙ unlisted in
      (
        (
          ground (arith, e),
          All-map (IsFree taken) (IsFree claimed) (before) (exact d.api_groups) free,
        ),
        ground (arith, e),
      )
    where
      before : (g : Text) → IsFree taken g → IsFree claimed g
      before g free = elim (Option-cases (lookup g claimed)) [
        | inl none_there ↦ none_there
        | inr (o, known) ↦
            absurd (cc (kept_claim_groups name groups claimed taken g o claims known, free))
      ]

  AreApart-claimed :
      (taken : Map Text Text) (c d : WorkspaceConfig)
      → All (IsClaimed taken c.name) (exact c.api_groups)
      → (c.name == d.name) ≡ false
      → All (IsFree taken) (exact d.api_groups)
      → AreApart c d
  AreApart-claimed taken c d claimed other free = (
    other,
    All-map (IsClaimed taken c.name) (λ g. All (IsOther g) (exact d.api_groups))
        (λ g mine.
          All-map (IsFree taken) (IsOther g) (λ h free. IsOther-free taken c.name g h mine free)
            (exact d.api_groups) free)
        (exact c.api_groups) claimed,
  )

  -- What is known of the workspaces of the entries that are left.
  abbrev HasAll : List WorkspaceEntry → S.Set → Map Text Text → List WorkspaceConfig → Type 0
  HasAll entries names claimed configs =
      All (IsNew names claimed) configs
      × ArePairwise AreApart configs
      × All IsComplete configs
      × AreOf defaults entries configs

  HasAll-cons :
      (entry : WorkspaceEntry) (rest : List WorkspaceEntry) (names : S.Set)
      (claimed taken : Map Text Text) (c : WorkspaceConfig) (more : List WorkspaceConfig)
      → HasLoaded defaults entry names claimed (c, taken)
      → HasAll rest (S.insert names entry.name) taken more
      → HasAll (entry ∷ rest) names claimed (c ∷ more)
  HasAll-cons entry rest names claimed taken c more (of_entry, unlisted, complete, claims)
        (new, apart, completes, listed) =
      let same : c.name ≡ entry.name = of_entry.0 in
      let (free, held) =
        claim_groups-IsClaimed entry.name (exact c.api_groups) claimed taken claims in
      (
        (
          (rw same unlisted, free),
          All-map (IsNew (S.insert names entry.name) taken) (IsNew names claimed)
              (λ d n.
                (IsNew-insert names claimed taken entry.name (exact c.api_groups) d claims n).0)
              more new,
        ),
        (
          All-map (IsNew (S.insert names entry.name) taken) (AreApart c)
              (λ d n.
                AreApart-claimed taken c d (rw same held)
                  (rw same
                    (IsNew-insert names claimed taken entry.name (exact c.api_groups) d claims n).1)
                  n.1)
              more new,
          apart,
        ),
        (complete, completes),
        (of_entry, listed),
      )

  HasAll-load_entries :
      (index : ℕ) (entries : List WorkspaceEntry) (names : S.Set) (claimed : Map Text Text)
      (configs : List WorkspaceConfig)
      → load_entries defaults index entries names claimed ≡ ok configs
      → HasAll entries names claimed configs
  unfolding load_entries
  HasAll-load_entries index [] names claimed [] h = (tt, tt, tt, tt)
  HasAll-load_entries index [] names claimed (c ∷ more) h = absurd (cc (h))
  HasAll-load_entries index (entry ∷ rest) names claimed configs h =
      elim (Result-cases (load_entry defaults index entry names claimed)) [
        | inr (reason, bad) ↦ absurd (cc (rw (bad, load_entries) at h))
        | inl ((c, taken), loaded) ↦
            elim (Result-cases
              (load_entries defaults (index + 1) rest (S.insert names entry.name) taken)) [
                | inr (reason, bad) ↦ absurd (cc (rw (loaded, load_entries, bad) at h))
                | inl (more, later) ↦
                    let e : ◌≡◌ {A = Result LoadError (List WorkspaceConfig)} (ok (c ∷ more))
                        (ok configs) =
                      rw (loaded, load_entries, later) at h in
                    let same : c ∷ more ≡ configs = cc (e) in
                    subst (HasAll (entry ∷ rest) names claimed) same (
                      HasAll-cons entry rest names claimed taken c more
                        (HasLoaded-load_entry defaults index entry names claimed (c, taken) loaded)
                        (HasAll-load_entries (index + 1) rest (S.insert names entry.name) taken more
                          later))
              ]
      ]

  -- A file that is accepted lists at least one workspace, and the workspaces are its entries, in
  -- its order: the name, the kubeconfig and the matcher of the groups are the entry's, and each of
  -- the four settings of the backend and the impersonation is the entry's or, where it has none, the
  -- default. Each has a name and a kubeconfig, and a time for requests, a threshold and a cooldown
  -- that are positive; no two have one name, and no exact group is served by two.
  pub load_workspaces-ArePairwise :
      (read : Option Text) (parse : Text → Option (List WorkspaceEntry))
      (configs : List WorkspaceConfig)
      → load_workspaces defaults read parse ≡ ok configs
      → (raw : Text) × (entries : List WorkspaceEntry) × (read ≡ some raw)
        × (parse raw ≡ some entries)
        × (entries ≢ [])
        × AreOf defaults entries configs
        × All IsComplete configs
        × ArePairwise AreApart configs
  unfolding load_workspaces
  load_workspaces-ArePairwise none parse configs h = absurd (cc (h))
  load_workspaces-ArePairwise (some raw) parse configs h = elim (Option-cases (parse raw)) [
    | inl bad ↦ absurd (cc (rw (bad, load_file) at h))
    | inr ([], empty) ↦ absurd (cc (rw (empty, load_file) at h))
    | inr (entry ∷ rest, parsed) ↦
        let (_, apart, complete, listed) =
          HasAll-load_entries 0 (entry ∷ rest) S.empty [] configs (rw (parsed, load_file) at h) in
        (raw, entry ∷ rest, refl, parsed, (λ e. absurd (cc (e))), listed, complete, apart)
  ]
