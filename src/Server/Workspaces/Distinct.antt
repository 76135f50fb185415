-- ===== src/Server/Workspaces/Distinct.antt =====
-- What the workspaces of pkg/cmd/server/workspaces.go are when the file is accepted.
use spillway.Prelude.{
  ℕ, zero, suc, ◌<◌, ◌≡◌, refl, false, Option, none, some, List, [], ◌∷◌, Result, ok, ◌==◌, All,
  Bool-cases, Option-cases, Result-cases, inl, inr, arith, subst,
}
use spillway.Prelude.Text.{Text, text_key}
use spillway.Prelude.Maps.{Map}
use spillway.Prelude.Sets.{Sets}
use spillway.Kcp.Groups.{GroupMatcher, parse_group_matcher, exact}
use spillway.Apiserver.Manager.{BackendOptions, WorkspaceConfig}
use spillway.Prelude.Integers.{ℤ, pos, negsuc, is_negative, is_below_one, natural}
use spillway.Server.Workspaces.{
  or_default, Settings, validate_backend, backend_options, WorkspaceEntry, Defaults, LoadError,
  overridden, claim_groups, config_of, checked_config, claimed_config, load_entry,
}
use spillway.Server.Workspaces.Claims.{IsFree}

-- The requests have a time, the circuit a threshold, and its cooldown lasts.
abbrev pub IsUsable : BackendOptions → Type 0
IsUsable b = (0 < b.request_timeout) × (0 < b.failure_threshold) × (0 < b.circuit_cooldown)

below_one_lem : (z : ℤ) → is_below_one z ≡ false → 0 < natural z
below_one_lem (pos zero) h = absurd (cc (h))
below_one_lem (pos (suc n)) h = omega arith
below_one_lem (negsuc n) h = absurd (cc (h))

pub validate_backend-IsUsable :
    (s : Settings) → validate_backend s ≡ none → IsUsable (backend_options s)
unfolding validate_backend
validate_backend-IsUsable s h =
    let timeout : is_below_one s.request_timeout ≡ false = ground (arith, h) in
    let threshold : is_below_one s.failure_threshold ≡ false = ground (arith, h) in
    let cooldown : is_below_one s.circuit_cooldown ≡ false = ground (arith, h) in
    (
      below_one_lem s.request_timeout timeout,
      below_one_lem s.failure_threshold threshold,
      below_one_lem s.circuit_cooldown cooldown,
    )

natural_lem : (z : ℤ) → is_negative z ≡ false → pos (natural z) ≡ z
natural_lem (pos n) h = refl
natural_lem (negsuc n) h = absurd (cc (h))

below_one-negative : (z : ℤ) → is_below_one z ≡ false → is_negative z ≡ false
below_one-negative (pos n) h = refl
below_one-negative (negsuc n) h = absurd (cc (h))

-- The value of a setting: the entry's own, or the default where the entry has none.
abbrev pub Takes : {A : Type 0} → (own : Option A) (fallback value : A) → Type 0
Takes none fallback value = value ≡ fallback
Takes (some own) fallback value = value ≡ own

or_default-Takes :
    {A : Type 0} (own : Option A) (fallback : A) → Takes own fallback (or_default own fallback)
or_default-Takes none fallback = refl
or_default-Takes (some own) fallback = refl

-- Each setting of a workspace is that of its entry or the default.
abbrev pub HasSettings : Defaults → WorkspaceEntry → BackendOptions → Type 0
HasSettings defaults entry b =
    Takes entry.request_timeout defaults.settings.request_timeout (pos b.request_timeout)
    × Takes entry.retries defaults.settings.retries (pos b.retries)
    × Takes entry.failure_threshold defaults.settings.failure_threshold (pos b.failure_threshold)
    × Takes entry.circuit_cooldown defaults.settings.circuit_cooldown (pos b.circuit_cooldown)

Takes-natural :
    (own : Option ℤ) (fallback : ℤ)
    → is_negative (or_default own fallback) ≡ false
    → Takes own fallback (pos (natural (or_default own fallback)))
Takes-natural own fallback h =
    rw (natural_lem (or_default own fallback) h) (or_default-Takes own fallback)

HasSettings-overridden :
    (defaults : Defaults) (entry : WorkspaceEntry)
    → validate_backend (overridden defaults entry) ≡ none
    → HasSettings defaults entry (backend_options (overridden defaults entry))
unfolding validate_backend
HasSettings-overridden defaults entry h =
    let s = overridden defaults entry in
    let timeout : is_below_one s.request_timeout ≡ false = ground (arith, h) in
    let retries : is_negative s.retries ≡ false = ground (arith, h) in
    let threshold : is_below_one s.failure_threshold ≡ false = ground (arith, h) in
    let cooldown : is_below_one s.circuit_cooldown ≡ false = ground (arith, h) in
    (
      Takes-natural entry.request_timeout defaults.settings.request_timeout
          (below_one-negative s.request_timeout timeout),
      Takes-natural entry.retries defaults.settings.retries retries,
      Takes-natural entry.failure_threshold defaults.settings.failure_threshold
          (below_one-negative s.failure_threshold threshold),
      Takes-natural entry.circuit_cooldown defaults.settings.circuit_cooldown
          (below_one-negative s.circuit_cooldown cooldown),
    )

abbrev pub IsOther : (g h : Text) → Type 0
IsOther g h = (g == h) ≡ false

module _ ⦃S : Sets Text⦄ where
  -- A name and a kubeconfig are given, and the settings can be used.
  abbrev pub IsComplete : WorkspaceConfig → Type 0
  IsComplete c = ((c.name == []) ≡ false) × ((c.kubeconfig == []) ≡ false) × IsUsable c.backend

  -- Two workspaces with other names, and no exact group that both serve.
  abbrev pub AreApart : WorkspaceConfig → WorkspaceConfig → Type 0
  AreApart c d =
      ((c.name == d.name) ≡ false)
      × All (λ g. All (IsOther g) (exact d.api_groups)) (exact c.api_groups)

  abbrev pub ArePairwise :
      (WorkspaceConfig → WorkspaceConfig → Type 0) → List WorkspaceConfig → Type 0
  ArePairwise R [] = Unit
  ArePairwise R (c ∷ rest) = All (R c) rest × ArePairwise R rest

  abbrev pub IsNew : S.Set → Map Text Text → WorkspaceConfig → Type 0
  IsNew names claimed c = (S.has names c.name ≡ false) × All (IsFree claimed) (exact c.api_groups)

  -- A workspace is what its entry says, with the defaults where that is silent.
  abbrev pub IsOf : Defaults → WorkspaceEntry → WorkspaceConfig → Type 0
  IsOf defaults entry c =
      (c.name ≡ entry.name)
      × (c.kubeconfig ≡ entry.kubeconfig)
      × ((matcher : GroupMatcher) × (parse_group_matcher entry.api_groups ≡ ok matcher)
          × (c.api_groups ≡ some matcher))
      × HasSettings defaults entry c.backend
      × Takes entry.impersonate_users defaults.impersonate_users c.impersonate_users

  -- As many workspaces as entries, each that of the entry in its place.
  abbrev pub AreOf : Defaults → List WorkspaceEntry → List WorkspaceConfig → Type 0
  AreOf defaults [] [] = Unit
  AreOf defaults [] (c ∷ more) = ⊥
  AreOf defaults (entry ∷ rest) [] = ⊥
  AreOf defaults (entry ∷ rest) (c ∷ more) = IsOf defaults entry c × AreOf defaults rest more

  -- What one round of the loop answers.
  abbrev pub HasLoaded :
      Defaults → WorkspaceEntry → S.Set → Map Text Text → WorkspaceConfig × Map Text Text → Type 0
  HasLoaded defaults entry names claimed r =
      IsOf defaults entry r.0
      × (S.has names entry.name ≡ false)
      × IsComplete r.0
      × (claim_groups entry.name (exact r.0.api_groups) claimed ≡ ok r.1)

module _ ⦃S : Sets Text⦄ (defaults : Defaults) where
  HasLoaded-claimed_config :
      (entry : WorkspaceEntry) (names : S.Set) (matcher : GroupMatcher) (claimed : Map Text Text)
      (r : WorkspaceConfig × Map Text Text)
      → (entry.name == []) ≡ false
      → (entry.kubeconfig == []) ≡ false
      → S.has names entry.name ≡ false
      → parse_group_matcher entry.api_groups ≡ ok matcher
      → claimed_config defaults entry matcher claimed ≡ ok r
      → HasLoaded defaults entry names claimed r
  HasLoaded-claimed_config entry names matcher claimed r named located unlisted parsed h =
      elim (Result-cases (claim_groups entry.name (exact (some matcher)) claimed)) [
        | inr (reason, fails) ↦ absurd (cc (rw (fails, claimed_config) at h))
        | inl (taken, claims) ↦ elim (Option-cases (validate_backend (overridden defaults entry))) [
          | inr (reason, bad) ↦ absurd (cc (rw (claims, claimed_config, bad, checked_config) at h))
          | inl good ↦
              let e : ◌≡◌ {A = Result LoadError (WorkspaceConfig × Map Text Text)}
                  (ok (config_of defaults entry matcher, taken)) (ok r) =
                rw (claims, claimed_config, good, checked_config) at h in
              let same : (config_of defaults entry matcher, taken) ≡ r = cc (e) in
              subst (HasLoaded defaults entry names claimed) same (
                (
                  refl,
                  refl,
                  (matcher, parsed, refl),
                  HasSettings-overridden defaults entry good,
                  or_default-Takes entry.impersonate_users defaults.impersonate_users,
                ),
                unlisted,
                (named, located, validate_backend-IsUsable (overridden defaults entry) good),
                claims,
              )
        ]
      ]

  pub HasLoaded-load_entry :
      (index : ℕ) (entry : WorkspaceEntry) (names : S.Set) (claimed : Map Text Text)
      (r : WorkspaceConfig × Map Text Text)
      → load_entry defaults index entry names claimed ≡ ok r
      → HasLoaded defaults entry names claimed r
  unfolding load_entry
  HasLoaded-load_entry index entry names claimed r h = elim (Bool-cases (entry.name == [])) [
    | inl unnamed ↦ absurd (cc (rw (unnamed, load_entry) at h))
    | inr named ↦ elim (Bool-cases (S.has names entry.name)) [
      | inl twice ↦ absurd (cc (rw (named, twice, load_entry) at h))
      | inr unlisted ↦ elim (Bool-cases (entry.kubeconfig == [])) [
        | inl nowhere ↦ absurd (cc (rw (named, unlisted, nowhere, load_entry) at h))
        | inr located ↦ elim (Result-cases (parse_group_matcher entry.api_groups)) [
          | inr (reason, bad) ↦ absurd (cc (rw (named, unlisted, located, bad, load_entry) at h))
          | inl (matcher, parsed) ↦
              HasLoaded-claimed_config entry names matcher claimed r named located unlisted parsed
                (rw (named, unlisted, located, parsed, load_entry) at h)
        ]
      ]
    ]
  ]
