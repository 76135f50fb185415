-- ===== src/Server/Workspaces.antt =====
-- The workspaces file of pkg/cmd/server/workspaces.go. Reading the file and the strict parser of
-- YAML are arguments. A setting is an integer until it is validated.
pub mod Claims
pub mod Distinct
pub mod Accepted
use spillway.Prelude.{
  ℕ, zero, suc, ◌+◌, Bool, true, false, Option, none, some, List, [], ◌∷◌, if◌then◌else◌, Result,
  ok, err, ◌>>=◌, Comparable, ◌==◌,
}
use spillway.Prelude.Integers.{ℤ, is_negative, is_below_one, natural}
use spillway.Prelude.Text.{Text, bytes, text_key}
use spillway.Prelude.Maps.{Map, lookup, insert}
use spillway.Prelude.Sets.{Sets}
use spillway.Kcp.Groups.{GroupMatcher, GroupError, parse_group_matcher, exact}
use spillway.Apiserver.Manager.{BackendOptions, WorkspaceConfig}

-- apiserver.BackendOptions as they are configured
pub record Settings : Type 0 where
  pub request_timeout : ℤ
  pub retries : ℤ
  pub failure_threshold : ℤ
  pub circuit_cooldown : ℤ

pub data SettingError : Type 0 where
  timeout_not_positive retries_negative threshold_below_one cooldown_not_positive : SettingError

-- validateBackend(where, backend)
unfoldable pub validate_backend : Settings → Option SettingError
validate_backend s =
    if is_below_one s.request_timeout
    then some timeout_not_positive
    else if is_negative s.retries
    then some retries_negative
    else if is_below_one s.failure_threshold
    then some threshold_below_one
    else if is_below_one s.circuit_cooldown
    then some cooldown_not_positive
    else none

-- The settings that pass, as the numbers that they are.
abbrev pub backend_options : Settings → BackendOptions
backend_options s = record {
  request_timeout = natural s.request_timeout;
  retries = natural s.retries;
  failure_threshold = natural s.failure_threshold;
  circuit_cooldown = natural s.circuit_cooldown;
}

pub record WorkspaceEntry : Type 0 where
  pub name : Text
  pub kubeconfig : Text
  pub api_groups : List Text
  pub impersonate_users : Option Bool
  pub request_timeout : Option ℤ
  pub retries : Option ℤ
  pub failure_threshold : Option ℤ
  pub circuit_cooldown : Option ℤ

-- What a workspace inherits from the flags.
pub record Defaults : Type 0 where
  pub settings : Settings
  pub impersonate_users : Bool

-- The errors of `loadWorkspaces`, with the workspace's name, or its index where it has none.
pub data LoadError : Type 0 where
  reading parsing no_workspaces : LoadError
  unnamed : (index : ℕ) → LoadError
  listed_twice without_kubeconfig : (name : Text) → LoadError
  bad_groups : (name : Text) → GroupError → LoadError
  group_taken : (owner name group : Text) → LoadError
  bad_setting : (name : Text) → SettingError → LoadError

abbrev pub or_default {ℓ} : {A : Type ℓ} → Option A → A → A
or_default none fallback = fallback
or_default (some value) fallback = value

-- The settings of one workspace.
abbrev pub overridden : Defaults → WorkspaceEntry → Settings
overridden defaults entry = record {
  request_timeout = or_default entry.request_timeout defaults.settings.request_timeout;
  retries = or_default entry.retries defaults.settings.retries;
  failure_threshold = or_default entry.failure_threshold defaults.settings.failure_threshold;
  circuit_cooldown = or_default entry.circuit_cooldown defaults.settings.circuit_cooldown;
}

-- The loop over the exact names of one workspace.
unfoldable pub claim_groups :
    (name : Text) → List Text → Map Text Text → Result LoadError (Map Text Text)
claim_groups name [] claimed = ok claimed
claim_groups name (group ∷ rest) claimed =
    let later = claim_groups name rest (insert group name claimed) in
    elim (lookup group claimed) [ some owner ↦ err (group_taken owner name group) | none ↦ later ]

module _ ⦃S : Sets Text⦄ (defaults : Defaults) where
  abbrev pub config_of : WorkspaceEntry → GroupMatcher → WorkspaceConfig
  config_of entry matcher = record {
    name = entry.name;
    kubeconfig = entry.kubeconfig;
    api_groups = some matcher;
    backend = backend_options (overridden defaults entry);
    impersonate_users = or_default entry.impersonate_users defaults.impersonate_users;
  }

  -- The end of one round of the loop.
  abbrev pub checked_config :
      WorkspaceEntry
      → GroupMatcher
      → Map Text Text
      → Result LoadError (WorkspaceConfig × Map Text Text)
  checked_config entry matcher claimed = elim (validate_backend (overridden defaults entry)) [
    | some reason ↦ err (bad_setting entry.name reason)
    | none ↦ ok (config_of entry matcher, claimed)
  ]

  abbrev pub claimed_config :
      WorkspaceEntry
      → GroupMatcher
      → Map Text Text
      → Result LoadError (WorkspaceConfig × Map Text Text)
  claimed_config entry matcher claimed =
      claim_groups entry.name (exact (some matcher)) claimed >>= checked_config entry matcher

  abbrev pub parsed_config :
      WorkspaceEntry
      → Result GroupError GroupMatcher
      → Map Text Text
      → Result LoadError (WorkspaceConfig × Map Text Text)
  parsed_config entry (err reason) claimed = err (bad_groups entry.name reason)
  parsed_config entry (ok matcher) claimed = claimed_config entry matcher claimed

  -- One round, with the names and the claims so far.
  unfoldable pub load_entry :
      (index : ℕ)
      → WorkspaceEntry
      → S.Set
      → Map Text Text
      → Result LoadError (WorkspaceConfig × Map Text Text)
  load_entry index entry names claimed =
      if entry.name == []
      then err (unnamed index)
      else if S.has names entry.name
      then err (listed_twice entry.name)
      else if entry.kubeconfig == []
      then err (without_kubeconfig entry.name)
      else parsed_config entry (parse_group_matcher entry.api_groups) claimed

  unfoldable pub load_entries :
      (index : ℕ)
      → List WorkspaceEntry
      → S.Set
      → Map Text Text
      → Result LoadError (List WorkspaceConfig)
  load_entries index [] names claimed = ok []
  load_entries index (entry ∷ rest) names claimed =
      load_entry index entry names claimed >>= λ (config, taken).
      load_entries (index + 1) rest (S.insert names entry.name) taken >>= λ more. ok (config ∷ more)

  abbrev pub load_file : Option (List WorkspaceEntry) → Result LoadError (List WorkspaceConfig)
  load_file none = err parsing
  load_file (some []) = err no_workspaces
  load_file (some (entry ∷ rest)) = load_entries 0 (entry ∷ rest) S.empty []

  -- loadWorkspaces(path, defaults), with what the file reads as, and its strict parser
  unfoldable pub load_workspaces :
      (read : Option Text) (parse : Text → Option (List WorkspaceEntry))
      → Result LoadError (List WorkspaceConfig)
  load_workspaces none parse = err reading
  load_workspaces (some raw) parse = load_file (parse raw)
