-- ===== src/Server/Options.antt =====
-- The options of pkg/cmd/server/options.go: completing and validating them, and what they become.
-- The options of the generic server are an argument, by the errors of their own validation.
pub mod Config
pub mod Resolved
pub mod Started
use spillway.Prelude.{
  ℕ, ltb, Bool, true, false, ◌&&◌, ◌||◌, not, Option, none, some, List, [], ◌∷◌, ◌++◌, map,
  if◌then◌else◌, Result, ok, err, Comparable, ◌==◌, ◌>>=◌, ◌*◌, ◌^◌,
}
use spillway.Prelude.Text.{Text, bytes, text_key}
use spillway.Prelude.Sets.{Sets}
use spillway.Kcp.Groups.{GroupMatcher, GroupError, parse_group_matcher}
use spillway.Apiserver.Leader.{LeaderElectionOptions, LeaderElectionError, validate_election}
use spillway.Apiserver.Registrar.{ApiServiceOptions, OptionError, validate}
use spillway.Apiserver.Manager.{WorkspaceConfig}
use spillway.Prelude.Integers.{ℤ, pos, negsuc, is_negative, is_below_one}
use spillway.Server.Workspaces.{
  Settings, SettingError, timeout_not_positive, retries_negative, threshold_below_one,
  cooldown_not_positive, backend_options, WorkspaceEntry, Defaults, LoadError, load_workspaces,
}

-- a < b, of integers
abbrev pub is_less : ℤ → ℤ → Bool
is_less (pos a) (pos b) = ltb a b
is_less (pos a) (negsuc b) = false
is_less (negsuc a) (pos b) = true
is_less (negsuc a) (negsuc b) = ltb b a

pub record ServerOptions : Type 0 where
  pub kcp_kubeconfig : Text
  pub workspaces_file : Text
  pub api_groups : List Text
  pub resync_period : ℤ
  pub credential_reload_period : ℤ
  pub mirror_namespaces : Bool
  pub impersonate_users : Bool
  pub backend : Settings
  pub max_requests_in_flight : ℤ
  pub max_mutating_requests_in_flight : ℤ
  pub api_services : ApiServiceOptions
  pub leader_election : LeaderElectionOptions
  pub authorization_qps : ℤ
  pub authorization_burst : ℤ

pub data ServerOptionError : Type 0 where
  generic : Text → ServerOptionError
  file_combined no_groups : ServerOptionError
  bad_file : LoadError → ServerOptionError
  bad_pattern : GroupError → ServerOptionError
  bad_backend : SettingError → ServerOptionError
  reload_negative resync_not_positive requests_negative mutating_negative : ServerOptionError
  registration : OptionError → ServerOptionError
  election : LeaderElectionError → ServerOptionError
  qps_not_positive burst_below_qps : ServerOptionError

-- One error, if the test fails.
abbrev pub error_if : Bool → ServerOptionError → List ServerOptionError
error_if failed reason = if failed then reason ∷ [] else []

-- len(values) == 0
abbrev pub none_given : List Text → Bool
none_given [] = true
none_given (value ∷ rest) = false

-- o.workspaceDefaults()
abbrev pub workspace_defaults : ServerOptions → Defaults
workspace_defaults o = record { settings = o.backend; impersonate_users = o.impersonate_users }

-- The tests of `Validate` on numbers.
unfoldable pub validate_numbers : ServerOptions → List ServerOptionError
validate_numbers o =
    error_if (is_negative o.credential_reload_period) reload_negative
    ++ (error_if (is_below_one o.resync_period) resync_not_positive
        ++ (error_if (is_below_one o.backend.request_timeout) (bad_backend timeout_not_positive)
            ++ (error_if (is_negative o.backend.retries) (bad_backend retries_negative)
                ++ (error_if (is_below_one o.backend.failure_threshold)
                      (bad_backend threshold_below_one)
                    ++ (error_if (is_below_one o.backend.circuit_cooldown)
                          (bad_backend cooldown_not_positive)
                        ++ (error_if (is_negative o.max_requests_in_flight) requests_negative
                            ++ error_if (is_negative o.max_mutating_requests_in_flight)
                                mutating_negative))))))

-- The options of the registration and of the authorization.
unfoldable pub validate_registration : ServerOptions → List ServerOptionError
validate_registration o =
    map registration (validate o.api_services)
    ++ ((if o.api_services.register then map election (validate_election o.leader_election) else [])
        ++ (error_if (is_below_one o.authorization_qps) qps_not_positive
            ++ error_if (is_less o.authorization_burst o.authorization_qps) burst_below_qps))

abbrev pub file_errors {ℓ} : {A : Type ℓ} → Result LoadError A → List ServerOptionError
file_errors (ok _) = []
file_errors (err reason) = bad_file reason ∷ []

abbrev pub pattern_errors {ℓ} : {A : Type ℓ} → Result GroupError A → List ServerOptionError
pattern_errors (ok _) = []
pattern_errors (err reason) = bad_pattern reason ∷ []

module _ ⦃S : Sets Text⦄ where
  unfoldable pub set_of : List Text → S.Set
  set_of [] = S.empty
  set_of (group ∷ rest) = S.insert (set_of rest) group

  abbrev pub single : ServerOptions → GroupMatcher → WorkspaceConfig
  single o groups = record {
    name = bytes "default";
    kubeconfig = o.kcp_kubeconfig;
    api_groups = some groups;
    backend = backend_options o.backend;
    impersonate_users = o.impersonate_users;
  }

  abbrev pub single_of :
      ServerOptions
      → Result GroupError GroupMatcher
      → Result ServerOptionError (List WorkspaceConfig)
  single_of o (ok groups) = ok (single o groups ∷ [])
  single_of o (err reason) = err (bad_pattern reason)

  abbrev pub of_file :
      Result LoadError (List WorkspaceConfig) → Result ServerOptionError (List WorkspaceConfig)
  of_file (ok configs) = ok configs
  of_file (err reason) = err (bad_file reason)

  -- o.Complete()
  unfoldable pub complete_options : ServerOptions → ServerOptions
  complete_options o =
      if none_given o.api_groups then o else record o { api_groups = S.list (set_of o.api_groups) }

module _ ⦃S : Sets Text⦄ (read : (path : Text) → Option Text)
    (parse : Text → Option (List WorkspaceEntry)) where
  -- The workspaces that the file lists, with the flags as defaults.
  abbrev pub load : ServerOptions → Result LoadError (List WorkspaceConfig)
  load o = load_workspaces (workspace_defaults o) (read o.workspaces_file) parse

  -- The switch of `Validate`.
  unfoldable pub validate_source : ServerOptions → List ServerOptionError
  validate_source o =
      if not (o.workspaces_file == [])
        && (not (none_given o.api_groups) || not (o.kcp_kubeconfig == []))
      then file_combined ∷ []
      else if not (o.workspaces_file == [])
      then file_errors (load o)
      else if none_given o.api_groups
      then no_groups ∷ []
      else pattern_errors (parse_group_matcher o.api_groups)

  -- o.Validate(), with the errors of o.RecommendedOptions.Validate()
  unfoldable pub validate_options :
      (recommended : List Text) → ServerOptions → List ServerOptionError
  validate_options recommended o =
      map generic recommended
      ++ (validate_source o ++ (validate_numbers o ++ validate_registration o))

  -- o.workspaces()
  unfoldable pub workspaces_of : ServerOptions → Result ServerOptionError (List WorkspaceConfig)
  workspaces_of o =
      if not (o.workspaces_file == [])
      then of_file (load o)
      else single_of o (parse_group_matcher o.api_groups)

  -- o.reloadWorkspaces(), with what its function answers when it is called
  unfoldable pub reload_workspaces :
      ServerOptions → Option (Result LoadError (List WorkspaceConfig))
  reload_workspaces o = if o.workspaces_file == [] then none else some (load o)
