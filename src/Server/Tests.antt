-- ===== src/Server/Tests.antt =====
-- A file of two workspaces, and options that name it.
use spillway.Prelude.{◌≡◌, ◌≢◌, refl, true, false, Option, none, some, List, [], ◌∷◌, err, All}
use spillway.Prelude.Text.{
  Text, bytes, text_key, text_eq, has_prefix, has_suffix, contains_byte, count_byte, cut_byte,
}
use spillway.Prelude.Maps.{lookup, insert}
use spillway.Prelude.ListSets.{list_sets}
use spillway.Kcp.Groups.{parse_group_matcher, exact}
use spillway.Apiserver.Manager.{WorkspaceConfig}
use spillway.Prelude.Integers.{pos, negsuc}
use spillway.Server.Workspaces.{
  Settings, WorkspaceEntry, Defaults, group_taken, bad_setting, timeout_not_positive,
  validate_backend, claim_groups, load_entry, load_entries, load_workspaces,
}
use spillway.Server.Workspaces.Accepted.{load_workspaces-ArePairwise}
use spillway.Server.Workspaces.Distinct.{IsComplete, AreOf, ArePairwise, AreApart}
use spillway.Apiserver.Registrar.{validate}
use spillway.Apiserver.Leader.{validate_election}
use spillway.Server.Options.{
  ServerOptions, validate_numbers, validate_registration, validate_source, validate_options,
  workspaces_of, complete_options, set_of, reload_workspaces,
}
use spillway.Server.Options.Config.{new_server_options, config, extra_config}
use spillway.Server.Options.Started.{IsReloaded, config-IsReloaded}
use spillway.Server.Options.Resolved.{IsResolved, validate_options-IsResolved}

abbrev settings : Settings
settings = record {
  request_timeout = pos 30;
  retries = pos 2;
  failure_threshold = pos 5;
  circuit_cooldown = pos 10;
}

abbrev defaults : Defaults
defaults = record { settings = settings; impersonate_users = false }

abbrev entry_of : (name : Text) → List Text → WorkspaceEntry
entry_of name groups = record {
  name = name;
  kubeconfig = bytes "/k";
  api_groups = groups;
  impersonate_users = some true;
  request_timeout = none;
  retries = none;
  failure_threshold = none;
  circuit_cooldown = none;
}

abbrev entries : List WorkspaceEntry
entries = entry_of (bytes "one") (bytes "a.b" ∷ []) ∷ entry_of (bytes "two") (bytes "c.d" ∷ []) ∷ []

abbrev parse : Text → Option (List WorkspaceEntry)
parse raw = some entries

abbrev parse_taken : Text → Option (List WorkspaceEntry)
parse_taken raw =
    some
      (entry_of (bytes "one") (bytes "a.b" ∷ []) ∷ entry_of (bytes "two") (bytes "a.b" ∷ []) ∷ [])

abbrev parse_hasty : Text → Option (List WorkspaceEntry)
parse_hasty raw =
    some (
      record (entry_of (bytes "one") (bytes "a.b" ∷ [])) { request_timeout = some (negsuc 0) } ∷ [])

code : Unit {0}
unfolding validate validate_election text_eq has_prefix has_suffix contains_byte count_byte cut_byte
    lookup insert parse_group_matcher exact validate_backend claim_groups load_entry load_entries
    load_workspaces validate_numbers validate_registration validate_source validate_options
    workspaces_of complete_options set_of new_server_options reload_workspaces config
code = tt

takes :
    load_workspaces defaults (some []) parse_taken
    ≡ err (group_taken (bytes "one") (bytes "two") (bytes "a.b"))
unfolding code
takes = refl

hurries :
    load_workspaces defaults (some []) parse_hasty
    ≡ err (bad_setting (bytes "one") timeout_not_positive)
unfolding code
hurries = refl

abbrev config_of_group : (name group : Text) → WorkspaceConfig
config_of_group name group = record {
  name = name;
  kubeconfig = bytes "/k";
  api_groups =
      some
        (record { exact = group ∷ []; suffixes = []; excluded_exact = []; excluded_suffixes = [] });
  backend = record {
    request_timeout = 30;
    retries = 2;
    failure_threshold = 5;
    circuit_cooldown = 10;
  };
  impersonate_users = true;
}

abbrev configs : List WorkspaceConfig
configs =
    config_of_group (bytes "one") (bytes "a.b") ∷ config_of_group (bytes "two") (bytes "c.d") ∷ []

load_workspaces-ArePairwise_example :
    (raw : Text) × (es : List WorkspaceEntry) × (some (bytes "f") ≡ some raw)
    × (parse raw ≡ some es)
    × (es ≢ [])
    × AreOf defaults es configs
    × All IsComplete configs
    × ArePairwise AreApart configs
unfolding code
load_workspaces-ArePairwise_example =
    load_workspaces-ArePairwise defaults (some (bytes "f")) parse configs refl

abbrev options : ServerOptions
options = record {
  kcp_kubeconfig = [];
  workspaces_file = bytes "/f";
  api_groups = [];
  resync_period = pos 600;
  credential_reload_period = pos 60;
  mirror_namespaces = false;
  impersonate_users = true;
  backend = settings;
  max_requests_in_flight = pos 400;
  max_mutating_requests_in_flight = pos 200;
  api_services = record {
    register = false;
    service_name = [];
    service_namespace = [];
    service_port = pos 443;
    ca_bundle_file = [];
    insecure_skip_tls_verify = false;
    group_priority_minimum = 1000;
    version_priority = 15;
  };
  leader_election = record {
    enabled = false;
    namespace = [];
    name = [];
    lease_duration = pos 15;
    renew_deadline = pos 10;
    retry_period = pos 2;
  };
  authorization_qps = pos 50;
  authorization_burst = pos 100;
}

abbrev read : Text → Option Text
read path = some path

validate_options-IsResolved_example : IsResolved read parse (workspaces_of read parse options)
unfolding code
validate_options-IsResolved_example = validate_options-IsResolved read parse [] options refl

config-IsReloaded_example : IsReloaded read parse options (extra_config read parse configs options)
unfolding code
config-IsReloaded_example =
    config-IsReloaded read parse options (extra_config read parse configs options) refl
