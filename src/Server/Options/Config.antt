-- ===== src/Server/Options/Config.antt =====
-- The default options of pkg/cmd/server/options.go, and the configuration that options become.
use spillway.Prelude.{Bool, true, false, Option, List, [], Result, ok, ◌>>=◌, ◌*◌, ◌^◌}
use spillway.Prelude.Text.{Text, bytes, text_key}
use spillway.Prelude.Sets.{Sets}
use spillway.Apiserver.Leader.{LeaderElectionOptions}
use spillway.Apiserver.Registrar.{ApiServiceOptions}
use spillway.Apiserver.Manager.{WorkspaceConfig}
use spillway.Prelude.Integers.{ℤ, pos}
use spillway.Server.Workspaces.{Settings, WorkspaceEntry, LoadError}
use spillway.Server.Options.{ServerOptions, ServerOptionError, workspaces_of, reload_workspaces}

-- NewSpillwayServerOptions(out, errOut), in the namespace that DefaultServiceNamespace answers;
-- durations are nanoseconds
unfoldable pub new_server_options : (namespace : Text) → ServerOptions
new_server_options namespace = record {
  kcp_kubeconfig = [];
  workspaces_file = [];
  api_groups = [];
  resync_period = pos (10 * 60 * 10 ^ 9);
  credential_reload_period = pos (60 * 10 ^ 9);
  mirror_namespaces = false;
  impersonate_users = false;
  backend = record {
    request_timeout = pos (30 * 10 ^ 9);
    retries = pos 2;
    failure_threshold = pos 5;
    circuit_cooldown = pos (10 * 10 ^ 9);
  };
  max_requests_in_flight = pos 400;
  max_mutating_requests_in_flight = pos 200;
  api_services = record {
    register = false;
    service_name = bytes "spillway";
    service_namespace = namespace;
    service_port = pos 443;
    ca_bundle_file = [];
    insecure_skip_tls_verify = false;
    group_priority_minimum = 1000;
    version_priority = 15;
  };
  leader_election = record {
    enabled = true;
    namespace = namespace;
    name = bytes "spillway-apiservices";
    lease_duration = pos (15 * 10 ^ 9);
    renew_deadline = pos (10 * 10 ^ 9);
    retry_period = pos (2 * 10 ^ 9);
  };
  authorization_qps = pos 800;
  authorization_burst = pos 1600;
}

-- What pkg/apiserver reads of the options: apiserver.ExtraConfig, with the cluster's client config
-- left to the generic server.
pub record ExtraConfig ⦃S : Sets Text⦄ : Type 0 where
  pub workspaces : List WorkspaceConfig
  pub reload : Option (Result LoadError (List WorkspaceConfig))
  pub api_services : ApiServiceOptions
  pub leader_election : LeaderElectionOptions
  pub resync_period : ℤ
  pub credential_reload_period : ℤ
  pub impersonate_users : Bool
  pub mirror_namespaces : Bool
  pub backend : Settings

module _ ⦃S : Sets Text⦄ (read : (path : Text) → Option Text)
    (parse : Text → Option (List WorkspaceEntry)) where
  -- o.extraConfig(workspaces, cluster)
  abbrev pub extra_config : List WorkspaceConfig → ServerOptions → ExtraConfig
  extra_config workspaces o = record {
    workspaces = workspaces;
    reload = reload_workspaces read parse o;
    api_services = o.api_services;
    leader_election = o.leader_election;
    resync_period = o.resync_period;
    credential_reload_period = o.credential_reload_period;
    impersonate_users = o.impersonate_users;
    mirror_namespaces = o.mirror_namespaces;
    backend = o.backend;
  }

  -- The spillway part of o.Config(), before the generic server's own.
  unfoldable pub config : ServerOptions → Result ServerOptionError ExtraConfig
  config o = workspaces_of read parse o >>= λ workspaces. ok (extra_config workspaces o)
