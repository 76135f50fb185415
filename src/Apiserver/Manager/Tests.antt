-- ===== src/Apiserver/Manager/Tests.antt =====
-- Rounds of the workspace manager over two workspaces.
use spillway.Prelude.{
  ℕ, zero, suc, ◌≡◌, if◌then◌else◌, refl, Bool, true, false, Option, none, some, List, [], ◌∷◌,
  arith, inl, inr, Any, All,
}
use spillway.Prelude.Text.{Text, bytes, text_key, text_eq, join, contains_byte}
use spillway.Prelude.Maps.{lookup, insert}
use spillway.Prelude.ListSets.{list_sets}
use spillway.Kcp.Api.{GroupVersion}
use spillway.Kcp.Groups.{to_string}
use spillway.Kcp.Metrics.{observe_workspace_reload}
use spillway.Kcp.Discovery.{empty_snapshot, ResourceCache}
use spillway.Apiserver.Router.{Workspace, Router, replace}
use spillway.Apiserver.Manager.{
  BackendOptions, WorkspaceConfig, Formats, Attempt, Effect, stopped, replaced, changed, observed,
  fields, fingerprint, launch, by_name, apply_entry, apply_all, remove_all, reconcile,
  failure_effects,
}
use spillway.Apiserver.Manager.Fingerprints.{IsPlain}
use spillway.Apiserver.Manager.Choice.{choices, choose, workspaces-reconcile}
use spillway.Apiserver.Manager.Counted.{builds, keeps_name}
use spillway.Apiserver.Manager.Agreement.{BuildsElsewhere}
use spillway.Apiserver.Manager.Stops.{stops-reconcile}

abbrev backend : BackendOptions
backend = record { request_timeout = 1; retries = 2; failure_threshold = 5; circuit_cooldown = 3 }

abbrev entry : Text → WorkspaceConfig
entry name = record {
  name = name;
  kubeconfig = bytes "/etc/kubeconfig";
  api_groups = none;
  backend = backend;
  impersonate_users = false;
}

-- A number is written here by as many bytes as it counts.
abbrev unary : ℕ → Text
unary zero = []
unary (suc n) = b'1' ∷ unary n

abbrev formats : Formats
formats = record { number = unary; duration = unary }

abbrev cache : Text → ResourceCache
cache name = record {
  workspace = name;
  owned = none;
  snapshot = empty_snapshot;
  synced = true;
  matched = none;
  generation = 1;
}

abbrev running : ℕ → Text → Workspace
running address name = record {
  address = address;
  name = name;
  fingerprint = join (0 ∷ []) (fields formats (entry name));
  groups = none;
  cache = cache name;
}

abbrev router : Router
router = record {
  workspaces = running 1 (bytes "a") ∷ running 2 (bytes "b") ∷ [];
  revision = 1;
  merged = none;
}

-- Nothing can be built here.
abbrev attempt : WorkspaceConfig → Attempt
attempt c = record {
  built = none;
  client = record { server_groups = none; server_resources = λ _. none };
  watchable = true;
}

abbrev parse : Text → Option GroupVersion
parse text = none

abbrev round : List WorkspaceConfig → Bool × List Effect × Router
round desired = reconcile parse formats attempt router true (some desired)

code : Unit {0}
unfolding reconcile replace by_name apply_all apply_entry remove_all failure_effects fingerprint
    launch lookup insert text_eq join to_string choices choose builds keeps_name
    observe_workspace_reload
code = tt

-- A workspace that goes is stopped before the router is switched.
stopped_first :
    (round (entry (bytes "a") ∷ [])).1
    ≡ stopped 2
      ∷ replaced (running 1 (bytes "a") ∷ [])
      ∷ observed (observe_workspace_reload (bytes "reloaded"))
      ∷ changed
      ∷ []
unfolding code
stopped_first = refl

-- A configuration that only changes the order changes nothing.
reordered : (round (entry (bytes "b") ∷ entry (bytes "a") ∷ [])).2 ≡ router
unfolding code
reordered = refl

workspaces-reconcile_example :
    (round (entry (bytes "a") ∷ [])).2
    ≡ (if true then replace router (running 1 (bytes "a") ∷ []) else router)
unfolding code
workspaces-reconcile_example =
    workspaces-reconcile parse formats attempt router true (entry (bytes "a") ∷ [])

nothing_built : BuildsElsewhere parse formats attempt (running 2 (bytes "b"))
unfolding code
nothing_built c built made = cc made

stops-reconcile_example : Any (λ e. e ≡ stopped 2) (round (entry (bytes "a") ∷ [])).1
unfolding text_eq reconcile replace by_name apply_all apply_entry remove_all fingerprint lookup
    insert join to_string
stops-reconcile_example =
    (stops-reconcile parse formats attempt router true (entry (bytes "a") ∷ [])
        (running 2 (bytes "b")) (inr (inl refl)) (refl, (refl, tt)) nothing_built).1
      refl

unary-injective : (m n : ℕ) → unary m ≡ unary n → m ≡ n
unary-injective zero zero e = refl
unary-injective zero (suc n) e = cc e
unary-injective (suc m) zero e = cc e
unary-injective (suc m) (suc n) e = omega (arith, unary-injective m n (cc e))

plain : All IsPlain (fields formats (entry (bytes "a")))
unfolding to_string contains_byte join
plain = (refl, (refl, (refl, (refl, (refl, (refl, (refl, (refl, tt))))))))
