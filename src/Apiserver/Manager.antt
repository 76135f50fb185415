-- ===== src/Apiserver/Manager.antt =====
-- The workspace manager of pkg/apiserver/workspacemanager.go. What building a workspace, its
-- discovery client and its watch answer are arguments, as are the file that is read again and the
-- formats of package fmt. The goroutines that `launch` starts are the models of their own loops.
pub mod Counted
pub mod Choice
pub mod Agreement
pub mod Stops
pub mod Fingerprints
mod Tests
use spillway.Prelude.{
  ℕ, zero, suc, ◌+◌, ◌++◌, Bool, true, false, not, Option, none, some, List, [], ◌∷◌, any,
  if◌then◌else◌, eqb, is_ok, Result, ok, err, Comparable, ◌==◌,
}
use spillway.Prelude.Text.{Text, bytes, text_key, join}
use spillway.Prelude.Maps.{Map, lookup, insert}
use spillway.Prelude.Sets.{Sets}
use spillway.Kcp.Api.{GroupVersion}
use spillway.Kcp.Metrics.{Metric, observe_workspace_reload}
use spillway.Kcp.Groups.{GroupMatcher, to_string}
use spillway.Kcp.Discovery.{DiscoveryClient, refresh}
use spillway.Apiserver.Router.{Workspace, Router, replace}

-- Durations are numbers of nanoseconds.
pub record BackendOptions : Type 0 where
  pub request_timeout : ℕ
  pub retries : ℕ
  pub failure_threshold : ℕ
  pub circuit_cooldown : ℕ

abbrev pub bool_text : Bool → Text
bool_text true = bytes "true"
bool_text false = bytes "false"

pub data LaunchError : Type 0 where
  building : LaunchError
  syncing watching : (name : Text) → LaunchError

module _ ⦃S : Sets Text⦄ where
  pub record WorkspaceConfig : Type 0 where
    pub name : Text
    pub kubeconfig : Text
    pub api_groups : Option GroupMatcher
    pub backend : BackendOptions
    pub impersonate_users : Bool

  -- fmt.Sprintf with %d and with the %s of a duration
  pub record Formats : Type 0 where
    pub number : ℕ → Text
    pub duration : ℕ → Text

  -- What is met while one workspace is brought up.
  pub record Attempt : Type 0 where
    pub built : Option Workspace
    pub client : DiscoveryClient
    pub watchable : Bool

  -- What the manager does, in its order.
  pub data Effect : Type 0 where
    stopped : (address : ℕ) → Effect
    replaced : List Workspace → Effect
    changed : Effect
    observed : List Metric → Effect

  -- The variables of `reconcile` over its first loop.
  pub record Progress : Type 0 where
    pub next : List Workspace
    pub keep : Map Text Bool
    pub changes : ℕ
    pub failures : ℕ

  abbrev pub fields : Formats → WorkspaceConfig → List Text
  fields f c =
      c.name
      ∷ c.kubeconfig
      ∷ to_string c.api_groups
      ∷ bool_text c.impersonate_users
      ∷ f.duration c.backend.request_timeout
      ∷ f.number c.backend.retries
      ∷ f.number c.backend.failure_threshold
      ∷ f.duration c.backend.circuit_cooldown
      ∷ []

  -- fingerprint(configured)
  unfoldable pub fingerprint : Formats → WorkspaceConfig → Text
  fingerprint f c = join (0 ∷ []) (fields f c)

  module _ (parse_group_version : Text → Option GroupVersion) (formats : Formats)
      (attempt : WorkspaceConfig → Attempt) where
    -- m.launch(configured)
    unfoldable pub launch : WorkspaceConfig → Result LaunchError Workspace
    launch c = elim (attempt c).built [
      | none ↦ err building
      | some built ↦
          let (synced, cache, _) = refresh parse_group_version (attempt c).client built.cache in
          if not (is_ok synced)
          then err (syncing built.name)
          else if not (attempt c).watchable
          then err (watching built.name)
          else ok (record built { fingerprint = fingerprint formats c; cache = cache })
    ]

    -- The loop of `start`.
    unfoldable pub launch_all : List WorkspaceConfig → Result LaunchError (List Workspace)
    launch_all [] = ok []
    launch_all (c ∷ rest) =
        let more = launch_all rest in
        elim (launch c) [
          | err e ↦ err e
          | ok built ↦ elim more [ err e ↦ err e | ok running ↦ ok (built ∷ running) ]
        ]

    -- m.start(configured)
    unfoldable pub start : Router → List WorkspaceConfig → Result LaunchError Router
    start r configured = elim (launch_all configured) [
      | err e ↦ err e
      | ok running ↦ ok (replace r running)
    ]

    -- byName
    unfoldable pub by_name : Map Text Workspace → List Workspace → Map Text Workspace
    by_name found [] = found
    by_name found (w ∷ rest) = by_name (insert w.name w found) rest

    abbrev pub kept : WorkspaceConfig → Workspace → Progress → Progress
    kept entry running p = record p {
      keep = insert entry.name true p.keep;
      next = p.next ++ running ∷ [];
    }

    abbrev pub launched :
        Result LaunchError Workspace → WorkspaceConfig → Option Workspace → Progress → Progress
    launched (ok built) entry found p = record p {
      next = p.next ++ built ∷ [];
      changes = p.changes + 1;
    }
    launched (err e) entry none p = record p { failures = p.failures + 1 }
    launched (err e) entry (some running) p =
        kept entry running (record p { failures = p.failures + 1 })

    -- The body of the loop over the entries of the configuration.
    unfoldable pub apply_entry : WorkspaceConfig → Option Workspace → Progress → Progress
    apply_entry entry none p = launched (launch entry) entry none p
    apply_entry entry (some running) p =
        if running.fingerprint == fingerprint formats entry
        then kept entry running p
        else launched (launch entry) entry (some running) p

    unfoldable pub apply_all : Map Text Workspace → List WorkspaceConfig → Progress → Progress
    apply_all running [] p = p
    apply_all running (entry ∷ rest) p =
        apply_all running rest (apply_entry entry (lookup entry.name running) p)

    abbrev pub is_kept : Map Text Bool → Text → Bool
    is_kept keep name = elim (lookup name keep) [ none ↦ false | some b ↦ b ]

    -- containsWorkspace(workspaces, wanted), which compares pointers
    abbrev pub contains_workspace : List Workspace → Workspace → Bool
    contains_workspace workspaces wanted =
        any (λ (candidate : Workspace). eqb candidate.address wanted.address) workspaces

    -- The loop over the running workspaces: the changes it adds and the workspaces it stops.
    unfoldable pub remove_all : Progress → List Workspace → ℕ × List Effect
    remove_all p [] = (0, [])
    remove_all p (running ∷ rest) =
        let (changes, effects) = remove_all p rest in
        if is_kept p.keep running.name then (changes, effects) else (
          (if contains_workspace p.next running then changes else changes + 1),
          stopped running.address ∷ effects,
        )

    abbrev pub no_progress : Progress
    no_progress = record { next = []; keep = []; changes = 0; failures = 0 }

    -- The metric of each entry that failed to come up.
    unfoldable pub failure_effects : ℕ → List Effect
    failure_effects zero = []
    failure_effects (suc n) =
        observed (observe_workspace_reload (bytes "error")) ∷ failure_effects n

    -- m.reconcile() with what m.reload() answers and whether there is an `onChange`: whether it
    -- succeeded, what it did and the router after it.
    unfoldable pub reconcile :
        Router
        → (has_on_change : Bool) (desired : Option (List WorkspaceConfig))
        → Bool × List Effect × Router
    reconcile r has_on_change none = (false, [], r)
    reconcile r has_on_change (some desired) =
        let p = apply_all (by_name [] r.workspaces) desired no_progress in
        let removed = remove_all p r.workspaces in
        if eqb (p.changes + removed.0) 0
        then (true, failure_effects p.failures ++ removed.1, r)
        else (
          true,
          failure_effects p.failures
              ++ removed.1
              ++ replaced p.next
                ∷ observed (observe_workspace_reload (bytes "reloaded"))
                ∷ (if has_on_change then changed ∷ [] else []),
          replace r p.next,
        )

    -- m.run() over the answers of m.reload() at the ticks, for a manager that has a `reload`
    unfoldable pub run :
        Router
        → (has_on_change : Bool) (period : ℕ) (ticks : List (Option (List WorkspaceConfig)))
        → List Effect × Router
    run r has_on_change period [] = ([], r)
    run r has_on_change period (desired ∷ rest) =
        let (succeeded, effects, next) = reconcile r has_on_change desired in
        let later = run next has_on_change period rest in
        if eqb period 0 then ([], r) else (
          effects
              ++ (if succeeded
                  then []
                  else observed (observe_workspace_reload (bytes "error")) ∷ [])
              ++ later.0,
          later.1,
        )
