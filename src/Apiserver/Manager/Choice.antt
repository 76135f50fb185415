-- ===== src/Apiserver/Manager/Choice.antt =====
-- Which workspaces serve after a round of pkg/apiserver/workspacemanager.go.
use spillway.Prelude.{
  ◌+◌, ◌++◌, ◌≡◌, ◌||◌, not, any, arith, refl, sym, ◌∙◌, Bool, Option, none, some, List, [], ◌∷◌,
  subst, if◌then◌else◌, eqb, Result, ok, err, ◌==◌, Bool-cases, inl, inr, ap,
}
use mathlib.Core.List.{append_assoc, append-nil}
use spillway.Prelude.Text.{Text, text_key}
use spillway.Prelude.Maps.{Map, lookup}
use spillway.Prelude.Sets.{Sets}
use spillway.Kcp.Api.{GroupVersion}
use spillway.Apiserver.Router.{Workspace, Router, replace}
use spillway.Apiserver.Manager.Counted.{
  builds, keeps_name, is_gone, changes-apply_all, keep-apply_all, changes-remove_all,
}
use spillway.Apiserver.Manager.{
  WorkspaceConfig, Formats, Attempt, Progress, fingerprint, launch, LaunchError, by_name, launched,
  apply_entry, apply_all, no_progress, remove_all, reconcile, is_kept,
}

module _ ⦃S : Sets Text⦄ (parse_group_version : Text → Option GroupVersion) (formats : Formats)
    (attempt : WorkspaceConfig → Attempt) where
  abbrev pub or_running : Result LaunchError Workspace → Option Workspace → Option Workspace
  or_running (ok built) running = some built
  or_running (err e) running = running

  -- The workspace that is to serve an entry: the running one of its name if its fingerprint is the
  -- entry's; else a new one; else, if that does not come up, the running one, if there is one.
  unfoldable pub choose : WorkspaceConfig → Option Workspace → Option Workspace
  choose entry none = or_running (launch parse_group_version formats attempt entry) none
  choose entry (some running) =
      if running.fingerprint == fingerprint formats entry
      then some running
      else or_running (launch parse_group_version formats attempt entry) (some running)

  abbrev pub cons_option : Option Workspace → List Workspace → List Workspace
  cons_option none ws = ws
  cons_option (some w) ws = w ∷ ws

  unfoldable pub choices : Map Text Workspace → List WorkspaceConfig → List Workspace
  choices running [] = []
  choices running (entry ∷ rest) =
      cons_option (choose entry (lookup entry.name running)) (choices running rest)

  next-launched :
      (launch_result : Result LaunchError Workspace) (entry : WorkspaceConfig)
      (running : Option Workspace) (p : Progress)
      → (launched parse_group_version formats attempt launch_result entry running p).next
        ≡ p.next ++ cons_option (or_running launch_result running) []
  next-launched (ok built) entry running p = refl
  next-launched (err e) entry none p = sym (append-nil p.next)
  next-launched (err e) entry (some running) p = refl

  next-apply_entry :
      (entry : WorkspaceConfig) (running : Option Workspace) (p : Progress)
      → (apply_entry parse_group_version formats attempt entry running p).next
        ≡ p.next ++ cons_option (choose entry running) []
  unfolding apply_entry choose
  next-apply_entry entry none p =
      next-launched (launch parse_group_version formats attempt entry) entry none p
  next-apply_entry entry (some running) p =
      elim (Bool-cases (running.fingerprint == fingerprint formats entry)) [
        | inl same ↦ rw same refl
        | inr differs ↦ rw differs (
            next-launched (launch parse_group_version formats attempt entry) entry (some running) p)
      ]

  cons_option-append :
      (w : Option Workspace) (xs ys : List Workspace)
      → xs ++ cons_option w [] ++ ys ≡ xs ++ cons_option w ys
  cons_option-append none xs ys = ap (λ zs. zs ++ ys) (append-nil xs)
  cons_option-append (some w) xs ys = append_assoc xs (w ∷ []) ys

  next-apply_all :
      (running : Map Text Workspace) (desired : List WorkspaceConfig) (p : Progress)
      → (apply_all parse_group_version formats attempt running desired p).next
        ≡ p.next ++ choices running desired
  unfolding apply_all choices
  next-apply_all running [] p = sym (append-nil p.next)
  next-apply_all running (entry ∷ rest) p =
      next-apply_all running rest
        (apply_entry parse_group_version formats attempt entry (lookup entry.name running) p)
      ∙ ap (λ ws. ws ++ choices running rest) (next-apply_entry entry (lookup entry.name running) p)
      ∙ cons_option-append (choose entry (lookup entry.name running)) p.next (choices running rest)

  -- Whether a round changes anything: a workspace is built for an entry, or one that runs is to go.
  abbrev pub changes_any : Router → List WorkspaceConfig → Bool
  changes_any r desired =
      let running = by_name parse_group_version formats attempt [] r.workspaces in
      builds parse_group_version formats attempt running desired
      || any (is_gone parse_group_version formats attempt running desired (choices running desired))
          r.workspaces

  -- A round with a configuration that is read replaces the router's workspaces by the ones chosen
  -- for the entries, in the order of the configuration, exactly if a new workspace was built for an
  -- entry, or a running one is to go: it goes on to serve no entry of its name and was not chosen.
  -- Else the router stays as it was. For an entry the running workspace of its name is chosen if its
  -- fingerprint is the entry's; else a new one; else, if that does not come up, the running one, if
  -- there is one.
  pub workspaces-reconcile :
      (r : Router) (has_on_change : Bool) (desired : List WorkspaceConfig)
      → (reconcile parse_group_version formats attempt r has_on_change (some desired)).2 ≡ (
          if changes_any r desired
          then replace r
              (choices (by_name parse_group_version formats attempt [] r.workspaces) desired)
          else r)
  unfolding reconcile lookup
  workspaces-reconcile r has_on_change desired =
      let running = by_name parse_group_version formats attempt [] r.workspaces in
      let start = no_progress parse_group_version formats attempt in
      let p = apply_all parse_group_version formats attempt running desired start in
      let removed = (remove_all parse_group_version formats attempt p r.workspaces).0 in
      let next : p.next ≡ choices running desired = next-apply_all running desired start in
      let built : eqb p.changes 0
          ≡ not (builds parse_group_version formats attempt running desired) =
        changes-apply_all parse_group_version formats attempt running desired start in
      let stays : (name : Text)
          → is_kept parse_group_version formats attempt p.keep name
            ≡ keeps_name parse_group_version formats attempt running desired name =
        λ name.
          ground (
            arith,
            keep-apply_all parse_group_version formats attempt running desired start name,
          ) in
      let removed_lem =
        changes-remove_all parse_group_version formats attempt running desired p r.workspaces
          stays in
      let gone : eqb removed 0
          ≡ not (
              any
                (is_gone parse_group_version formats attempt running desired
                  (choices running desired))
                r.workspaces) =
        subst
          (λ ws.
            eqb removed 0
            ≡ not
                (any (is_gone parse_group_version formats attempt running desired ws) r.workspaces))
          next removed_lem in
      let none_counted : eqb (p.changes + removed) 0 ≡ not (changes_any r desired) =
        ground (arith, built, gone) in
      elim (Bool-cases (changes_any r desired)) [
        | inl moved ↦ rw (none_counted, moved) (ap (replace r) next)
        | inr same ↦ rw (none_counted, same) refl
      ]
