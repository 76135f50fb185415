-- ===== src/Apiserver/Manager/Counted.antt =====
-- What a round of pkg/apiserver/workspacemanager.go counts as a change: a workspace that it builds,
-- and one that runs and is to go.
use spillway.Prelude.{
  ◌≡◌, ◌∙◌, refl, Bool, true, false, ◌&&◌, ◌||◌, not, Option, none, some, List, [], ◌∷◌, any,
  is_some, is_ok, eqb, Result, ok, err, ◌==◌, Bool-cases, inl, inr, arith,
}
use spillway.Prelude.Text.{Text, text_key}
use spillway.Prelude.Maps.{Map, lookup, lookup-insert}
use spillway.Prelude.Sets.{Sets}
use spillway.Kcp.Api.{GroupVersion}
use spillway.Apiserver.Router.{Workspace}
use spillway.Apiserver.Manager.{
  WorkspaceConfig, Formats, Attempt, Progress, fingerprint, launch, LaunchError, launched,
  apply_entry, apply_all, is_kept, contains_workspace, remove_all,
}

module _ ⦃S : Sets Text⦄ (parse_group_version : Text → Option GroupVersion) (formats : Formats)
    (attempt : WorkspaceConfig → Attempt) where
  -- Whether the running workspace of an entry's name, if there is one, is not what the entry asks.
  abbrev pub is_new : WorkspaceConfig → Option Workspace → Bool
  is_new entry none = true
  is_new entry (some running) = not (running.fingerprint == fingerprint formats entry)

  -- Whether a workspace is built for an entry.
  abbrev pub is_built : WorkspaceConfig → Option Workspace → Bool
  is_built entry running =
      is_new entry running && is_ok (launch parse_group_version formats attempt entry)

  -- Whether the running workspace goes on to serve an entry.
  abbrev pub goes_on : WorkspaceConfig → Option Workspace → Bool
  goes_on entry running = is_some running && not (is_built entry running)

  -- Whether a workspace is built for some entry.
  unfoldable pub builds : Map Text Workspace → List WorkspaceConfig → Bool
  builds running [] = false
  builds running (entry ∷ rest) = is_built entry (lookup entry.name running) || builds running rest

  -- Whether the running workspace of a name goes on to serve some entry.
  unfoldable pub keeps_name : Map Text Workspace → List WorkspaceConfig → Text → Bool
  keeps_name running [] name = false
  keeps_name running (entry ∷ rest) name =
      (entry.name == name && goes_on entry (lookup entry.name running))
      || keeps_name running rest name

  changes-launched :
      (result : Result LaunchError Workspace) (entry : WorkspaceConfig) (running : Option Workspace)
      (p : Progress)
      → eqb (launched parse_group_version formats attempt result entry running p).changes 0
        ≡ (eqb p.changes 0 && not (is_ok result))
  changes-launched (ok built) entry running p = ground arith
  changes-launched (err e) entry none p = ground arith
  changes-launched (err e) entry (some running) p = ground arith

  keep-launched :
      (result : Result LaunchError Workspace) (entry : WorkspaceConfig) (running : Option Workspace)
      (p : Progress) (name : Text)
      → is_kept parse_group_version formats attempt
          (launched parse_group_version formats attempt result entry running p).keep
          name
        ≡ ((entry.name == name && (is_some running && not (is_ok result)))
            || is_kept parse_group_version formats attempt p.keep name)
  keep-launched (ok built) entry running p name = ground arith
  keep-launched (err e) entry none p name = ground arith
  keep-launched (err e) entry (some running) p name =
      ground (arith, lookup-insert entry.name true p.keep name)

  changes-apply_entry :
      (entry : WorkspaceConfig) (running : Option Workspace) (p : Progress)
      → eqb (apply_entry parse_group_version formats attempt entry running p).changes 0
        ≡ (eqb p.changes 0 && not (is_built entry running))
  unfolding apply_entry
  changes-apply_entry entry none p =
      changes-launched (launch parse_group_version formats attempt entry) entry none p
  changes-apply_entry entry (some running) p =
      elim (Bool-cases (running.fingerprint == fingerprint formats entry)) [
        | inl same ↦ rw same (ground arith)
        | inr differs ↦ rw differs (
            changes-launched (launch parse_group_version formats attempt entry) entry (some running)
              p)
      ]

  keep-apply_entry :
      (entry : WorkspaceConfig) (running : Option Workspace) (p : Progress) (name : Text)
      → is_kept parse_group_version formats attempt
          (apply_entry parse_group_version formats attempt entry running p).keep
          name
        ≡ ((entry.name == name && goes_on entry running)
            || is_kept parse_group_version formats attempt p.keep name)
  unfolding apply_entry
  keep-apply_entry entry none p name =
      keep-launched (launch parse_group_version formats attempt entry) entry none p name
  keep-apply_entry entry (some running) p name =
      elim (Bool-cases (running.fingerprint == fingerprint formats entry)) [
        | inl same ↦ rw same (ground (arith, lookup-insert entry.name true p.keep name))
        | inr differs ↦ rw differs (
            keep-launched (launch parse_group_version formats attempt entry) entry (some running) p
              name)
      ]

  pub changes-apply_all :
      (running : Map Text Workspace) (desired : List WorkspaceConfig) (p : Progress)
      → eqb (apply_all parse_group_version formats attempt running desired p).changes 0
        ≡ (eqb p.changes 0 && not (builds running desired))
  unfolding apply_all builds
  changes-apply_all running [] p = ground arith
  changes-apply_all running (entry ∷ rest) p =
      let found = lookup entry.name running in
      let next = apply_entry parse_group_version formats attempt entry found p in
      let first = changes-apply_entry entry found p in
      let later = changes-apply_all running rest next in later ∙ rw first (ground arith)

  pub keep-apply_all :
      (running : Map Text Workspace) (desired : List WorkspaceConfig) (p : Progress) (name : Text)
      → is_kept parse_group_version formats attempt
          (apply_all parse_group_version formats attempt running desired p).keep
          name
        ≡ (keeps_name running desired name
            || is_kept parse_group_version formats attempt p.keep name)
  unfolding apply_all keeps_name
  keep-apply_all running [] p name = refl
  keep-apply_all running (entry ∷ rest) p name =
      let found = lookup entry.name running in
      let next = apply_entry parse_group_version formats attempt entry found p in
      keep-apply_all running rest next name
      ∙ rw (keep-apply_entry entry found p name) (ground arith)

  -- Whether a running workspace is to go: it goes on to serve no entry of its name, and it is not
  -- among the next ones.
  abbrev pub is_gone :
      Map Text Workspace → List WorkspaceConfig → (next : List Workspace) → Workspace → Bool
  is_gone running desired next w =
      not (keeps_name running desired w.name)
      && not (contains_workspace parse_group_version formats attempt next w)

  pub changes-remove_all :
      (running : Map Text Workspace) (desired : List WorkspaceConfig) (p : Progress)
      (ws : List Workspace)
      → ((name : Text)
          → is_kept parse_group_version formats attempt p.keep name
            ≡ keeps_name running desired name)
      → eqb (remove_all parse_group_version formats attempt p ws).0 0
        ≡ not (any (is_gone running desired p.next) ws)
  unfolding remove_all
  changes-remove_all running desired p [] same = refl
  changes-remove_all running desired p (w ∷ rest) same =
      ground (arith, same w.name, changes-remove_all running desired p rest same)
