-- ===== src/Apiserver/Manager/Agreement.antt =====
-- What `reconcile` of pkg/apiserver/workspacemanager.go keeps is what it puts into the next set.
use spillway.Prelude.{
  ◌+◌, ◌≡◌, refl, true, false, Option, none, some, List, [], ◌∷◌, any-append, arith, eqb, Result,
  ok, err, ◌==◌, Bool-cases, inl, inr, ap, All,
}
use spillway.Prelude.Text.{Text, text_key}
use spillway.Prelude.Maps.{Map, lookup, insert, lookup-insert, All-insert, All-lookup}
use spillway.Prelude.Sets.{Sets}
use spillway.Kcp.Api.{GroupVersion}
use spillway.Apiserver.Router.{Workspace}
use spillway.Apiserver.Manager.{
  WorkspaceConfig, Formats, Attempt, Progress, fingerprint, launch, LaunchError, by_name, kept,
  launched, apply_entry, apply_all, is_kept, contains_workspace,
}

module _ ⦃S : Sets Text⦄ where
  -- A workspace that has the name of `w` exactly when it is `w`.
  abbrev pub Fits : Workspace → Workspace → Type 0
  Fits w v = eqb v.address w.address ≡ (v.name == w.name)

  abbrev pub Known : Workspace → Text × Workspace → Type 0
  Known w entry = (entry.1.name ≡ entry.0) × Fits w entry.1

module _ ⦃S : Sets Text⦄ (parse_group_version : Text → Option GroupVersion) (formats : Formats)
    (attempt : WorkspaceConfig → Attempt) where
  -- A manager that builds no workspace at the address of `w`.
  abbrev pub BuildsElsewhere : Workspace → Type 0
  BuildsElsewhere w =
      (entry : WorkspaceConfig) (built : Workspace)
      → launch parse_group_version formats attempt entry ≡ ok built
      → eqb built.address w.address ≡ false

  pub Known-by_name :
      (w : Workspace) (found : Map Text Workspace) (ws : List Workspace)
      → All (Known w) found
      → All (Fits w) ws
      → All (Known w) (by_name parse_group_version formats attempt found ws)
  unfolding by_name
  Known-by_name w found [] held _ = held
  Known-by_name w found (v ∷ rest) held (fits, more) =
      Known-by_name w (insert v.name v found) rest
        (All-insert (Known w) v.name v found held (refl, fits)) more

  -- What is kept is what stays, for a workspace that runs.
  abbrev pub Agrees : Workspace → Progress → Type 0
  Agrees w p =
      is_kept parse_group_version formats attempt p.keep w.name
      ≡ contains_workspace parse_group_version formats attempt p.next w

  Agrees-kept :
      (w v : Workspace) (entry : WorkspaceConfig) (p : Progress)
      → v.name ≡ entry.name
      → Fits w v
      → Agrees w p
      → Agrees w (kept parse_group_version formats attempt entry v p)
  Agrees-kept w v entry p named fits agrees = ground (
    arith,
    lookup-insert entry.name true p.keep w.name,
    any-append (λ (c : Workspace). eqb c.address w.address) p.next v,
    ap (λ n. n == w.name) named,
  )

  Agrees-launched :
      (w : Workspace) (result : Result LaunchError Workspace) (entry : WorkspaceConfig)
      (running : Option Workspace) (p : Progress)
      → ((built : Workspace) → result ≡ ok built → eqb built.address w.address ≡ false)
      → ((v : Workspace) → running ≡ some v → (v.name ≡ entry.name) × Fits w v)
      → Agrees w p
      → Agrees w (launched parse_group_version formats attempt result entry running p)
  Agrees-launched w (ok built) entry running p elsewhere known agrees = ground (
    arith,
    any-append (λ (c : Workspace). eqb c.address w.address) p.next built,
    elsewhere built refl,
  )
  Agrees-launched w (err e) entry none p elsewhere known agrees = agrees
  Agrees-launched w (err e) entry (some v) p elsewhere known agrees =
      let (named, fits) = known v refl in
      Agrees-kept w v entry (record p { failures = p.failures + 1 }) named fits agrees

  Agrees-apply_entry :
      (w : Workspace) (entry : WorkspaceConfig) (running : Option Workspace) (p : Progress)
      → BuildsElsewhere w
      → ((v : Workspace) → running ≡ some v → (v.name ≡ entry.name) × Fits w v)
      → Agrees w p
      → Agrees w (apply_entry parse_group_version formats attempt entry running p)
  unfolding apply_entry
  Agrees-apply_entry w entry none p elsewhere known agrees =
      Agrees-launched w (launch parse_group_version formats attempt entry) entry none p
        (elsewhere entry) known agrees
  Agrees-apply_entry w entry (some v) p elsewhere known agrees =
      elim (Bool-cases (v.fingerprint == fingerprint formats entry)) [
        | inl same ↦ rw same (Agrees-kept w v entry p ((known v refl).0) ((known v refl).1) agrees)
        | inr differs ↦ rw differs (
            Agrees-launched w (launch parse_group_version formats attempt entry) entry (some v) p
              (elsewhere entry) known agrees)
      ]

  pub Agrees-apply_all :
      (w : Workspace) (running : Map Text Workspace) (desired : List WorkspaceConfig) (p : Progress)
      → BuildsElsewhere w
      → All (Known w) running
      → Agrees w p
      → Agrees w (apply_all parse_group_version formats attempt running desired p)
  unfolding apply_all
  Agrees-apply_all w running [] p elsewhere known agrees = agrees
  Agrees-apply_all w running (entry ∷ rest) p elsewhere known agrees =
      Agrees-apply_all w running rest
        (apply_entry parse_group_version formats attempt entry (lookup entry.name running) p)
        elsewhere known
        (Agrees-apply_entry w entry (lookup entry.name running) p elsewhere
          (λ v found. All-lookup (Known w) running entry.name v known found) agrees)
