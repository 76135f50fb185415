-- ===== src/Server/Options/Started.antt =====
-- The options of pkg/cmd/server/options.go at the start of the server and when it reloads.
use spillway.Prelude.{
  ◌≡◌, ◌⊎◌, refl, ap, true, false, Option, none, some, List, [], Result, ok, err, ◌==◌, Bool-cases,
  Result-cases, inl, inr, subst,
}
use spillway.Prelude.Text.{Text, text_key, text_eq}
use spillway.Prelude.Sets.{Sets}
use spillway.Kcp.Groups.{GroupMatcher, parse_group_matcher}
use spillway.Apiserver.Registrar.{validate}
use spillway.Apiserver.Manager.{WorkspaceConfig}
use spillway.Server.Workspaces.{WorkspaceEntry, LoadError}
use spillway.Server.Options.{
  ServerOptions, ServerOptionError, none_given, of_file, load, validate_source, validate_numbers,
  validate_registration, validate_options, workspaces_of, reload_workspaces,
}
use spillway.Server.Options.Config.{ExtraConfig, extra_config, config, new_server_options}

module _ ⦃S : Sets Text⦄ (read : (path : Text) → Option Text)
    (parse : Text → Option (List WorkspaceEntry)) where
  source-new_server_options :
      (namespace : Text) (groups : List Text) (m : GroupMatcher)
      → none_given groups ≡ false
      → parse_group_matcher groups ≡ ok m
      → validate_source read parse (record (new_server_options namespace) { api_groups = groups })
        ≡ []
  unfolding validate_source new_server_options text_eq
  source-new_server_options namespace groups m given parsed =
      rw (given, validate_source, parsed) refl

  -- The options as they are by default pass validation once they are given patterns of groups that
  -- parse.
  pub validate_options-new_server_options :
      (namespace : Text) (groups : List Text) (m : GroupMatcher)
      → none_given groups ≡ false
      → parse_group_matcher groups ≡ ok m
      → validate_options read parse []
          (record (new_server_options namespace) { api_groups = groups })
        ≡ []
  unfolding validate_options new_server_options validate_numbers validate_registration validate
  validate_options-new_server_options namespace groups m given parsed =
      rw (source-new_server_options namespace groups m given parsed) refl

  of_file_inv :
      (r : Result LoadError (List WorkspaceConfig)) (ws : List WorkspaceConfig)
      → of_file r ≡ ok ws
      → r ≡ ok ws
  of_file_inv (ok configs) ws h = let e : configs ≡ ws = cc (h) in ap ok e
  of_file_inv (err reason) ws h = absurd (cc (h))

  -- What is loaded is what is loaded again.
  abbrev pub IsReloaded : ServerOptions → ExtraConfig → Type 0
  IsReloaded o x =
      (((o.workspaces_file == []) ≡ true) × (x.reload ≡ none))
      ⊎ (((o.workspaces_file == []) ≡ false) × (x.reload ≡ some (ok x.workspaces)))

  IsReloaded-extra_config :
      (o : ServerOptions) (ws : List WorkspaceConfig)
      → workspaces_of read parse o ≡ ok ws
      → IsReloaded o (extra_config read parse ws o)
  unfolding workspaces_of reload_workspaces
  IsReloaded-extra_config o ws h = elim (Bool-cases (o.workspaces_file == [])) [
    | inl flags ↦ inl (flags, rw (flags, reload_workspaces) refl)
    | inr file ↦
        let e : load read parse o ≡ ok ws = of_file_inv _ ws (rw (file, workspaces_of) at h) in
        inr (file, rw (file, reload_workspaces) (ap some e))
  ]

  -- The configuration of a server that starts from a file reloads to the workspaces that it starts
  -- with, while the file reads as it did; one that starts from the flags does not reload.
  pub config-IsReloaded :
      (o : ServerOptions) (x : ExtraConfig) → config read parse o ≡ ok x → IsReloaded o x
  unfolding config
  config-IsReloaded o x h = elim (Result-cases (workspaces_of read parse o)) [
    | inr (reason, bad) ↦ absurd (cc (rw (bad, config) at h))
    | inl (ws, good) ↦
        let e : ◌≡◌ {A = Result ServerOptionError ExtraConfig} (ok (extra_config read parse ws o))
            (ok x) =
          rw (good, config) at h in
        let same : extra_config read parse ws o ≡ x = cc (e) in
        subst (IsReloaded o) same (IsReloaded-extra_config o ws good)
  ]
