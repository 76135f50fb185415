-- ===== src/Server/Options/Resolved.antt =====
-- What options are good for once `Validate` of pkg/cmd/server/options.go has passed them.
use spillway.Prelude.{
  ◌≡◌, ◌≢◌, ◌∙◌, refl, ap, ◌||◌, not, Option, List, [], ◌∷◌, ◌++◌, map, any, Result, ok, err, ◌==◌,
  All, Bool-cases, Result-cases, inl, inr, arith,
}
use spillway.Prelude.Text.{Text, text_key}
use spillway.Prelude.Sets.{Sets}
use spillway.Kcp.Groups.{GroupMatcher, GroupError, parse_group_matcher}
use spillway.Apiserver.Manager.{WorkspaceConfig}
use spillway.Server.Workspaces.{validate_backend, backend_options, WorkspaceEntry, Defaults}
use spillway.Server.Workspaces.Distinct.{IsUsable, IsComplete, AreOf, validate_backend-IsUsable}
use spillway.Server.Workspaces.Accepted.{load_workspaces-ArePairwise}
use spillway.Server.Options.{
  ServerOptions, ServerOptionError, generic, workspace_defaults, none_given, validate_numbers,
  validate_registration, file_errors, pattern_errors, set_of, single, single_of, of_file,
  complete_options, load, validate_source, validate_options, workspaces_of,
}

append-empty : {A : Type 0} (xs ys : List A) → xs ++ ys ≡ [] → (xs ≡ []) × (ys ≡ [])
append-empty [] ys h = (refl, h)
append-empty (x ∷ xs) ys h = absurd (cc (h))

IsUsable-validate_numbers :
    (o : ServerOptions) → validate_numbers o ≡ [] → IsUsable (backend_options o.backend)
unfolding validate_numbers validate_backend
IsUsable-validate_numbers o h = validate_backend-IsUsable o.backend (ground (arith, h))

AreOf-empty :
    ⦃S : Sets Text⦄ (defaults : Defaults) (entries : List WorkspaceEntry)
    (configs : List WorkspaceConfig)
    → AreOf defaults entries configs
    → entries ≢ []
    → configs ≢ []
AreOf-empty defaults [] [] listed some_there = absurd (some_there refl)
AreOf-empty defaults (entry ∷ rest) [] listed some_there = absurd listed
AreOf-empty defaults entries (c ∷ more) listed some_there = λ e. absurd (cc (e))

module _ ⦃S : Sets Text⦄ (read : (path : Text) → Option Text)
    (parse : Text → Option (List WorkspaceEntry)) where
  -- Some workspaces, each with a time for requests, a threshold and a cooldown.
  abbrev pub IsResolved : Result ServerOptionError (List WorkspaceConfig) → Type 0
  IsResolved r =
      (ws : List WorkspaceConfig) × (r ≡ ok ws) × (ws ≢ []) × All (λ c. IsUsable c.backend) ws

  IsUsable-All : (ws : List WorkspaceConfig) → All IsComplete ws → All (λ c. IsUsable c.backend) ws
  IsUsable-All [] _ = tt
  IsUsable-All (c ∷ rest) ((_, _, usable), more) = (usable, IsUsable-All rest more)

  IsResolved-of_file :
      (o : ServerOptions)
      → file_errors (load read parse o) ≡ []
      → IsResolved (of_file (load read parse o))
  IsResolved-of_file o h = elim (Result-cases (load read parse o)) [
    | inr (reason, bad) ↦ absurd (cc (rw (bad, file_errors) at h))
    | inl (ws, good) ↦
        let (_, entries, _, _, nonempty, listed, complete, _) =
          load_workspaces-ArePairwise (workspace_defaults o) (read o.workspaces_file) parse ws
            good in
        (
          ws,
          rw (good, of_file) refl,
          AreOf-empty (workspace_defaults o) entries ws listed nonempty,
          IsUsable-All ws complete,
        )
  ]

  IsResolved-single_of :
      (o : ServerOptions) (r : Result GroupError GroupMatcher)
      → IsUsable (backend_options o.backend)
      → pattern_errors r ≡ []
      → IsResolved (single_of o r)
  IsResolved-single_of o (ok groups) usable h =
      (single o groups ∷ [], refl, (λ e. absurd (cc (e))), (usable, tt))
  IsResolved-single_of o (err reason) usable h = absurd (cc (h))

  IsResolved-workspaces_of :
      (o : ServerOptions)
      → IsUsable (backend_options o.backend)
      → validate_source read parse o ≡ []
      → IsResolved (workspaces_of read parse o)
  unfolding validate_source workspaces_of
  IsResolved-workspaces_of o usable h = elim (Bool-cases (o.workspaces_file == [])) [
    | inr file ↦ elim (Bool-cases (not (none_given o.api_groups) || not (o.kcp_kubeconfig == []))) [
      | inl both ↦ absurd (cc (rw (file, validate_source, both) at h))
      | inr alone ↦
          rw (file, workspaces_of) (IsResolved-of_file o (rw (file, validate_source, alone) at h))
    ]
    | inl flags ↦ elim (Bool-cases (none_given o.api_groups)) [
      | inl nothing ↦ absurd (cc (rw (flags, validate_source, nothing) at h))
      | inr given ↦
          rw (flags, workspaces_of)
            (IsResolved-single_of o (parse_group_matcher o.api_groups) usable
              (rw (flags, validate_source, given) at h))
    ]
  ]

  -- Options that pass validation resolve to at least one workspace, from the file or from the flags,
  -- while the file reads as it did; the requests to each have a positive timeout, and its circuit a
  -- positive threshold and cooldown.
  pub validate_options-IsResolved :
      (recommended : List Text) (o : ServerOptions)
      → validate_options read parse recommended o ≡ []
      → IsResolved (workspaces_of read parse o)
  unfolding validate_options
  validate_options-IsResolved recommended o h =
      let (_, own) = append-empty (map generic recommended) _ h in
      let (source, rest) = append-empty (validate_source read parse o) _ own in
      let (numbers, _) = append-empty (validate_numbers o) (validate_registration o) rest in
      IsResolved-workspaces_of o (IsUsable-validate_numbers o numbers) source

module _ ⦃S : Sets Text⦄ where
  has-set_of : (groups : List Text) (g : Text) → S.has (set_of groups) g ≡ any (λ j. j == g) groups
  unfolding set_of
  has-set_of [] g = S.has-empty g
  has-set_of (group ∷ rest) g =
      S.has-insert (set_of rest) group g ∙ ap (λ b. group == g || b) (has-set_of rest g)

  -- Completing the options keeps the groups that are named, and names no other.
  pub any-complete_options :
      (o : ServerOptions) (g : Text)
      → any (λ j. j == g) (complete_options o).api_groups ≡ any (λ j. j == g) o.api_groups
  unfolding complete_options
  any-complete_options o g = elim (Bool-cases (none_given o.api_groups)) [
    | inl nothing ↦ rw (nothing, complete_options) refl
    | inr given ↦
        rw (given, complete_options)
          (S.any-list (set_of o.api_groups) g ∙ has-set_of o.api_groups g)
  ]
