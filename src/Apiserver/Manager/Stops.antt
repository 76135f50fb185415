-- ===== src/Apiserver/Manager/Stops.antt =====
-- Which workspaces a round of pkg/apiserver/workspacemanager.go stops.
use spillway.Prelude.{
  ℕ, zero, suc, ◌+◌, ◌++◌, ◌≡◌, ◌↔◌, refl, sym, ◌∙◌, Bool, true, false, Option, some, List, [], ◌∷◌,
  Any, Any-append, arith, if◌then◌else◌, eqb, ==_iff, Bool-cases, inl, inr, ap, All, subst,
}
use spillway.Prelude.Text.{Text, bytes, text_key}
use spillway.Prelude.Maps.{lookup}
use spillway.Prelude.Sets.{Sets}
use spillway.Kcp.Metrics.{observe_workspace_reload}
use spillway.Kcp.Api.{GroupVersion}
use spillway.Apiserver.Router.{Workspace, Router, replace}
use spillway.Apiserver.Manager.{
  WorkspaceConfig, Formats, Attempt, Progress, Effect, stopped, replaced, changed, observed,
  by_name, kept, apply_all, no_progress, remove_all, reconcile, is_kept, contains_workspace,
  failure_effects,
}
use spillway.Apiserver.Manager.Agreement.{
  Fits, BuildsElsewhere, Known-by_name, Agrees, Agrees-apply_all,
}

module _ ⦃S : Sets Text⦄ (parse_group_version : Text → Option GroupVersion) (formats : Formats)
    (attempt : WorkspaceConfig → Attempt) where
  -- Whether the second loop stops a workspace, and that it counts one that is gone.
  not_kept-remove_all :
      (w : Workspace) (p : Progress) (ws : List Workspace)
      → All (Fits w) ws
      → Any (λ e. e ≡ stopped w.address) (remove_all parse_group_version formats attempt p ws).1
      → is_kept parse_group_version formats attempt p.keep w.name ≡ false
  unfolding remove_all
  not_kept-remove_all w p [] fits stop = absurd stop
  not_kept-remove_all w p (v ∷ rest) (fit, fits) stop =
      elim (Bool-cases (is_kept parse_group_version formats attempt p.keep v.name)) [
        | inl kept ↦ not_kept-remove_all w p rest fits (rw kept at stop)
        | inr gone ↦ elim (rw gone at stop) [
          | inl this ↦
              let same : v.name ≡ w.name = (==_iff v.name w.name).0 (ground (arith, fit, this)) in
              subst (λ n. is_kept parse_group_version formats attempt p.keep n ≡ false) same gone
          | inr later ↦ not_kept-remove_all w p rest fits later
        ]
      ]

  stopped-remove_all :
      (w : Workspace) (p : Progress) (ws : List Workspace)
      → Any (λ v. v ≡ w) ws
      → is_kept parse_group_version formats attempt p.keep w.name ≡ false
      → Any (λ e. e ≡ stopped w.address) (remove_all parse_group_version formats attempt p ws).1
  unfolding remove_all
  stopped-remove_all w p [] here gone = absurd here
  stopped-remove_all w p (v ∷ rest) (inl this) gone =
      let first : is_kept parse_group_version formats attempt p.keep v.name ≡ false =
        subst (λ u. is_kept parse_group_version formats attempt p.keep u.name ≡ false) (sym this)
          gone in
      rw first (inl (ap (λ u. stopped u.address) this))
  stopped-remove_all w p (v ∷ rest) (inr later) gone =
      let stop = stopped-remove_all w p rest later gone in
      elim (Bool-cases (is_kept parse_group_version formats attempt p.keep v.name)) [
        | inl kept ↦ rw kept stop
        | inr other ↦ rw other (inr stop)
      ]

  counted-remove_all :
      (w : Workspace) (p : Progress) (ws : List Workspace)
      → Any (λ v. v ≡ w) ws
      → is_kept parse_group_version formats attempt p.keep w.name ≡ false
      → contains_workspace parse_group_version formats attempt p.next w ≡ false
      → eqb (remove_all parse_group_version formats attempt p ws).0 0 ≡ false
  unfolding remove_all
  counted-remove_all w p [] here gone out = absurd here
  counted-remove_all w p (v ∷ rest) (inl this) gone out =
      let first : is_kept parse_group_version formats attempt p.keep v.name ≡ false =
        subst (λ u. is_kept parse_group_version formats attempt p.keep u.name ≡ false) (sym this)
          gone in
      let absent : contains_workspace parse_group_version formats attempt p.next v ≡ false =
        subst (λ u. contains_workspace parse_group_version formats attempt p.next u ≡ false)
          (sym this) out in
      rw (first, absent) (ground arith)
  counted-remove_all w p (v ∷ rest) (inr later) gone out =
      ground (arith, counted-remove_all w p rest later gone out)

  no-failure_effects :
      (a : ℕ) (n : ℕ)
      → Any (λ e. e ≡ stopped a) (failure_effects parse_group_version formats attempt n)
      → ⊥
  unfolding failure_effects
  no-failure_effects a zero here = here
  no-failure_effects a (suc n) (inl e) = cc e
  no-failure_effects a (suc n) (inr more) = no-failure_effects a n more

  -- The stops among the effects are those of the second loop.
  stops_only :
      (a n : ℕ) (removed later : List Effect)
      → (Any (λ e. e ≡ stopped a) later → ⊥)
      → Any
          (λ e. e ≡ stopped a)
          (failure_effects parse_group_version formats attempt n ++ removed ++ later)
        ↔ Any (λ e. e ≡ stopped a) removed
  stops_only a n removed later none_later = ground (
    arith,
    Any-append (λ e. e ≡ stopped a)
        (failure_effects parse_group_version formats attempt n ++ removed) later,
    Any-append (λ e. e ≡ stopped a) (failure_effects parse_group_version formats attempt n) removed,
    no-failure_effects a n,
    none_later,
  )

  stops_here :
      (a n : ℕ) (removed : List Effect)
      → Any (λ e. e ≡ stopped a) (failure_effects parse_group_version formats attempt n ++ removed)
        ↔ Any (λ e. e ≡ stopped a) removed
  stops_here a n removed = ground (
    arith,
    Any-append (λ e. e ≡ stopped a) (failure_effects parse_group_version formats attempt n) removed,
    no-failure_effects a n,
  )

  after_stops :
      (a : ℕ) (next : List Workspace) (has_on_change : Bool)
      → Any
          (λ e. e ≡ stopped a)
          (replaced next
            ∷ observed (observe_workspace_reload (bytes "reloaded"))
            ∷ (if has_on_change then changed ∷ [] else []))
      → ⊥
  after_stops a next b (inl e) = cc e
  after_stops a next b (inr (inl e)) = cc e
  after_stops a next true (inr (inr (inl e))) = cc e
  after_stops a next true (inr (inr (inr e))) = e
  after_stops a next false (inr (inr e)) = e

  -- A workspace that runs is not stopped where the second loop counts nothing.
  still :
      (w : Workspace) (p : Progress) (ws : List Workspace)
      → Any (λ v. v ≡ w) ws
      → Agrees parse_group_version formats attempt w p
      → All (Fits w) ws
      → eqb (remove_all parse_group_version formats attempt p ws).0 0 ≡ true
      → Any (λ e. e ≡ stopped w.address) (remove_all parse_group_version formats attempt p ws).1
      → ⊥
  still w p ws running agrees fits none_counted stop =
      let gone = not_kept-remove_all w p ws fits stop in
      let counted = counted-remove_all w p ws running gone (sym agrees ∙ gone) in
      cc (none_counted, counted)

  contains-running :
      (w : Workspace) (ws : List Workspace)
      → Any (λ v. v ≡ w) ws
      → contains_workspace parse_group_version formats attempt ws w ≡ true
  contains-running w [] here = absurd here
  contains-running w (v ∷ ws) (inl this) = rw this (ground arith)
  contains-running w (v ∷ ws) (inr more) = ground (arith, contains-running w ws more)

  -- A round stops a workspace that runs exactly when the router does not have it afterwards, when
  -- names tell the running workspaces apart and a new workspace is at no running one's address.
  pub stops-reconcile :
      (r : Router) (has_on_change : Bool) (desired : List WorkspaceConfig) (w : Workspace)
      → Any (λ v. v ≡ w) r.workspaces
      → All (Fits w) r.workspaces
      → BuildsElsewhere parse_group_version formats attempt w
      → Any
          (λ e. e ≡ stopped w.address)
          (reconcile parse_group_version formats attempt r has_on_change (some desired)).1
        ↔ (contains_workspace parse_group_version formats attempt
              (reconcile parse_group_version formats attempt r has_on_change
                (some desired)).2.workspaces
              w
            ≡ false)
  unfolding reconcile replace lookup
  stops-reconcile r has_on_change desired w running fits elsewhere =
      let p =
        apply_all parse_group_version formats attempt
          (by_name parse_group_version formats attempt [] r.workspaces) desired
          (no_progress parse_group_version formats attempt) in
      let agrees : Agrees parse_group_version formats attempt w p =
        Agrees-apply_all parse_group_version formats attempt w
          (by_name parse_group_version formats attempt [] r.workspaces) desired
          (no_progress parse_group_version formats attempt) elsewhere
          (Known-by_name parse_group_version formats attempt w [] r.workspaces tt fits) refl in
      let removed = remove_all parse_group_version formats attempt p r.workspaces in
      let stops = stops_here w.address p.failures removed.1 in
      let stops_then = λ (next : List Workspace).
        stops_only w.address p.failures removed.1
          (replaced next
            ∷ observed (observe_workspace_reload (bytes "reloaded"))
            ∷ (if has_on_change then changed ∷ [] else []))
          (after_stops w.address next has_on_change) in
      elim (Bool-cases (eqb (p.changes + removed.0) 0)) [
        | inl same ↦ rw same (
          λ stop.
              absurd
                (still w p r.workspaces running agrees fits (ground (arith, same)) (stops.0 stop)),
          λ absent. cc (absent, contains-running w r.workspaces running),
        )
        | inr moved ↦ rw moved (
          λ stop.
              sym agrees ∙ not_kept-remove_all w p r.workspaces fits ((stops_then p.next).0 stop),
          λ absent.
              (stops_then p.next).1 (stopped-remove_all w p r.workspaces running (agrees ∙ absent)),
        )
      ]
