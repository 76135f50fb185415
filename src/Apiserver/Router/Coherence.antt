-- ===== src/Apiserver/Router/Coherence.antt =====
-- The cached view of pkg/apiserver/router.go over a run of the server: the configuration is
-- replaced, workspaces are read again, and the view is asked for, in any order. Each of these is
-- one step. The counters do not wrap: 2^64 refreshes or replacements do not happen.
use spillway.Prelude.{
  ℕ, ◌+◌, ◌%◌, ◌^◌, ◌<◌, ◌≤◌, ◌≡◌, refl, sym, ◌∙◌, Option, none, some, List, [], ◌∷◌, ◌++◌, arith,
  is_ok, Bool-cases, inl, inr, ap, subst,
}
use spillway.Prelude.Text.{Text, text_key}
use spillway.Prelude.Sets.{Sets}
use spillway.Kcp.Api.{GroupVersion, group_version_key}
use spillway.Kcp.Discovery.{DiscoveryClient, refresh}
use spillway.Kcp.Discovery.Refreshes.{generation-refresh, refresh_or_keep}
use spillway.Apiserver.Router.{
  MergedSnapshot, Workspace, Router, replace, new_router, total_generation, rebuild, is_current,
  current, current_at,
}
use spillway.Apiserver.Router.Merge.{rebuild-stamp}

module _ ⦃S : Sets Text⦄ (parse_group_version : Text → Option GroupVersion) where
  -- The sum of the generations as a number.
  unfoldable pub total : List Workspace → ℕ
  total [] = 0
  total (w ∷ ws) = w.cache.generation + total ws

  abbrev pub read_again : DiscoveryClient → Workspace → Workspace
  read_again client w = record w { cache = (refresh parse_group_version client w.cache).1 }

  -- The routers of a server that started with a new router.
  pub data Reachable : Router → Type 0 where
    started : (ws : List Workspace) → total ws < 2 ^ 64 → Reachable (new_router ws)
    replaced :
        {r : Router} (ws : List Workspace)
        → Reachable r
        → total ws < 2 ^ 64
        → r.revision + 1 < 2 ^ 64
        → Reachable (replace r ws)
    refreshed :
        {r : Router} (before : List Workspace) (w : Workspace) (after : List Workspace)
        (client : DiscoveryClient)
        → Reachable r
        → r.workspaces ≡ before ++ (w ∷ after)
        → total (before ++ (w ∷ after)) + 1 < 2 ^ 64
        → Reachable (record r { workspaces = before ++ (read_again client w ∷ after) })
    asked : {r : Router} → Reachable r → Reachable (current r).1

  total_generation-total : (ws : List Workspace) → total_generation ws ≡ total ws % 2 ^ 64
  unfolding total_generation total
  total_generation-total [] = refl
  total_generation-total (w ∷ ws) = omega (arith, total_generation-total ws)

  total-append :
      (before : List Workspace) (w : Workspace) (after : List Workspace)
      → total (before ++ (w ∷ after)) ≡ w.cache.generation + total (before ++ after)
  unfolding total
  total-append [] w after = refl
  total-append (v ∷ before) w after = omega (arith, total-append before w after)

  abbrev IsHeld : (revision : ℕ) → List Workspace → Option MergedSnapshot → Type 0
  IsHeld revision ws none = Unit
  IsHeld revision ws (some held) =
      (held.revision ≤ revision)
      × (held.revision ≡ revision → held.generation ≤ total ws)
      × (held.revision ≡ revision
          → held.generation ≡ total ws
          → held ≡ rebuild (total ws) revision ws)

  -- The view that is held is older than the workspaces, or it is what they show.
  record IsCoherent (r : Router) : Type 0 where
    bounded : total r.workspaces < 2 ^ 64
    held : IsHeld r.revision r.workspaces r.merged

  IsCoherent-replace :
      (r : Router) (ws : List Workspace)
      → IsCoherent r
      → total ws < 2 ^ 64
      → r.revision + 1 < 2 ^ 64
      → IsCoherent (replace r ws)
  unfolding replace
  IsCoherent-replace r ws v small next = record { bounded = small; held = older r.merged v.held }
    where
      older :
          (m : Option MergedSnapshot)
          → IsHeld r.revision r.workspaces m
          → IsHeld ((r.revision + 1) % 2 ^ 64) ws m
      older none h = tt
      older (some held) (not_newer, _, _) =
          (omega arith, λ e. absurd (omega arith), λ e _. absurd (omega arith))

  current-rebuild_of :
      (r : Router)
      → IsCoherent r
      → (current r).0 ≡ rebuild (total r.workspaces) r.revision r.workspaces
  unfolding current current_at
  current-rebuild_of r v = from r.merged v.held
    where
      now : total_generation r.workspaces ≡ total r.workspaces
      now = omega (arith, total_generation-total r.workspaces, v.bounded)

      from :
          (m : Option MergedSnapshot)
          → IsHeld r.revision r.workspaces m
          → (current_at (total_generation r.workspaces) r.revision r m).0
            ≡ rebuild (total r.workspaces) r.revision r.workspaces
      from none h = rw now refl
      from (some held) (_, _, fresh) =
          elim (Bool-cases (is_current (total r.workspaces) r.revision held)) [
            | inl same ↦ rw (now, same) (fresh (ground arith) (ground arith))
            | inr moved ↦ rw (now, moved) refl
          ]

  IsCoherent-current : (r : Router) → IsCoherent r → IsCoherent (current r).1
  unfolding current current_at
  IsCoherent-current r v = after r.merged v.held
    where
      now : total_generation r.workspaces ≡ total r.workspaces
      now = omega (arith, total_generation-total r.workspaces, v.bounded)

      stamp :
          ((rebuild (total r.workspaces) r.revision r.workspaces).generation ≡ total r.workspaces)
          × ((rebuild (total r.workspaces) r.revision r.workspaces).revision ≡ r.revision)
      stamp = rebuild-stamp (total r.workspaces) r.revision r.workspaces

      rebuilt :
          IsHeld r.revision r.workspaces
            (some (rebuild (total r.workspaces) r.revision r.workspaces))
      rebuilt = (omega (arith, stamp), λ _. omega (arith, stamp), λ _ _. refl)

      after :
          (m : Option MergedSnapshot)
          → IsHeld r.revision r.workspaces m
          → IsCoherent (current_at (total_generation r.workspaces) r.revision r m).1
      after none h = rw now (record { bounded = v.bounded; held = rebuilt })
      after (some held) h = elim (Bool-cases (is_current (total r.workspaces) r.revision held)) [
        | inl same ↦ rw (now, same) v
        | inr moved ↦ rw (now, moved) (record { bounded = v.bounded; held = rebuilt })
      ]

  IsCoherent-refreshed :
      (r : Router) (before : List Workspace) (w : Workspace) (after : List Workspace)
      (client : DiscoveryClient)
      → IsCoherent r
      → r.workspaces ≡ before ++ (w ∷ after)
      → total (before ++ (w ∷ after)) + 1 < 2 ^ 64
      → IsCoherent (record r { workspaces = before ++ (read_again client w ∷ after) })
  IsCoherent-refreshed r before w after client v split small =
      elim (Bool-cases (is_ok (refresh parse_group_version client w.cache).0)) [
        | inr failed ↦
            let kept : (refresh parse_group_version client w.cache).1 ≡ w.cache =
              ground (arith, refresh_or_keep parse_group_version client w.cache) in
            subst (λ ws. IsCoherent (record r { workspaces = ws }))
              (split ∙ ap (λ c. before ++ (record w { cache = c } ∷ after)) (sym kept)) v
        | inl done ↦
            let grown : total (before ++ (read_again client w ∷ after)) ≡ total r.workspaces + 1 =
              ground (
                arith,
                generation-refresh parse_group_version client w.cache,
                total-append before w after,
                total-append before (read_again client w) after,
                ap total split,
              ) in
            record {
              bounded = omega (arith, grown, ap total split);
              held = newer grown r.merged v.held;
            }
      ]
    where
      newer :
          total (before ++ (read_again client w ∷ after)) ≡ total r.workspaces + 1
          → (m : Option MergedSnapshot) → IsHeld r.revision r.workspaces m
          → IsHeld r.revision (before ++ (read_again client w ∷ after)) m
      newer grown none h = tt
      newer grown (some held) (old, bound, fresh) =
          (old, λ e. omega (arith, bound e), λ e same. absurd (omega (arith, bound e)))

  coherent : {r : Router} → Reachable r → IsCoherent r
  unfolding new_router replace
  coherent (started ws small) = record { bounded = small; held = tt }
  coherent (replaced {r = r} ws reach small next) =
      IsCoherent-replace r ws (coherent reach) small next
  coherent (refreshed {r = r} before w after client reach split small) =
      IsCoherent-refreshed r before w after client (coherent reach) split small
  coherent (asked {r = r} reach) = IsCoherent-current r (coherent reach)

  -- At any moment of a run the view that is asked for is the one built from the workspaces as they
  -- are, whatever was held before.
  pub current-rebuild :
      (r : Router)
      → Reachable r
      → (current r).0 ≡ rebuild (total r.workspaces) r.revision r.workspaces
  current-rebuild r reach = current-rebuild_of r (coherent reach)
