-- ===== src/Apiserver/Router/Answers.antt =====
-- What the router of pkg/apiserver/router.go answers at any moment of a run.
use spillway.Prelude.{
  ◌≡◌, refl, sym, true, Option, List, [], ◌∷◌, arith, All, Option-cases, inl, inr, ap, subst,
  is_some,
}
use spillway.Prelude.Text.{Text, text_key}
use spillway.Prelude.Sets.{Sets}
use spillway.Kcp.Api.{GroupVersion, group_version_key}
use spillway.Kcp.Discovery.Refreshes.{IsServing}
use spillway.Apiserver.Router.{Workspace, Router, current, serving_for, owns, configured_for}
use spillway.Kcp.Groups.{matches}
use spillway.Apiserver.Router.Merge.{
  IsFrom, first_serving, address_of, AreDistinct, AreMaps, rebuild-first_serving,
}
use spillway.Apiserver.Router.Coherence.{Reachable, total, current-rebuild}

module _ ⦃S : Sets Text⦄ (parse_group_version : Text → Option GroupVersion) where
  -- At any moment of a run the router sends the requests of a group to the first of its workspaces,
  -- in the order in which it has them, that serves the group then, though an earlier one may be
  -- configured for it, and shows that workspace's description of the group and its resources; it
  -- shows nothing of a group that no workspace serves.
  pub current-first_serving :
      (r : Router) (gv : GroupVersion)
      → Reachable parse_group_version r
      → AreDistinct r.workspaces
      → AreMaps r.workspaces
      → IsFrom (current r).0 gv (first_serving r.workspaces gv.group)
        × (serving_for r gv.group ≡ address_of (first_serving r.workspaces gv.group))
  unfolding serving_for
  current-first_serving r gv reach distinct maps =
      let fresh = current-rebuild parse_group_version r reach in
      let shown =
        subst (λ m. IsFrom m gv (first_serving r.workspaces gv.group)) (sym fresh)
          (rebuild-first_serving (total parse_group_version r.workspaces) r.revision r.workspaces gv
            distinct maps) in
      (shown, shown.owner)

  -- Every workspace's cache has only groups that the workspace is configured for.
  abbrev pub AreServing : List Workspace → Type 0
  AreServing ws = All (λ (w : Workspace). IsServing w.cache × (w.cache.owned ≡ w.groups)) ws

  first_serving-configured :
      (ws : List Workspace) (g : Text)
      → AreServing ws
      → is_some (first_serving ws g) ≡ true
      → is_some (configured_for ws g) ≡ true
  unfolding first_serving configured_for
  first_serving-configured [] g serving h = cc
  first_serving-configured (w ∷ ws) g ((serves, same), serving) h =
      ground
        (arith, serves.covered g, ap (λ m. matches m g) same, first_serving-configured ws g serving)

  -- A group that the router sends somewhere is one that a workspace is configured to serve, when
  -- the caches hold only groups that their workspaces are configured for.
  pub serving_for-owns :
      (r : Router) (g : Text)
      → Reachable parse_group_version r
      → AreDistinct r.workspaces
      → AreMaps r.workspaces
      → AreServing r.workspaces
      → is_some (serving_for r g) ≡ true
      → owns r g ≡ true
  unfolding owns
  serving_for-owns r g reach distinct maps serving h =
      first_serving-configured r.workspaces g serving
        (elim (Option-cases (first_serving r.workspaces g)) [
          | inl nowhere ↦ ground (
            arith,
            (current-first_serving r (record { group = g; version = [] }) reach distinct maps).1,
          )
          | inr (w, found) ↦ rw found refl
        ])
