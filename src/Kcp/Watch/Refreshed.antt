-- ===== src/Kcp/Watch/Refreshed.antt =====
-- The loop `Run` of pkg/kcp/discovery.go on the signals of pkg/kcp/watch.go: which of its wakeups
-- there are, and what the cache is after them.
use spillway.Prelude.{
  ◌≡◌, ◌∙◌, refl, ap, Bool, true, false, ◌||◌, Option, List, [], ◌∷◌, ◌++◌, All, any, arith,
  if◌then◌else◌,
}
use spillway.Prelude.Text.{Text, text_key}
use spillway.Prelude.Sets.{Sets}
use spillway.Kcp.Api.{GroupVersion}
use spillway.Kcp.Groups.{GroupMatcher}
use spillway.Kcp.Discovery.{
  DiscoveryClient, ResourceCache, Wakeup, cancelled, tick, changed, refresh, run,
}
use spillway.Kcp.Watch.{
  Delivered, crd_event, binding_event, receive, notify, watch_step, is_change, notify_lem,
}

-- What happens to a workspace that is watched: an event of a definition or of a binding, or the loop
-- is ready for a wakeup.
pub data Step : Type 0 where
  crd : Delivered → Step
  binding : Step
  wake : Wakeup → Step

module _ ⦃S : Sets Text⦄ (owned : Option GroupMatcher) where
  -- The wakeups that there are: one by a signal only if a signal is pending, which it receives.
  unfoldable pub wakeups : List Step → (pending : Bool) → List Wakeup
  wakeups [] pending = []
  wakeups (crd object ∷ rest) pending = wakeups rest (watch_step owned (crd_event object) pending)
  wakeups (binding ∷ rest) pending = wakeups rest (watch_step owned binding_event pending)
  wakeups (wake (changed ended_in_pause client) ∷ rest) pending =
      let received = wakeups rest (watch_step owned receive pending) in
      let blocked = wakeups rest pending in
      if pending then changed ended_in_pause client ∷ received else blocked
  wakeups (wake (tick client) ∷ rest) pending = tick client ∷ wakeups rest pending
  wakeups (wake cancelled ∷ rest) pending = cancelled ∷ wakeups rest pending

  -- Whether a step is an event that may change what the workspace serves.
  abbrev pub changes_served : Step → Bool
  changes_served (crd object) = is_change owned (crd_event object)
  changes_served binding = true
  changes_served (wake w) = false

  -- A step at which the loop neither receives nor ends.
  abbrev pub GoesOn : Step → Type 0
  GoesOn (crd object) = Unit
  GoesOn binding = Unit
  GoesOn (wake (tick client)) = Unit
  GoesOn (wake (changed ended_in_pause client)) = ⊥
  GoesOn (wake cancelled) = ⊥

  module _ (parse_group_version : Text → Option GroupVersion) where
    -- The cache after a schedule that starts with that signal pending or not.
    abbrev pub watched : ResourceCache → List Step → (pending : Bool) → ResourceCache
    watched c steps pending = (run parse_group_version c (wakeups steps pending)).0

    abbrev received_or_blocked :
        Bool → ResourceCache → DiscoveryClient → (later : List Step) → ResourceCache
    received_or_blocked signalled c client later =
        if signalled
        then watched (refresh parse_group_version client c).1 later false
        else watched c later false

    watched-since :
        (c : ResourceCache) (since later : List Step) (client : DiscoveryClient) (pending : Bool)
        → All GoesOn since
        → watched c (since ++ wake (changed false client) ∷ later) pending
          ≡ received_or_blocked
              (pending || any changes_served since)
              (watched c since pending)
              client
              later
    unfolding run wakeups
    watched-since c [] later client true quiet = refl
    watched-since c [] later client false quiet = refl
    watched-since c (crd object ∷ since) later client pending (_, quiet) =
        watched-since c since later client (notify owned object pending) quiet
        ∙ ap
            (λ b.
              received_or_blocked b (watched c since (notify owned object pending)) client later)
            (ground (arith, notify_lem owned object pending))
    watched-since c (binding ∷ since) later client true (_, quiet) =
        watched-since c since later client true quiet
    watched-since c (binding ∷ since) later client false (_, quiet) =
        watched-since c since later client true quiet
    watched-since c (wake (tick answers) ∷ since) later client pending (_, quiet) =
        watched-since (refresh parse_group_version answers c).1 since later client pending quiet
    watched-since c (wake (changed ended_in_pause answers) ∷ since) later client pending (ends, _) =
        absurd ends
    watched-since c (wake cancelled ∷ since) later client pending (ends, _) = absurd ends

    -- When the loop next waits for a signal, after any steps since it last received one in which it
    -- does not end, and is not ended in the pause after that signal, it refreshes the cache if
    -- there was a change among them, of a definition in a group that is owned or of a binding:
    -- once, however many there were, with what the workspace answers then, and on top of the
    -- refreshes at ticks. If there was none it waits on, and the cache is as it was.
    pub watched-changes_served :
        (c : ResourceCache) (since later : List Step) (client : DiscoveryClient)
        → All GoesOn since
        → watched c (since ++ wake (changed false client) ∷ later) false ≡ (
            if any changes_served since
            then watched (refresh parse_group_version client (watched c since false)).1 later false
            else watched (watched c since false) later false)
    watched-changes_served c since later client quiet =
        watched-since c since later client false quiet
