-- ===== src/Kcp/Watch.antt =====
-- The signals of pkg/kcp/watch.go: the events of the informers of definitions and of bindings, and
-- the channel with room for one signal that `Run` of the cache receives from.
pub mod Refreshed
mod Tests
use spillway.Prelude.{
  All, ◌↔◌, ◌⊎◌, inl, inr, ◌≡◌, ◌∙◌, refl, ap, Bool, true, false, ◌||◌, Option, none, some, List,
  [], ◌∷◌, if◌then◌else◌, arith,
}
use spillway.Prelude.Text.{Text, text_key}
use spillway.Prelude.Sets.{Sets}
use spillway.Kcp.Groups.{GroupMatcher, matches}

-- What an informer hands over: a definition, by its group, a tombstone with what it holds, or
-- something else.
pub data Delivered : Type 0 where
  definition : (group : Text) → Delivered
  tombstone : (held : Option Text) → Delivered
  other : Delivered

-- crdFrom(obj), of the definition's group
abbrev pub crd_from : Delivered → Option Text
crd_from (definition group) = some group
crd_from (tombstone held) = held
crd_from other = none

-- The channel, by whether a signal is pending; sending is skipped if one is.
abbrev pub send_signal : (pending : Bool) → Bool
send_signal true = true
send_signal false = true

-- An event of the definitions or of the bindings, or a receive by the loop that refreshes.
pub data Event : Type 0 where
  crd_event : Delivered → Event
  binding_event receive : Event

module _ ⦃S : Sets Text⦄ (owned : Option GroupMatcher) where
  -- The handler `notify` of watchCRDs
  unfoldable pub notify : Delivered → (pending : Bool) → Bool
  notify object pending = elim (crd_from object) [
    | none ↦ pending
    | some group ↦ if matches owned group then send_signal pending else pending
  ]

  abbrev pub watch_step : Event → (pending : Bool) → Bool
  watch_step (crd_event object) pending = notify object pending
  watch_step binding_event pending = send_signal pending
  watch_step receive pending = false

  unfoldable pub watch_all : List Event → (pending : Bool) → Bool
  watch_all [] pending = pending
  watch_all (event ∷ rest) pending = watch_all rest (watch_step event pending)

  -- Whether an event may change what the workspace serves: a definition in a group that is owned, or
  -- any binding.
  abbrev pub is_change : Event → Bool
  is_change (crd_event object) = elim (crd_from object) [
    | none ↦ false
    | some group ↦ matches owned group
  ]
  is_change binding_event = true
  is_change receive = false

  abbrev pub is_receive : Event → Bool
  is_receive (crd_event object) = false
  is_receive binding_event = false
  is_receive receive = true

  abbrev pub IsUnread : List Event → Type 0
  IsUnread events = All (λ event. is_receive event ≡ false) events

  -- Some change has no receive after it.
  abbrev pub HasUnread : List Event → Type 0
  HasUnread [] = ⊥
  HasUnread (event ∷ rest) = ((is_change event ≡ true) × IsUnread rest) ⊎ HasUnread rest

  pub notify_lem :
      (object : Delivered) (pending : Bool)
      → notify object pending ≡ (pending || is_change (crd_event object))
  unfolding notify
  notify_lem (definition group) pending = ground arith
  notify_lem (tombstone (some group)) pending = ground arith
  notify_lem (tombstone none) pending = ground arith
  notify_lem other pending = ground arith

  pending_lem :
      (events : List Event) (pending : Bool)
      → (watch_all events pending ≡ true)
        ↔ (((pending ≡ true) × IsUnread events) ⊎ HasUnread events)
  unfolding watch_all
  pending_lem [] pending = ground arith
  pending_lem (receive ∷ rest) pending = ground (arith, pending_lem rest false)
  pending_lem (binding_event ∷ rest) true = ground (arith, pending_lem rest true)
  pending_lem (binding_event ∷ rest) false = ground (arith, pending_lem rest true)
  pending_lem (crd_event object ∷ rest) pending =
      ground (arith, notify_lem object pending, pending_lem rest (notify object pending))

  -- A signal is pending exactly if there is a change, of a definition in a group that is owned or
  -- of a binding, since the last one was received.
  pub watch_all-HasUnread :
      (events : List Event) → (watch_all events false ≡ true) ↔ HasUnread events
  watch_all-HasUnread events = ground (arith, pending_lem events false)
