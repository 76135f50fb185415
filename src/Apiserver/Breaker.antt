-- ===== src/Apiserver/Breaker.antt =====
-- The circuit breaker of pkg/apiserver/backend.go. Each method holds the lock from its first line
-- to its last, so it is one step; times are numbers of nanoseconds.
pub mod Invariant
pub mod Probes
mod Tests
use spillway.Prelude.{ℕ, ◌+◌, Bool, true, false, ◌||◌, List, [], ◌∷◌, if◌then◌else◌, ltb, leb}
use spillway.Prelude.Text.{Text, bytes}
use spillway.Kcp.Metrics.{Metric, set_circuit_state}

pub data CircuitState : Type 0 where
  closed open_circuit half_open : CircuitState

unfoldable pub state_eq : CircuitState → CircuitState → Bool
state_eq closed closed = true
state_eq open_circuit open_circuit = true
state_eq half_open half_open = true
state_eq _ _ = false

unfoldable pub state_string : CircuitState → Text
state_string open_circuit = bytes "open"
state_string half_open = bytes "half-open"
state_string closed = bytes "closed"

pub record Breaker : Type 0 where
  pub workspace : Text
  pub threshold : ℕ
  pub cooldown : ℕ
  pub state : CircuitState
  pub failures : ℕ
  pub open_until : ℕ
  pub probing : Bool

unfoldable pub new_breaker : (workspace : Text) (threshold cooldown : ℕ) → Breaker
new_breaker workspace threshold cooldown = record {
  workspace = workspace;
  threshold = threshold;
  cooldown = cooldown;
  state = closed;
  failures = 0;
  open_until = 0;
  probing = false;
}

-- b.open()
unfoldable pub is_open : Breaker → Bool
unfolding state_eq
is_open b = state_eq b.state open_circuit

-- b.setState(next), and what it publishes
unfoldable pub set_state : Breaker → CircuitState → Breaker × List Metric
unfolding state_eq
set_state b next =
    if state_eq b.state next
    then (b, [])
    else (record b { state = next }, set_circuit_state b.workspace (state_string next))

allow_in : CircuitState → Breaker → (now : ℕ) → Bool × Breaker × List Metric
unfolding set_state
allow_in open_circuit b now =
    if ltb now b.open_until
    then (false, b, [])
    else (let (b', published) = set_state b half_open in
        (true, record b' { probing = true }, published))
allow_in half_open b now =
    if b.probing then (false, b, []) else (true, record b { probing = true }, [])
allow_in closed b now = (true, b, [])

-- b.allow(now)
unfoldable pub allow : Breaker → (now : ℕ) → Bool × Breaker × List Metric
unfolding allow_in
allow b now = allow_in b.state b now

-- b.record(succeeded, now)
unfoldable pub record_outcome : Breaker → (succeeded : Bool) (now : ℕ) → Breaker × List Metric
unfolding set_state state_eq
record_outcome b true now = set_state (record b { failures = 0; probing = false }) closed
record_outcome b false now =
    if state_eq b.state half_open || leb b.threshold (b.failures + 1)
    then set_state (record b { failures = 0; probing = false; open_until = now + b.cooldown })
        open_circuit
    else (record b { failures = b.failures + 1 }, [])
