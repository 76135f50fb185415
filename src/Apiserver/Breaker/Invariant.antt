-- ===== src/Apiserver/Breaker/Invariant.antt =====
-- What holds of the breaker of pkg/apiserver/backend.go under every interleaving of requests.
use spillway.Prelude.{
  ℕ, ◌+◌, ◌<◌, ◌≡◌, refl, ◌∙◌, ◌↔◌, Bool, true, false, ◌||◌, List, [], ◌∷◌, ◌++◌, ◌&&◌,
  if◌then◌else◌, ltb, leb, arith, ◌==◌, Bool-cases, inl, inr, ==-refl,
}
use spillway.Prelude.Text.{Text, text_key, text_eq}
use spillway.Kcp.Metrics.{Metric, circuit_state, set_circuit_state, publish_workspace}
use spillway.Apiserver.Breaker.{
  CircuitState, closed, open_circuit, half_open, state_eq, state_string, Breaker, new_breaker,
  set_state, allow_in, allow, record_outcome,
}

-- What a request does to the breaker: it asks to be sent, and its outcome is recorded. Several
-- requests interleave in any order, so an outcome may be that of a request let in long before.
pub data Event : Type 0 where
  ask : (now : ℕ) → Event
  outcome : (succeeded : Bool) (now : ℕ) → Event

unfoldable pub step : Breaker → Event → Breaker × List Metric
step b (ask now) = let (_, b', published) = allow b now in (b', published)
step b (outcome succeeded now) = record_outcome b succeeded now

-- The breaker after the events, and all that it published.
unfoldable pub run : Breaker → List Event → Breaker × List Metric
unfolding step
run b [] = (b, [])
run b (e ∷ es) = let (b', first) = step b e in let (last, rest) = run b' es in (last, first ++ rest)

pub record IsValid (b : Breaker) : Type 0 where
  pub under_threshold : b.failures < b.threshold
  pub probe : (b.state ≡ half_open) ↔ (b.probing ≡ true)

pub allow-IsValid : (b : Breaker) (now : ℕ) → IsValid b → IsValid (allow b now).1
unfolding allow
allow-IsValid b now v = ground (arith, v.under_threshold, v.probe)

pub record_outcome-IsValid :
    (b : Breaker) (succeeded : Bool) (now : ℕ)
    → IsValid b
    → IsValid (record_outcome b succeeded now).0
unfolding record_outcome
record_outcome-IsValid b true now v = ground (arith, v.under_threshold, v.probe)
record_outcome-IsValid b false now v = ground (arith, v.under_threshold, v.probe)

pub step-IsValid : (b : Breaker) (e : Event) → IsValid b → IsValid (step b e).0
unfolding step
step-IsValid b (ask now) v = allow-IsValid b now v
step-IsValid b (outcome succeeded now) v = record_outcome-IsValid b succeeded now v

run_keeps : (b : Breaker) (es : List Event) → IsValid b → IsValid (run b es).0
unfolding run
run_keeps b [] v = v
run_keeps b (e ∷ es) v = run_keeps (step b e).0 es (step-IsValid b e v)

-- From a new breaker with a positive threshold, after any interleaving of requests: fewer failures
-- are counted than the threshold, and a probe is out exactly while the circuit is half open.
pub run-IsValid :
    (workspace : Text) (threshold cooldown : ℕ) (es : List Event)
    → 0 < threshold
    → IsValid (run (new_breaker workspace threshold cooldown) es).0
unfolding new_breaker
run-IsValid workspace threshold cooldown es h =
    run_keeps (new_breaker workspace threshold cooldown) es (ground arith)

-- The value of a workspace's series for a state after the writes, from the value before.
unfoldable pub gauge : (workspace state : Text) → List Metric → (before : ℕ) → ℕ
gauge workspace state [] before = before
gauge workspace state (circuit_state w s value ∷ ms) before =
    gauge workspace state ms (if w == workspace && s == state then value else before)
gauge workspace state (_ ∷ ms) before = gauge workspace state ms before

abbrev pub flag : CircuitState → CircuitState → ℕ
flag s current = if state_eq s current then 1 else 0

gauge-append :
    (w s : Text) (xs ys : List Metric) (before : ℕ)
    → gauge w s (xs ++ ys) before ≡ gauge w s ys (gauge w s xs before)
unfolding gauge
gauge-append w s [] ys before = refl
gauge-append w s (circuit_state w' s' v ∷ xs) ys before =
    gauge-append w s xs ys (if w' == w && s' == s then v else before)
gauge-append w s (_ ∷ xs) ys before = gauge-append w s xs ys before

-- A write of one state sets its series to 1 and the two others to 0.
pub gauge-set_circuit_state :
    (w : Text) (s next : CircuitState) (before : ℕ)
    → gauge w (state_string s) (set_circuit_state w (state_string next)) before ≡ flag s next
unfolding gauge set_circuit_state state_eq state_string text_eq
gauge-set_circuit_state w closed closed before = rw (==-refl w) refl
gauge-set_circuit_state w closed open_circuit before = rw (==-refl w) refl
gauge-set_circuit_state w closed half_open before = rw (==-refl w) refl
gauge-set_circuit_state w open_circuit closed before = rw (==-refl w) refl
gauge-set_circuit_state w open_circuit open_circuit before = rw (==-refl w) refl
gauge-set_circuit_state w open_circuit half_open before = rw (==-refl w) refl
gauge-set_circuit_state w half_open closed before = rw (==-refl w) refl
gauge-set_circuit_state w half_open open_circuit before = rw (==-refl w) refl
gauge-set_circuit_state w half_open half_open before = rw (==-refl w) refl

-- The series show the state that the breaker has.
abbrev Shows : Breaker → (Breaker × List Metric) → CircuitState → Type 0
Shows b (b', ms) s =
    (gauge b.workspace (state_string s) ms (flag s b.state) ≡ flag s b'.state)
    × (b'.workspace ≡ b.workspace)

set_state-Shows : (b : Breaker) (next s : CircuitState) → Shows b (set_state b next) s
unfolding set_state gauge
set_state-Shows b next s = elim (Bool-cases (state_eq b.state next)) [
  | inl same ↦ rw same (refl, refl)
  | inr other ↦ rw other (gauge-set_circuit_state b.workspace s next (flag s b.state), refl)
]

allow_in-Shows :
    (st : CircuitState) (b : Breaker) (now : ℕ) (s : CircuitState)
    → Shows b ((allow_in st b now).1, (allow_in st b now).2) s
unfolding allow_in gauge
allow_in-Shows closed b now s = (refl, refl)
allow_in-Shows open_circuit b now s = elim (Bool-cases (ltb now b.open_until)) [
  | inl early ↦ rw early (refl, refl)
  | inr late ↦ rw late (set_state-Shows b half_open s)
]
allow_in-Shows half_open b now s = elim (Bool-cases b.probing) [
  | inl busy ↦ rw busy (refl, refl)
  | inr free ↦ rw free (refl, refl)
]

step-Shows : (b : Breaker) (e : Event) (s : CircuitState) → Shows b (step b e) s
unfolding step record_outcome allow
step-Shows b (ask now) s = allow_in-Shows b.state b now s
step-Shows b (outcome true now) s =
    set_state-Shows (record b { failures = 0; probing = false }) closed s
step-Shows b (outcome false now) s =
    elim (Bool-cases (state_eq b.state half_open || leb b.threshold (b.failures + 1))) [
      | inl opens ↦ rw opens (
          set_state-Shows
            (record b { failures = 0; probing = false; open_until = now + b.cooldown }) open_circuit
            s)
      | inr counts ↦ rw counts (unfold gauge in (refl, refl))
    ]

run-Shows : (b : Breaker) (es : List Event) (s : CircuitState) → Shows b (run b es) s
unfolding run gauge
run-Shows b [] s = (refl, refl)
run-Shows b (e ∷ es) s =
    let (b', first) = step b e in
    let (last, rest) = run b' es in
    let now = step-Shows b e s in
    let later = run-Shows b' es s in
    (rw gauge-append (rw now.0 (rw now.1 at later.0)), later.1 ∙ now.1)

gauge-publish_workspace :
    (w : Text) (s : CircuitState) → gauge w (state_string s) (publish_workspace w) 0 ≡ flag s closed
unfolding publish_workspace state_string
gauge-publish_workspace w s = gauge-set_circuit_state w s closed 0

-- After any interleaving of requests at a new breaker whose workspace was published, the series
-- of a state is 1 if the breaker is in that state and 0 if it is not.
pub gauge-run :
    (workspace : Text) (threshold cooldown : ℕ) (es : List Event) (s : CircuitState)
    → gauge workspace
        (state_string s)
        (publish_workspace workspace ++ (run (new_breaker workspace threshold cooldown) es).1)
        0
      ≡ (if state_eq s (run (new_breaker workspace threshold cooldown) es).0.state then 1 else 0)
unfolding new_breaker
gauge-run workspace threshold cooldown es s =
    rw (gauge-append, gauge-publish_workspace)
      (run-Shows (new_breaker workspace threshold cooldown) es s).0
