-- ===== src/Apiserver/Transport.antt =====
-- `backendTransport` of pkg/apiserver/backend.go: the breaker, the retries and the metrics round
-- each request to kcp. What is outside is an argument: the clock, the transport below, and the
-- request's context, which another goroutine may end at any time.
pub mod Retries
pub mod Outcomes
mod Tests
use spillway.Prelude.{
  ℕ, zero, suc, ◌+◌, ◌*◌, Bool, true, false, ◌&&◌, ◌||◌, not, Option, none, some, List, [], ◌∷◌,
  ◌++◌, if◌then◌else◌, ltb, ◌==◌,
}
use spillway.Prelude.Text.{Text, bytes, text_key}
use spillway.Kcp.Metrics.{
  Metric, Code, status, no_answer, observe_proxy_request, observe_proxy_error, observe_proxy_retry,
}
use spillway.Apiserver.Request.{Request, Body, has_content}
use spillway.Apiserver.Breaker.{Breaker, new_breaker, allow, record_outcome}

-- The errors that `errors.Is` tells apart.
pub data TransportError : Type 0 where
  circuit_open deadline_exceeded canceled connection : TransportError

pub data Reply : Type 0 where
  answered : (status_code : ℕ) → Reply
  failed : TransportError → Reply

pub record BackendTransport : Type 0 where
  pub workspace : Text
  pub breaker : Breaker
  pub retries : ℕ

-- newBackendTransport(workspace, base, options)
unfoldable pub new_backend_transport :
    (workspace : Text) (failure_threshold circuit_cooldown retries : ℕ) → BackendTransport
new_backend_transport workspace failure_threshold circuit_cooldown retries = record {
  workspace = workspace;
  breaker = new_breaker workspace failure_threshold circuit_cooldown;
  retries = retries;
}

-- One round of the retry loop as the outside decides it: whether the context has ended when the
-- round begins, whether it ends before the pause does, and what the transport below answers.
pub record Attempt : Type 0 where
  pub ended_before : Bool
  pub ended_in_pause : Bool
  pub reply : Reply

-- All that the outside decides for one call of `RoundTrip`.
pub record Outside : Type 0 where
  -- the readings of t.now(): for the breaker, before, after, and for the record
  pub asked : ℕ
  pub started : ℕ
  pub ended : ℕ
  pub recorded : ℕ
  pub first : Reply
  pub attempts : ℕ → Attempt
  -- req.Context().Err() at the end
  pub context_error : Option TransportError

-- A call of the transport below, a pause of so many milliseconds, or a write to a metric.
pub data Effect : Type 0 where
  sent : Effect
  paused : ℕ → Effect
  observed : Metric → Effect

unfoldable pub observations : List Metric → List Effect
observations [] = []
observations (m ∷ ms) = observed m ∷ observations ms

-- retriable(req)
unfoldable pub retriable : Request → Bool
retriable req =
    if has_content req.body
    then false
    else (req.method == bytes "GET" || req.method == bytes "HEAD")

-- requestLabels(req)
unfoldable pub request_labels : Request → Text × Text
request_labels req = elim req.info [
  | none ↦ (bytes "unknown", bytes "unknown")
  | some info ↦ (
    if info.verb == [] then bytes "unknown" else info.verb,
    if info.resource == [] then bytes "unknown" else info.resource,
  )
]

-- statusLabel(resp, err)
unfoldable pub status_label : Reply → Code
status_label (failed _) = no_answer
status_label (answered code) = status code

unfoldable pub error_is : TransportError → TransportError → Bool
error_is circuit_open circuit_open = true
error_is deadline_exceeded deadline_exceeded = true
error_is canceled canceled = true
error_is connection connection = true
error_is _ _ = false

abbrev context_is : Option TransportError → TransportError → Bool
context_is none target = false
context_is (some e) target = error_is e target

-- errorReason(ctx, err)
unfoldable pub error_reason : Option TransportError → TransportError → Text
unfolding error_is
error_reason context_error e =
    if error_is e circuit_open
    then bytes "circuit_open"
    else if error_is e deadline_exceeded || context_is context_error deadline_exceeded
    then bytes "timeout"
    else if error_is e canceled || context_is context_error canceled
    then bytes "canceled"
    else bytes "connection"

abbrev pub is_answer : Reply → Bool
is_answer (answered _) = true
is_answer (failed _) = false

-- The loop of `roundTripWithRetries`: the rounds left, the number of this one, the last reply.
unfoldable pub retry_loop :
    (workspace : Text) (attempts : ℕ → Attempt) (left attempt : ℕ) → Reply → Reply × List Effect
unfolding observe_proxy_retry observations
retry_loop workspace attempts zero attempt last = (last, [])
retry_loop workspace attempts (suc left) attempt last =
    let round = attempts attempt in
    let next = retry_loop workspace attempts left (attempt + 1) round.reply in
    if round.ended_before
    then (last, [])
    else if round.ended_in_pause
    then (last, paused ((attempt + 1) * 50) ∷ [])
    else (let made =
          paused ((attempt + 1) * 50)
          ∷ (observations (observe_proxy_retry workspace) ++ sent ∷ []) in
        if is_answer round.reply then (round.reply, made) else (next.0, made ++ next.1))

-- t.roundTripWithRetries(req)
unfoldable pub round_trip_with_retries : BackendTransport → Request → Outside → Reply × List Effect
unfolding retry_loop retriable
round_trip_with_retries t req world =
    if is_answer world.first || not (retriable req)
    then (world.first, sent ∷ [])
    else (let looped = retry_loop t.workspace world.attempts t.retries 0 world.first in
        (looped.0, sent ∷ looped.1))

abbrev pub is_success : Reply → Bool
is_success (answered code) = ltb code 500
is_success (failed _) = false

error_effects : Text → Text × Text → Option TransportError → Reply → List Effect
unfolding observations observe_proxy_error error_reason
error_effects workspace labels context_error (answered _) = []
error_effects workspace labels context_error (failed e) =
    observations (observe_proxy_error workspace (error_reason context_error e) labels.0 labels.1)

-- t.RoundTrip(req)
unfoldable pub round_trip :
    BackendTransport → Request → Outside → Reply × BackendTransport × List Effect
unfolding round_trip_with_retries request_labels status_label error_effects observations
round_trip t req world =
    let labels = request_labels req in
    let (allowed, b, published) = allow t.breaker world.asked in
    if not allowed
    then (
      failed circuit_open,
      record t { breaker = b },
      observations published
          ++ observations
              (observe_proxy_error t.workspace (bytes "circuit_open") labels.0 labels.1),
    )
    else (let (reply, made) = round_trip_with_retries t req world in
        let (b', moved) = record_outcome b (is_success reply) world.recorded in
        (
          reply,
          record t { breaker = b' },
          observations published
              ++ made
              ++ observations (
                  observe_proxy_request t.workspace labels.0 labels.1 (status_label reply)
                    world.started world.ended)
              ++ observations moved
              ++ error_effects t.workspace labels world.context_error reply,
        ))
