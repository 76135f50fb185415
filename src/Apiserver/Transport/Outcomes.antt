-- ===== src/Apiserver/Transport/Outcomes.antt =====
-- What a request through `RoundTrip` of pkg/apiserver/backend.go does to the circuit.
use spillway.Prelude.{
  ℕ, suc, ◌+◌, ◌<◌, ◌≡◌, refl, true, false, List, [], ◌∷◌, arith, if◌then◌else◌, Bool-cases, inl,
  inr, ap, sym, ◌∙◌, length, All,
}
use spillway.Prelude.Text.{Text}
use spillway.Kcp.Metrics.{observe_proxy_error}
use spillway.Apiserver.Request.{Request}
use spillway.Apiserver.Breaker.{Breaker, new_breaker, closed, open_circuit, allow, record_outcome}
use spillway.Apiserver.Breaker.Invariant.{IsValid, allow-IsValid, record_outcome-IsValid}
use spillway.Apiserver.Breaker.Probes.{fail_at, fail-below, fail_at-threshold, opened_at}
use spillway.Apiserver.Transport.{
  BackendTransport, failed, circuit_open, Outside, is_success, round_trip_with_retries, round_trip,
  observations,
}
use spillway.Apiserver.Transport.Retries.{sends}

-- The breaker after a request: asked once, and told the outcome exactly if it let the request go.
pub breaker-round_trip :
    (t : BackendTransport) (req : Request) (world : Outside)
    → (round_trip t req world).1.breaker ≡ (
        if (allow t.breaker world.asked).0
        then (record_outcome
            (allow t.breaker world.asked).1
            (is_success (round_trip_with_retries t req world).0)
            world.recorded).0
        else (allow t.breaker world.asked).1)
unfolding round_trip
breaker-round_trip t req world = ground arith

-- While the circuit is open and its cooldown is not over, a request fails with `errCircuitOpen`,
-- nothing is sent to kcp, and the breaker stays as it was.
pub round_trip-open_circuit :
    (t : BackendTransport) (req : Request) (world : Outside)
    → t.breaker.state ≡ open_circuit
    → world.asked < t.breaker.open_until
    → ((round_trip t req world).0 ≡ failed circuit_open)
      × ((round_trip t req world).1 ≡ t)
      × (sends (round_trip t req world).2 ≡ 0)
unfolding round_trip allow sends observations observe_proxy_error
round_trip-open_circuit t req world opened early = ground arith

-- A request keeps what holds of every breaker: fewer failures than the threshold are counted, and
-- a probe is out exactly while the circuit is half open.
pub round_trip-IsValid :
    (t : BackendTransport) (req : Request) (world : Outside)
    → IsValid t.breaker
    → IsValid (round_trip t req world).1.breaker
round_trip-IsValid t req world v =
    rw breaker-round_trip (elim (Bool-cases (allow t.breaker world.asked).0) [
      | inl sent_on ↦ rw sent_on (
          record_outcome-IsValid (allow t.breaker world.asked).1
            (is_success (round_trip_with_retries t req world).0) world.recorded
            (allow-IsValid t.breaker world.asked v))
      | inr refused ↦ rw refused (allow-IsValid t.breaker world.asked v)
    ])

-- Requests one after another.
unfoldable pub serve_all : BackendTransport → List (Request × Outside) → BackendTransport
serve_all t [] = t
serve_all t ((req, world) ∷ rest) = serve_all (round_trip t req world).1 rest

-- What kcp does to a request when it is down: an error, or a status of 500 or above.
abbrev pub IsLost : (workspace : Text) (retries : ℕ) → Request × Outside → Type 0
IsLost workspace retries (req, world) =
    is_success
      (round_trip_with_retries
        (record { workspace = workspace; breaker = new_breaker workspace 0 0; retries = retries })
        req world).0
    ≡ false

lost_here :
    (t : BackendTransport) (req : Request) (world : Outside)
    → IsLost t.workspace t.retries (req, world)
    → is_success (round_trip_with_retries t req world).0 ≡ false
unfolding round_trip_with_retries
lost_here t req world lost = lost

allow-closed :
    (b : Breaker) (now : ℕ) → b.state ≡ closed → ((allow b now).0 ≡ true) × ((allow b now).1 ≡ b)
unfolding allow
allow-closed b now shut = ground arith

only_breaker :
    (t : BackendTransport) (req : Request) (world : Outside)
    → (round_trip t req world).1 ≡ record t { breaker = (round_trip t req world).1.breaker }
unfolding round_trip
only_breaker t req world = ground arith

closed_lost :
    (t : BackendTransport) (req : Request) (world : Outside)
    → t.breaker.state ≡ closed
    → IsLost t.workspace t.retries (req, world)
    → (round_trip t req world).1
      ≡ record t { breaker = (record_outcome t.breaker false world.recorded).0 }
closed_lost t req world shut lost =
    let (go, same) = allow-closed t.breaker world.asked shut in
    rw (only_breaker t req world, breaker-round_trip, go, same, lost_here t req world lost) refl

abbrev pub recorded_at : List (Request × Outside) → List ℕ
recorded_at [] = []
recorded_at ((req, world) ∷ rest) = world.recorded ∷ recorded_at rest

serve_all-lost :
    (t : BackendTransport) (xs : List (Request × Outside))
    → t.breaker.state ≡ closed
    → t.breaker.failures + length xs < t.breaker.threshold
    → All (IsLost t.workspace t.retries) xs
    → serve_all t xs ≡ record t { breaker = fail_at t.breaker (recorded_at xs) }
unfolding serve_all fail_at
serve_all-lost t [] shut room lost = refl
serve_all-lost t ((req, world) ∷ xs) shut room (first, rest) =
    let counted = fail-below t.breaker world.recorded shut (omega arith) in
    ap (λ u. serve_all u xs)
      (closed_lost t req world shut first ∙ ap (λ (b : Breaker). record t { breaker = b }) counted)
    ∙ serve_all-lost (record t { breaker = record t.breaker { failures = t.breaker.failures + 1 } })
        xs shut (omega arith) rest
    ∙ ap (λ b. record t { breaker = fail_at b (recorded_at xs) }) (sym counted)

length-recorded_at : (xs : List (Request × Outside)) → length (recorded_at xs) ≡ length xs
length-recorded_at [] = refl
length-recorded_at (x ∷ xs) = ap suc (length-recorded_at xs)

tripped :
    (t : BackendTransport) (xs : List (Request × Outside)) (last : Request × Outside)
    → t.breaker.state ≡ closed
    → t.breaker.failures + length xs + 1 ≡ t.breaker.threshold
    → All (IsLost t.workspace t.retries) xs
    → IsLost t.workspace t.retries last
    → (round_trip (serve_all t xs) last.0 last.1).1
      ≡ record t { breaker = opened_at t.breaker last.1.recorded }
tripped t xs (req, world) shut full lost lost_last =
    let (counted, opened) =
      fail_at-threshold t.breaker (recorded_at xs) world.recorded shut
        (omega (arith, length-recorded_at xs)) in
    let t' : BackendTransport = record t { breaker = fail_at t.breaker (recorded_at xs) } in
    rw (serve_all-lost t xs shut (omega arith) lost) (
      closed_lost t' req world (ap (λ (b : Breaker). b.state) counted ∙ shut) lost_last
      ∙ ap (λ (b : Breaker). record t { breaker = b }) opened)

-- A request that asks before a moment.
abbrev pub IsBefore : ℕ → Request × Outside → Type 0
IsBefore end (req, world) = world.asked < end

serve_all-open_circuit :
    (t : BackendTransport) (xs : List (Request × Outside))
    → t.breaker.state ≡ open_circuit
    → All (IsBefore t.breaker.open_until) xs
    → serve_all t xs ≡ t
unfolding serve_all
serve_all-open_circuit t [] opened early = refl
serve_all-open_circuit t ((req, world) ∷ xs) opened (first, rest) =
    rw (round_trip-open_circuit t req world opened first).1
      (serve_all-open_circuit t xs opened rest)

-- A kcp that is down is spared: from a closed circuit, when as many requests in a row are lost as
-- complete the threshold, the circuit is open until a cooldown after the last of them was recorded.
-- Requests that ask before that, however many, leave the circuit so, and each further one that asks
-- before that fails with `errCircuitOpen` and sends nothing.
pub serve_all-spares :
    (t : BackendTransport) (xs further : List (Request × Outside)) (last next : Request × Outside)
    → t.breaker.state ≡ closed
    → t.breaker.failures + length xs + 1 ≡ t.breaker.threshold
    → All (IsLost t.workspace t.retries) xs
    → IsLost t.workspace t.retries last
    → All (IsBefore (last.1.recorded + t.breaker.cooldown)) further
    → IsBefore (last.1.recorded + t.breaker.cooldown) next
    → let tripped = (round_trip (serve_all t xs) last.0 last.1).1 in
      (tripped.breaker.state ≡ open_circuit)
      × (tripped.breaker.open_until ≡ last.1.recorded + t.breaker.cooldown)
      × (serve_all tripped further ≡ tripped)
      × ((round_trip (serve_all tripped further) next.0 next.1).0 ≡ failed circuit_open)
      × (sends (round_trip (serve_all tripped further) next.0 next.1).2 ≡ 0)
serve_all-spares t xs further last next shut full lost lost_last early next_early =
    let open_now : BackendTransport = record t { breaker = opened_at t.breaker last.1.recorded } in
    let opened = tripped t xs last shut full lost lost_last in
    let same : serve_all open_now further ≡ open_now =
      serve_all-open_circuit open_now further refl early in
    let (reply, _, nothing) = round_trip-open_circuit open_now next.0 next.1 refl next_early in
    rw opened (refl, refl, same, rw same reply, rw same nothing)
