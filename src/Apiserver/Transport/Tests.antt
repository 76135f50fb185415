-- ===== src/Apiserver/Transport/Tests.antt =====
-- Runs of the transport of pkg/apiserver/backend.go, and the theorems at concrete requests.
use spillway.Prelude.{ℕ, ◌+◌, ◌≤◌, ◌≡◌, ◌↔◌, refl, true, false, none, [], ◌∷◌, arith, zero, suc}
use spillway.Prelude.Text.{bytes, text_eq}
use spillway.Apiserver.Request.{Request, nil, content}
use spillway.Apiserver.Breaker.{new_breaker, open_circuit, allow, record_outcome}
use spillway.Kcp.Metrics.{observe_proxy_request, observe_proxy_error}
use spillway.Apiserver.Transport.{
  BackendTransport, new_backend_transport, answered, failed, circuit_open, connection, Reply,
  Attempt, Outside, retriable, is_answer, round_trip_with_retries, round_trip, observations,
}
use spillway.Apiserver.Transport.Retries.{
  sends, sends-round_trip_with_retries, Answers, answered-round_trip_with_retries,
}
use spillway.Apiserver.Transport.Outcomes.{serve_all, serve_all-spares}

abbrev get : Request
get = record {
  method = bytes "GET";
  path = bytes "/apis/example.com/v1/widgets";
  query = [];
  content_type = [];
  authorization = none;
  body = nil;
  info = none;
  user = none;
}

abbrev post : Request
post = record get { method = bytes "POST"; body = content (bytes "{}") }

abbrev calm : Reply → Attempt
calm reply = record { ended_before = false; ended_in_pause = false; reply = reply }

-- The second retry is answered.
abbrev flapping : ℕ → Attempt
flapping (suc zero) = calm (answered 200)
flapping _ = calm (failed connection)

abbrev world : Outside
world = record {
  asked = 5;
  started = 5;
  ended = 6;
  recorded = 6;
  first = failed connection;
  attempts = flapping;
  context_error = none;
}

abbrev down : Outside
down = record world { attempts = λ _. calm (failed connection) }

abbrev t : BackendTransport
t = new_backend_transport (bytes "team-a") 2 30 2

abbrev opened : BackendTransport
opened = record {
  workspace = bytes "team-a";
  breaker = record (new_breaker (bytes "team-a") 2 30) { state = open_circuit; open_until = 34 };
  retries = 2;
}

runs :
    ((round_trip t get world).0 ≡ answered 200)
    × (sends (round_trip t get world).2 ≡ 3)
    × ((round_trip t post world).0 ≡ failed connection)
    × (sends (round_trip t post world).2 ≡ 1)
unfolding round_trip allow record_outcome observations observe_proxy_request observe_proxy_error
    sends new_backend_transport new_breaker text_eq
runs = (refl, refl, refl, refl)

sends-round_trip_with_retries_example :
    (1 ≤ sends (round_trip_with_retries t get world).1)
    × (sends (round_trip_with_retries t get world).1 ≤ 3)
unfolding retriable text_eq new_backend_transport
sends-round_trip_with_retries_example = sends-round_trip_with_retries t get world

answered-round_trip_with_retries_example :
    (is_answer (round_trip_with_retries t get world).0 ≡ true) ↔ Answers flapping t.retries 0
unfolding retriable text_eq
answered-round_trip_with_retries_example = answered-round_trip_with_retries t get world refl refl

abbrev lost_twice : BackendTransport
lost_twice = (round_trip (serve_all t ((post, down) ∷ [])) get down).1

serve_all-spares_example :
    (lost_twice.breaker.state ≡ open_circuit)
    × (lost_twice.breaker.open_until ≡ down.recorded + t.breaker.cooldown)
    × (serve_all lost_twice ((get, world) ∷ []) ≡ lost_twice)
    × ((round_trip (serve_all lost_twice ((get, world) ∷ [])) post world).0 ≡ failed circuit_open)
    × (sends (round_trip (serve_all lost_twice ((get, world) ∷ [])) post world).2 ≡ 0)
unfolding new_backend_transport new_breaker round_trip_with_retries text_eq
serve_all-spares_example =
    serve_all-spares t ((post, down) ∷ []) ((get, world) ∷ []) (get, down) (post, world) refl
      (omega arith) (refl, tt) refl (omega arith, tt) (omega arith)
