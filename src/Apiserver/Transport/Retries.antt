-- ===== src/Apiserver/Transport/Retries.antt =====
-- What `roundTripWithRetries` of pkg/apiserver/backend.go sends to kcp, and what it returns.
use spillway.Prelude.{
  ℕ, zero, suc, ◌+◌, ◌≤◌, ◌<◌, ◌≡◌, ◌↔◌, refl, true, false, not, ◌||◌, List, [], ◌∷◌, ◌++◌, arith,
  if◌then◌else◌, Bool-cases, inl, inr,
}
use spillway.Prelude.Text.{Text}
use spillway.Kcp.Metrics.{Metric}
use spillway.Apiserver.Request.{Request}
use spillway.Apiserver.Transport.{
  BackendTransport, Reply, Attempt, Outside, Effect, sent, paused, observed, observations,
  retriable, is_answer, retry_loop, round_trip_with_retries,
}

-- How often the transport below was called.
unfoldable pub sends : List Effect → ℕ
sends [] = 0
sends (sent ∷ es) = suc (sends es)
sends (paused n ∷ es) = sends es
sends (observed m ∷ es) = sends es

pub sends-append : (xs ys : List Effect) → sends (xs ++ ys) ≡ sends xs + sends ys
unfolding sends
sends-append [] ys = omega arith
sends-append (sent ∷ xs) ys = omega (arith, sends-append xs ys)
sends-append (paused n ∷ xs) ys = sends-append xs ys
sends-append (observed m ∷ xs) ys = sends-append xs ys

pub sends-observations : (ms : List Metric) → sends (observations ms) ≡ 0
unfolding sends observations
sends-observations [] = refl
sends-observations (m ∷ ms) = sends-observations ms

sends-retry_loop :
    (w : Text) (attempts : ℕ → Attempt) (left k : ℕ) (last : Reply)
    → sends (retry_loop w attempts left k last).1 ≤ left
unfolding retry_loop sends
sends-retry_loop w attempts zero k last = omega arith
sends-retry_loop w attempts (suc left) k last =
    ground (arith, sends-retry_loop w attempts left (k + 1) (attempts k).reply)

-- A request that is not a GET or HEAD without a body reaches kcp exactly once, whatever happens;
-- any other reaches it at least once and at most once more for each retry that is configured.
pub sends-round_trip_with_retries :
    (t : BackendTransport) (req : Request) (world : Outside)
    → (1 ≤ sends (round_trip_with_retries t req world).1)
      × (sends (round_trip_with_retries t req world).1
          ≤ (if retriable req then 1 + t.retries else 1))
unfolding round_trip_with_retries sends
sends-round_trip_with_retries t req world =
    ground (arith, sends-retry_loop t.workspace world.attempts t.retries 0 world.first)

-- A round that the end of the context does not cut short.
abbrev pub IsClear : Attempt → Type 0
IsClear round = (round.ended_before ≡ false) × (round.ended_in_pause ≡ false)

abbrev pub Answers : (ℕ → Attempt) → (left k : ℕ) → Type 0
Answers attempts left k =
    (i : ℕ) × (i < left)
    × (is_answer (attempts (k + i)).reply ≡ true)
    × ((j : ℕ) → j ≤ i → IsClear (attempts (k + j)))

module _ (P : Attempt → Type 0) (attempts : ℕ → Attempt) (k : ℕ) where
  here : P (attempts k) → P (attempts (k + 0))
  here p = let e : k + 0 ≡ k = omega arith in rw e p

  there : (j : ℕ) → P (attempts (k + 1 + j)) → P (attempts (k + suc j))
  there j p = let e : k + suc j ≡ k + 1 + j = omega arith in rw e p

  here_back : P (attempts (k + 0)) → P (attempts k)
  here_back p = let e : k + 0 ≡ k = omega arith in rw e at p

  there_back : (j : ℕ) → P (attempts (k + suc j)) → P (attempts (k + 1 + j))
  there_back j p = let e : k + suc j ≡ k + 1 + j = omega arith in rw e at p

abbrev Replies : Attempt → Type 0
Replies round = is_answer round.reply ≡ true

IsClear-below :
    (attempts : ℕ → Attempt) (k i : ℕ)
    → IsClear (attempts k)
    → ((j : ℕ) → j ≤ i → IsClear (attempts (k + 1 + j)))
    → (j : ℕ) → j ≤ suc i
    → IsClear (attempts (k + j))
IsClear-below attempts k i first later zero h = here IsClear attempts k first
IsClear-below attempts k i first later (suc j) h =
    there IsClear attempts k j (later j (omega arith))

IsClear-first :
    (attempts : ℕ → Attempt) (k : ℕ)
    → IsClear (attempts k)
    → (j : ℕ) → j ≤ 0
    → IsClear (attempts (k + j))
IsClear-first attempts k first zero h = here IsClear attempts k first
IsClear-first attempts k first (suc j) h = absurd (omega arith)

later_round :
    (attempts : ℕ → Attempt) (left k : ℕ)
    → IsClear (attempts k)
    → Answers attempts left (k + 1)
    → Answers attempts (suc left) k
later_round attempts left k first (i, lt, ans, clear) =
    (suc i, omega arith, there Replies attempts k i ans, IsClear-below attempts k i first clear)

answer_found :
    (w : Text) (attempts : ℕ → Attempt) (left k : ℕ) (last : Reply)
    → is_answer last ≡ false
    → is_answer (retry_loop w attempts left k last).0 ≡ true
    → Answers attempts left k
unfolding retry_loop
answer_found w attempts zero k last no_answer h = cc
answer_found w attempts (suc left) k last no_answer h =
    let before : (attempts k).ended_before ≡ false = ground arith in
    let pause : (attempts k).ended_in_pause ≡ false = ground arith in
    elim (Bool-cases (is_answer (attempts k).reply)) [
      | inl now ↦
          (0, omega arith, here Replies attempts k now, IsClear-first attempts k (before, pause))
      | inr not_yet ↦
          later_round attempts left k (before, pause)
            (answer_found w attempts left (k + 1) (attempts k).reply not_yet (ground arith))
    ]

answer_returned :
    (w : Text) (attempts : ℕ → Attempt) (left k : ℕ) (last : Reply)
    → Answers attempts left k
    → is_answer (retry_loop w attempts left k last).0 ≡ true
unfolding retry_loop
answer_returned w attempts zero k last (i, lt, ans, clear) = absurd (omega arith)
answer_returned w attempts (suc left) k last (zero, lt, ans, clear) =
    ground (
      arith,
      here_back Replies attempts k ans,
      here_back IsClear attempts k (clear 0 (omega arith)),
    )
answer_returned w attempts (suc left) k last (suc i, lt, ans, clear) = ground (
  arith,
  here_back IsClear attempts k (clear 0 (omega arith)),
  answer_returned w attempts left (k + 1) (attempts k).reply (
    i,
    omega arith,
    there_back Replies attempts k i ans,
    λ j h. there_back IsClear attempts k j (clear (suc j) (omega arith)),
  ),
)

-- A retriable request whose first try fails is answered exactly when one of the configured retries
-- gets an answer, and neither that round nor a round before it is cut short by the context.
pub answered-round_trip_with_retries :
    (t : BackendTransport) (req : Request) (world : Outside)
    → retriable req ≡ true
    → is_answer world.first ≡ false
    → (is_answer (round_trip_with_retries t req world).0 ≡ true)
      ↔ Answers world.attempts t.retries 0
unfolding round_trip_with_retries
answered-round_trip_with_retries t req world safe lost =
    let same : (is_answer world.first || not (retriable req)) ≡ false = rw (safe, lost) refl in
    rw same (
      answer_found t.workspace world.attempts t.retries 0 world.first lost,
      answer_returned t.workspace world.attempts t.retries 0 world.first,
    )
