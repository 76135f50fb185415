-- ===== src/Apiserver/Breaker/Probes.antt =====
-- When the breaker of pkg/apiserver/backend.go opens, and what an open one lets through.
use spillway.Prelude.{
  ℕ, ◌+◌, ◌<◌, ◌≤◌, ◌≡◌, ◌∙◌, ap, refl, true, false, List, [], ◌∷◌, if◌then◌else◌, leb, arith, any,
  length,
}
use spillway.Apiserver.Breaker.{closed, open_circuit, half_open, Breaker, allow, record_outcome}

-- The breaker after failures at these times, with nothing else between.
unfoldable pub fail_at : Breaker → List ℕ → Breaker
fail_at b [] = b
fail_at b (t ∷ ts) = fail_at (record_outcome b false t).0 ts

-- How many of the requests that ask at these times are let through, with no outcome recorded.
unfoldable pub admitted : Breaker → List ℕ → ℕ
admitted b [] = 0
admitted b (t ∷ ts) = let (sent, b', _) = allow b t in (if sent then 1 else 0) + admitted b' ts

-- The breaker after requests that ask at these times, with no outcome recorded.
unfoldable pub ask_all : Breaker → List ℕ → Breaker
ask_all b [] = b
ask_all b (t ∷ ts) = ask_all (allow b t).1 ts

-- What opening the circuit makes of the breaker.
abbrev pub opened_at : Breaker → ℕ → Breaker
opened_at b t = record b {
  state = open_circuit;
  failures = 0;
  open_until = t + b.cooldown;
  probing = false;
}

pub fail-below :
    (b : Breaker) (t : ℕ)
    → b.state ≡ closed
    → b.failures + 1 < b.threshold
    → (record_outcome b false t).0 ≡ record b { failures = b.failures + 1 }
unfolding record_outcome
fail-below b t shut room = ground arith

pub fail-last :
    (b : Breaker) (t : ℕ)
    → b.state ≡ closed
    → b.failures + 1 ≡ b.threshold
    → (record_outcome b false t).0 ≡ opened_at b t
unfolding record_outcome
fail-last b t shut full = ground arith

half_open-admits :
    (b : Breaker) (ts : List ℕ) → b.state ≡ half_open → b.probing ≡ true → admitted b ts ≡ 0
unfolding admitted allow
half_open-admits b [] half busy = refl
half_open-admits b (t ∷ ts) half busy = ground (arith, half_open-admits b ts half busy)

-- While no outcome is recorded, an open circuit lets exactly one request through, the first that
-- asks at or after the end of the cooldown, and none if all ask before.
pub admitted-open_circuit :
    (b : Breaker) (ts : List ℕ)
    → b.state ≡ open_circuit
    → admitted b ts ≡ (if any (λ t. leb b.open_until t) ts then 1 else 0)
unfolding admitted allow
admitted-open_circuit b [] opened = refl
admitted-open_circuit b (t ∷ ts) opened = ground (
  arith,
  admitted-open_circuit b ts opened,
  half_open-admits (record b { state = half_open; probing = true }) ts refl refl,
)

fail_at-below :
    (b : Breaker) (ts : List ℕ)
    → b.state ≡ closed
    → b.failures + length ts < b.threshold
    → fail_at b ts ≡ record b { failures = b.failures + length ts }
unfolding fail_at
fail_at-below b [] shut room = ground arith
fail_at-below b (u ∷ ts) shut room =
    rw (fail-below b u shut (omega arith))
      (ground (arith, fail_at-below (record b { failures = b.failures + 1 }) ts shut (omega arith)))

-- From a closed circuit, failures in a row leave it closed and are counted while the count stays
-- below the threshold; the failure that reaches the threshold opens the circuit for the cooldown,
-- from its own time, with no failure counted and no probe out.
pub fail_at-threshold :
    (b : Breaker) (ts : List ℕ) (t : ℕ)
    → b.state ≡ closed
    → b.failures + length ts + 1 ≡ b.threshold
    → (fail_at b ts ≡ record b { failures = b.failures + length ts })
      × ((record_outcome (fail_at b ts) false t).0 ≡ opened_at b t)
fail_at-threshold b ts t shut full =
    let counted = fail_at-below b ts shut (omega arith) in
    (counted, rw counted (fail-last (record b { failures = b.failures + length ts }) t shut full))

admitted-closed : (b : Breaker) (ts : List ℕ) → b.state ≡ closed → admitted b ts ≡ length ts
unfolding admitted allow
admitted-closed b [] shut = refl
admitted-closed b (t ∷ ts) shut = ground (arith, admitted-closed b ts shut)

allow-busy : (b : Breaker) (t : ℕ) → b.state ≡ half_open → b.probing ≡ true → (allow b t).1 ≡ b
unfolding allow
allow-busy b t half busy = ground arith

ask_all-half_open :
    (b : Breaker) (ts : List ℕ) → b.state ≡ half_open → b.probing ≡ true → ask_all b ts ≡ b
unfolding ask_all
ask_all-half_open b [] half busy = refl
ask_all-half_open b (t ∷ ts) half busy =
    ap (λ c. ask_all c ts) (allow-busy b t half busy) ∙ ask_all-half_open b ts half busy

-- A probe decides: a request that asks an open circuit when its cooldown is over is let through,
-- and none of the requests that ask until its outcome is. After its success every request goes
-- through, while no outcome is recorded. After its failure, while no outcome is recorded, none goes
-- through if all ask before the end of a cooldown that starts with the failure, else exactly one.
pub probe_decides :
    (b : Breaker) (now done : ℕ) (meanwhile later : List ℕ)
    → b.state ≡ open_circuit
    → b.open_until ≤ now
    → let waiting = ask_all (allow b now).1 meanwhile in
      ((allow b now).0 ≡ true)
      × (admitted (allow b now).1 meanwhile ≡ 0)
      × (admitted (record_outcome waiting true done).0 later ≡ length later)
      × (admitted (record_outcome waiting false done).0 later
          ≡ (if any (λ t. leb (done + b.cooldown) t) later then 1 else 0))
unfolding allow record_outcome
probe_decides b now done meanwhile later opened over =
    let out : Breaker = record b { state = half_open; probing = true } in
    let asked : (allow b now).1 ≡ out = ground arith in
    let waits : ask_all (allow b now).1 meanwhile ≡ out =
      rw asked (ask_all-half_open out meanwhile refl refl) in
    (
      ground arith,
      rw asked (half_open-admits out meanwhile refl refl),
      rw waits (admitted-closed (record_outcome out true done).0 later refl),
      rw waits (admitted-open_circuit (record_outcome out false done).0 later refl),
    )
