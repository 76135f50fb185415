-- ===== src/Apiserver/Breaker/Tests.antt =====
-- Runs of the breaker of pkg/apiserver/backend.go, and the theorems at a breaker of threshold 2.
use spillway.Prelude.{◌≡◌, refl, true, false, List, [], ◌∷◌, arith}
use spillway.Prelude.Text.{Text, bytes}
use spillway.Apiserver.Breaker.{
  open_circuit, half_open, Breaker, new_breaker, allow, record_outcome,
}
use spillway.Apiserver.Breaker.Invariant.{ask, outcome, Event, run, IsValid, run-IsValid}
use spillway.Apiserver.Breaker.Probes.{ask_all, admitted, admitted-open_circuit, probe_decides}

abbrev team : Text
team = bytes "team-a"

abbrev fresh : Breaker
fresh = new_breaker team 2 30

abbrev story : List Event
story = ask 1 ∷ ask 2 ∷ outcome false 3 ∷ outcome false 4 ∷ ask 20 ∷ ask 34 ∷ []

abbrev tripped : Breaker
tripped = record {
  workspace = team;
  threshold = 2;
  cooldown = 30;
  state = open_circuit;
  failures = 0;
  open_until = 34;
  probing = false;
}

story_half_open : (run fresh story).0 ≡ record tripped { state = half_open; probing = true }
unfolding run new_breaker allow record_outcome
story_half_open = refl

run-IsValid_example : IsValid (run fresh story).0
run-IsValid_example = run-IsValid team 2 30 story (omega arith)

admitted-open_circuit_example : admitted tripped (10 ∷ 40 ∷ 35 ∷ []) ≡ 1
admitted-open_circuit_example = admitted-open_circuit tripped (10 ∷ 40 ∷ 35 ∷ []) refl

probe_decides_example :
    ((allow tripped 40).0 ≡ true)
    × (admitted (allow tripped 40).1 (40 ∷ []) ≡ 0)
    × (admitted (record_outcome (ask_all (allow tripped 40).1 (40 ∷ [])) true 41).0 (70 ∷ 71 ∷ [])
        ≡ 2)
    × (admitted (record_outcome (ask_all (allow tripped 40).1 (40 ∷ [])) false 41).0 (70 ∷ 71 ∷ [])
        ≡ 1)
probe_decides_example = probe_decides tripped 40 41 (40 ∷ []) (70 ∷ 71 ∷ []) refl (omega arith)
