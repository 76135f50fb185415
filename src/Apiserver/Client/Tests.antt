-- ===== src/Apiserver/Client/Tests.antt =====
-- A transport that answers with the path it is asked for.
use spillway.Prelude.{◌≡◌, refl, ℕ, suc, Option, some, [], ◌∷◌, ok, err}
use spillway.Prelude.Text.{bytes, text_key, text_eq}
use spillway.Apiserver.Backend.{Values, status_error}
use spillway.Apiserver.Client.{
  ClientRequest, Response, values_of, without_key, payload_of, answer_of, do_request, fetch_path,
  dry_run_patch,
}
use spillway.Apiserver.Client.DryRun.{IsDryRun, dry_run_patch-IsDryRun}
use spillway.Apiserver.Paths.{split, join_path, resolve, walk, finish, clean, join_two}

-- The count of the calls is all that it keeps.
abbrev echo : ClientRequest → ℕ → ℕ × Option Response
echo r w = (suc w, some (record { status_code = 200; payload = some r.path }))

abbrev missing : ClientRequest → ℕ → ℕ × Option Response
missing r w = (suc w, some (record { status_code = 404; payload = some [] }))

abbrev caller : Values
caller = (bytes "dryRun", bytes "None") ∷ (bytes "force", bytes "true") ∷ []

code : Unit {0}
unfolding text_eq values_of without_key payload_of do_request split join_path resolve walk finish
    clean join_two
code = tt

reads :
    fetch_path echo (bytes "/clusters/root") 100 (bytes "/api/v1") 0
    ≡ (1, ok (bytes "/clusters/root/api/v1"))
unfolding code
reads = refl

misses :
    fetch_path missing (bytes "/clusters/root") 100 (bytes "/api/v1") 0
    ≡ (1, err (status_error 404))
unfolding code
misses = refl

dry_run_patch-IsDryRun_example :
    (r : ClientRequest) × IsDryRun echo
      (bytes "/clusters/root")
      100
      (bytes "/w")
      caller
      (bytes "{}")
      r
    × (dry_run_patch echo (bytes "/clusters/root") 100 (bytes "/w") caller [] (bytes "{}") 0
        ≡ answer_of echo (bytes "/clusters/root") 100 (echo r 0))
dry_run_patch-IsDryRun_example =
    dry_run_patch-IsDryRun echo (bytes "/clusters/root") 100 (bytes "/w") caller [] (bytes "{}") 0
