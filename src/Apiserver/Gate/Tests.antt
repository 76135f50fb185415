-- ===== src/Apiserver/Gate/Tests.antt =====
-- An update, a delete and two patches before the gate.
use spillway.Prelude.{◌≡◌, refl, none, some, [], ◌∷◌, ok, err}
use spillway.Prelude.Text.{bytes, text_key, text_eq}
use spillway.Apiserver.AdmissionMatch.{matches_write}
use spillway.Apiserver.Gate.{rejected, first_kind, old_object, is_dry_run}
use spillway.Apiserver.Gate.Run.{mutate, validate_edited, to_forward, run_kind, run_operation, run}
use spillway.Apiserver.Gate.Patches.{PatchDecision, decide, run_resolved, run_patch}
use spillway.Apiserver.Gate.Samples.{texts, gate, request_of}

code : Unit {0}
unfolding run run_operation run_kind to_forward mutate validate_edited old_object first_kind
    is_dry_run run_patch run_resolved decide matches_write text_eq
code = tt

updates :
    run texts
      (some gate)
      (request_of (bytes "PUT") (bytes "update") (bytes "x"))
      (some (bytes "x"))
      []
    ≡ (bytes "/w" ∷ [], ok (some (bytes "x!")))
unfolding code
updates = refl

refuses :
    (run texts
      (some gate)
      (request_of (bytes "PUT") (bytes "update") (bytes "bad"))
      (some (bytes "bad"))
      []).1
    ≡ err (rejected (bytes "no"))
unfolding code
refuses = refl

deletes :
    run texts (some gate) (request_of (bytes "DELETE") (bytes "delete") []) none []
    ≡ (bytes "/w" ∷ [], ok none)
unfolding code
deletes = refl

-- The chain changes what the patch gives, so that is written, at the version it came from.
replaces :
    (run_patch texts
      (some gate)
      (request_of (bytes "PATCH") (bytes "patch") (bytes "x"))
      (bytes "x")
      []).1
    ≡ ok (some (record { replacement = some (bytes "x!@7") }))
unfolding code
replaces = refl

-- A verb that is no operation of admission goes on without it.
skips_collections :
    run texts (some gate) (request_of (bytes "DELETE") (bytes "deletecollection") []) none []
    ≡ ([], ok none)
unfolding code
skips_collections = refl

abbrev decision : PatchDecision
decision = record { replacement = some (bytes "x!@7") }
