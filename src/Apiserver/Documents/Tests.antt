-- ===== src/Apiserver/Documents/Tests.antt =====
-- Runs of the cache of pkg/apiserver/openapicache.go.
use spillway.Prelude.{ℕ, ◌≡◌, refl, true, List, [], ◌∷◌, Result, ok, err}
use spillway.Prelude.Text.{Text, bytes}
use spillway.Apiserver.Documents.{DocumentCache, new_document_cache, get}
use spillway.Apiserver.Documents.Freshness.{Event, request, after, total_builds, total_builds_lem}

abbrev spec : Text
spec = bytes "{}"

abbrev held : DocumentCache
held = record { document = spec; generation = 3; built = true }

abbrev story : List (Event ℕ)
story = request 2 (err 500) ∷ request 3 (ok spec) ∷ request 4 (err 500) ∷ []

story_held : after new_document_cache story ≡ held
unfolding after get
story_held = refl

abbrev lost : Result ℕ Text
lost = err 500

abbrev answers : List (Result ℕ Text)
answers = lost ∷ ok spec ∷ lost ∷ ok [] ∷ []

total_builds_lem_example : total_builds held 4 answers ≡ 2
total_builds_lem_example = total_builds_lem held 4 answers refl
