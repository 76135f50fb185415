-- ===== src/Apiserver/Mirror/Tests.antt =====
-- A namespace that the workspace has, and one that it has not and cannot create.
use spillway.Prelude.{
  ◌≡◌, refl, arith, suc, inl, inr, Option, some, [], ◌∷◌, ok, err, if◌then◌else◌, ℕ, ◌==◌,
}
use spillway.Prelude.Text.{Text, bytes, text_key, text_eq}
use spillway.Prelude.Maps.{lookup, insert, erase}
use spillway.Apiserver.Backend.{Backend, status_error, no_response}
use spillway.Apiserver.Mirror.{NamespaceMirror, new_namespace_mirror, fresh, ensure_fetched, ensure}
use spillway.Apiserver.Mirror.Once.{ensure_all, once-ensure_all}
use spillway.Apiserver.Mirror.Confirmed.{lookup-ensure}

-- A workspace with the namespace "a", which counts its calls.
abbrev workspace : Backend ℕ
workspace = record {
  fetch = λ path w.
      (suc w, if path == bytes "/api/v1/namespaces/a" then ok [] else err (status_error 404));
  patch_dry_run = λ path query content_type patch w. (w, err no_response);
  create = λ path body w.
      (suc w, if body == bytes "b" then err (status_error 409) else err (status_error 403));
}

abbrev encode : Text → Option Text
encode name = some name

abbrev known_a : NamespaceMirror
known_a = record new_namespace_mirror { known = (bytes "a", 5) ∷ [] }

code : Unit {0}
unfolding text_eq lookup insert erase fresh ensure_fetched ensure ensure_all
code = tt

asks_once : ensure workspace encode new_namespace_mirror (bytes "a") 4 5 0 ≡ (known_a, 1)
unfolding code
asks_once = refl

conflicts :
    (ensure workspace encode new_namespace_mirror (bytes "b") 4 5 0).0.known ≡ (bytes "b", 5) ∷ []
unfolding code
conflicts = refl

fails : ensure workspace encode new_namespace_mirror (bytes "c") 4 5 0 ≡ (new_namespace_mirror, 2)
unfolding code
fails = refl

once-ensure_all_example : ensure workspace encode known_a (bytes "a") 600004 600005 2 ≡ (known_a, 2)
unfolding code
once-ensure_all_example =
    once-ensure_all workspace encode
      (record { namespace = bytes "c"; asked = 6; answered = 7 }
        ∷ record { namespace = bytes "a"; asked = 8; answered = 9 }
        ∷ [])
      known_a (bytes "a") 600004 600005 5 0 refl (inl refl, (inr (omega arith), tt)) (omega arith)

lookup-ensure_example :
    lookup (bytes "a") (ensure workspace encode known_a (bytes "a") 600005 600006 0).0.known
    ≡ some 600006
unfolding code
lookup-ensure_example =
    lookup-ensure workspace encode known_a (bytes "a") 600005 600006 0 refl
      (inr (5, refl, omega arith))
