-- ===== src/Apiserver/OwnerRefs/Tests.antt =====
-- Two owners, one of them outside of the workspace.
use spillway.Prelude.{◌≡◌, refl, Option, none, some, List, [], ◌∷◌, All}
use spillway.Prelude.Text.{Text, bytes, text_key, text_eq, has_prefix, has_suffix}
use spillway.Prelude.ListSets.{list_sets}
use spillway.Kcp.Api.{GroupVersion}
use spillway.Apiserver.Request.{content}
use spillway.Apiserver.OwnerRefs.{
  OwnerReference, cross_boundary, too_large, contains_text, inspect_body, inspect_write,
  check_owner_references,
}
use spillway.Apiserver.OwnerRefs.Writes.{IsInside, check_owner_references-IsInside}

-- An API version is its group here, in version v1.
abbrev parse : Text → Option GroupVersion
parse text = some (record { group = text; version = bytes "v1" })

abbrev inside : OwnerReference
inside = record { api_version = bytes "example.com"; kind = bytes "Widget"; name = bytes "w" }

abbrev outside : OwnerReference
outside = record { api_version = bytes "apps"; kind = bytes "Deployment"; name = bytes "d" }

abbrev served : List Text
served = bytes "example.com" ∷ []

abbrev decode : Text → Option Text
decode body = some body

-- A key that is written with an escape.
abbrev escaped : Text
escaped = bytes "owner\\u0052eferences"

code : Unit {0}
unfolding inspect_write inspect_body contains_text check_owner_references text_eq has_prefix
    has_suffix
code = tt

checks :
    check_owner_references parse served (some (inside ∷ outside ∷ []))
    ≡ some (cross_boundary outside (bytes "apps"))
unfolding code
checks = refl

limits : (inspect_write decode 3 (bytes "POST") [] (content (bytes "{12}"))).error ≡ some too_large
unfolding code
limits = refl

skips : (inspect_write decode 100 (bytes "PATCH") [] (content escaped)).object ≡ none
unfolding code
skips = refl

check_owner_references-IsInside_example : All (IsInside parse served) (inside ∷ [])
unfolding code
check_owner_references-IsInside_example =
    (check_owner_references-IsInside parse served (inside ∷ [])).0 refl
