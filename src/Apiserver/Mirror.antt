-- ===== src/Apiserver/Mirror.antt =====
-- `namespaceMirror` of pkg/apiserver/namespaces.go: a namespace is created in the workspace the first
-- time something is written into it. The client of kcp and the encoding of a namespace are
-- arguments, and so are the readings of m.now(), on which a duration is a number of milliseconds.
pub mod Once
pub mod Confirmed
mod Tests
use spillway.Prelude.{
  ℕ, ◌+◌, ◌*◌, Bool, true, false, ◌||◌, Option, none, some, [], ◌∷◌, ◌++◌, if◌then◌else◌, leb, eqb,
  Comparable, ◌==◌, Result, ok, err,
}
use spillway.Prelude.Text.{Text, bytes, text_key}
use spillway.Prelude.Maps.{Map, lookup, insert, erase}
use spillway.Apiserver.Backend.{Backend, BackendError, status_error, no_response}

abbrev pub namespace_path : Text
namespace_path = bytes "/api/v1/namespaces"

-- namespaceTTL, 10 minutes
abbrev pub namespace_ttl : ℕ
namespace_ttl = 10 * 60 * 1000

pub record NamespaceMirror : Type 0 where
  pub ttl : ℕ
  pub known : Map Text ℕ

-- newNamespaceMirror(backend)
abbrev pub new_namespace_mirror : NamespaceMirror
new_namespace_mirror = record { ttl = namespace_ttl; known = [] }

-- m.fresh(namespace), at the time `now`
unfoldable pub fresh : NamespaceMirror → Text → (now : ℕ) → NamespaceMirror × Bool
fresh m namespace now = elim (lookup namespace m.known) [
  | none ↦ (m, false)
  | some seen ↦
      if leb (seen + m.ttl) now
      then (record m { known = erase namespace m.known }, false)
      else (m, true)
]

-- m.remember(namespace), at the time `now`
abbrev pub remember : NamespaceMirror → Text → (now : ℕ) → NamespaceMirror
remember m namespace now = record m { known = insert namespace now m.known }

-- isAlreadyExists(err)
abbrev pub is_already_exists : BackendError → Bool
is_already_exists (status_error status) = eqb status 409
is_already_exists no_response = false

-- mirrorsNamespace(req), of the method
abbrev pub mirrors_namespace : (method : Text) → Bool
mirrors_namespace method =
    method == bytes "POST" || method == bytes "PUT" || method == bytes "PATCH"

-- Whether an answer of `create` leaves the namespace in the workspace.
abbrev pub is_there : Result BackendError Text → Bool
is_there (ok body) = true
is_there (err reason) = is_already_exists reason

abbrev pub remember_created :
    {World : Type 0}
    → NamespaceMirror
    → Text
    → (now : ℕ) → World × Result BackendError Text
    → NamespaceMirror × World
remember_created m namespace now (w, answer) =
    (if is_there answer then remember m namespace now else m, w)

module _ {World : Type 0} (backend : Backend World) (encode_namespace : Text → Option Text) where
  -- `ensure` from the answer of the read on.
  unfoldable pub ensure_fetched :
      NamespaceMirror
      → Text
      → (now : ℕ) → World × Result BackendError Text
      → NamespaceMirror × World
  ensure_fetched m namespace now (w, ok body) = (remember m namespace now, w)
  ensure_fetched m namespace now (w, err reason) = elim (encode_namespace namespace) [
    | none ↦ (m, w)
    | some body ↦ remember_created m namespace now (backend.create namespace_path body w)
  ]

  abbrev pub ensure_checked :
      Text → (now : ℕ) → World → NamespaceMirror × Bool → NamespaceMirror × World
  ensure_checked namespace now w (m, true) = (m, w)
  ensure_checked namespace now w (m, false) =
      ensure_fetched m namespace now (backend.fetch (namespace_path ++ (b'/' ∷ namespace)) w)

  -- m.ensure(ctx, namespace) of a mirror that is not nil, which asks for the time before and after
  unfoldable pub ensure :
      NamespaceMirror → Text → (asked answered : ℕ) → World → NamespaceMirror × World
  ensure m namespace asked answered w =
      if namespace == []
      then (m, w)
      else ensure_checked namespace answered w (fresh m namespace asked)
