-- ===== src/Apiserver/Mirror/Confirmed.antt =====
-- What the mirror of pkg/apiserver/namespaces.go holds after it has asked the workspace.
use spillway.Prelude.{
  ℕ, ◌+◌, ◌≤◌, ◌≡◌, ◌∙◌, ◌⊎◌, refl, Bool, true, false, ◌||◌, Option, none, some, ◌∷◌, [], ◌++◌,
  if◌then◌else◌, leb, ◌==◌, ==-refl, Result, ok, err, Bool-cases, Option-cases, inl, inr, is_ok,
  arith,
}
use spillway.Prelude.Text.{Text, text_key}
use spillway.Prelude.Maps.{lookup, lookup-insert, lookup-erase}
use spillway.Apiserver.Backend.{Backend, BackendError}
use spillway.Apiserver.Mirror.{
  NamespaceMirror, namespace_path, fresh, is_there, remember_created, ensure_fetched,
  ensure_checked, ensure,
}

-- Nothing is known of the namespace, or what is known is too old at the time `now`.
abbrev pub IsStale : NamespaceMirror → Text → (now : ℕ) → Type 0
IsStale m namespace now =
    (lookup namespace m.known ≡ none)
    ⊎ ((seen : ℕ) × (lookup namespace m.known ≡ some seen) × (seen + m.ttl ≤ now))

fresh-IsStale :
    (m : NamespaceMirror) (namespace : Text) (now : ℕ)
    → IsStale m namespace now
    → ((fresh m namespace now).1 ≡ false)
      × (lookup namespace (fresh m namespace now).0.known ≡ none)
unfolding fresh
fresh-IsStale m namespace now (inl missing) = rw (missing, fresh) (refl, missing)
fresh-IsStale m namespace now (inr (seen, known, old)) =
    let e : leb (seen + m.ttl) now ≡ true = ground (arith, old) in
    rw (known, e, fresh)
      (refl, lookup-erase namespace m.known namespace ∙ rw (==-refl namespace) refl)

module _ {World : Type 0} (backend : Backend World) (encode_namespace : Text → Option Text) where
  abbrev pub fetched : Text → World → World × Result BackendError Text
  fetched namespace w = backend.fetch (namespace_path ++ (b'/' ∷ namespace)) w

  -- Whether the workspace says that it has the namespace: it answers the read, it creates the
  -- namespace, or it has it already when it is asked to.
  abbrev pub confirms : Text → World → Bool
  confirms namespace w = is_ok (fetched namespace w).1 || elim (encode_namespace namespace) [
    | none ↦ false
    | some body ↦ is_there (backend.create namespace_path body (fetched namespace w).0).1
  ]

  created_lem :
      (m : NamespaceMirror) (namespace : Text) (now : ℕ) (r : World × Result BackendError Text)
      → lookup namespace m.known ≡ none
      → lookup namespace (remember_created m namespace now r).0.known
        ≡ (if is_there r.1 then some now else none)
  created_lem m namespace now (w, answer) missing = elim (Bool-cases (is_there answer)) [
    | inl there ↦
        rw there (lookup-insert namespace now m.known namespace ∙ rw (==-refl namespace) refl)
    | inr failed ↦ rw failed missing
  ]

  fetched_lem :
      (m : NamespaceMirror) (namespace : Text) (now : ℕ) (r : World × Result BackendError Text)
      → lookup namespace m.known ≡ none
      → lookup namespace (ensure_fetched backend encode_namespace m namespace now r).0.known ≡ (
          if is_ok r.1 || elim (encode_namespace namespace) [
            | none ↦ false
            | some body ↦ is_there (backend.create namespace_path body r.0).1
          ]
          then some now
          else none)
  unfolding ensure_fetched
  fetched_lem m namespace now (w, ok body) missing =
      lookup-insert namespace now m.known namespace ∙ rw (==-refl namespace) refl
  fetched_lem m namespace now (w, err reason) missing =
      elim (Option-cases (encode_namespace namespace)) [
        | inl fails ↦ rw (fails, ensure_fetched) missing
        | inr (body, encoded) ↦
            rw (encoded, ensure_fetched)
              (created_lem m namespace now (backend.create namespace_path body w) missing)
      ]

  -- A call for a namespace of which nothing is known, or nothing recent, asks the workspace;
  -- afterwards the namespace is known, since the moment of the answer, exactly if the workspace has
  -- it, and a failure is not remembered.
  pub lookup-ensure :
      (m : NamespaceMirror) (namespace : Text) (asked answered : ℕ) (w : World)
      → (namespace == []) ≡ false
      → IsStale m namespace asked
      → lookup namespace (ensure backend encode_namespace m namespace asked answered w).0.known
        ≡ (if confirms namespace w then some answered else none)
  unfolding ensure
  lookup-ensure m namespace asked answered w named stale =
      let (misses, unknown) = fresh-IsStale m namespace asked stale in
      rw (named, ensure) (checked_lem (fresh m namespace asked) misses unknown)
    where
      checked_lem :
          (r : NamespaceMirror × Bool)
          → r.1 ≡ false
          → lookup namespace r.0.known ≡ none
          → lookup namespace
              (ensure_checked backend encode_namespace namespace answered w r).0.known
            ≡ (if confirms namespace w then some answered else none)
      checked_lem (m1, true) h missing = absurd (cc (h))
      checked_lem (m1, false) h missing =
          fetched_lem m1 namespace answered (fetched namespace w) missing
