-- ===== src/Apiserver/Mirror/Once.antt =====
-- How often the mirror of pkg/apiserver/namespaces.go asks the workspace for a namespace.
use spillway.Prelude.{
  ℕ, ◌+◌, ◌<◌, ◌≡◌, ◌∙◌, refl, ap, Bool, true, false, Option, some, List, [], ◌∷◌, leb, ◌==◌,
  ==_iff, Result, ok, err, Bool-cases, Option-cases, inl, inr, arith, All, ◌⊎◌,
}
use spillway.Prelude.Text.{Text, text_key}
use spillway.Prelude.Maps.{lookup, lookup-insert, lookup-erase}
use spillway.Apiserver.Backend.{Backend, BackendError}
use spillway.Apiserver.Mirror.{
  NamespaceMirror, namespace_path, fresh, remember, is_there, remember_created, ensure_fetched,
  ensure_checked, ensure,
}

-- A call of `ensure`, with its namespace and the times it reads.
pub record Visit : Type 0 where
  pub namespace : Text
  pub asked : ℕ
  pub answered : ℕ

-- A call for another namespace, or one before `until`.
abbrev pub IsEarly : (namespace : Text) (until : ℕ) → Visit → Type 0
IsEarly namespace until v = ((v.namespace == namespace) ≡ false) ⊎ (v.asked < until)

fresh-hit :
    (m : NamespaceMirror) (namespace : Text) (seen now : ℕ)
    → lookup namespace m.known ≡ some seen
    → now < seen + m.ttl
    → fresh m namespace now ≡ (m, true)
unfolding fresh
fresh-hit m namespace seen now known h =
    let e : leb (seen + m.ttl) now ≡ false = ground (arith, h) in rw (known, e, fresh) refl

fresh-other :
    (m : NamespaceMirror) (namespace : Text) (now : ℕ) (other : Text)
    → (namespace == other) ≡ false
    → (lookup other (fresh m namespace now).0.known ≡ lookup other m.known)
      × ((fresh m namespace now).0.ttl ≡ m.ttl)
unfolding fresh
fresh-other m namespace now other apart = elim (Option-cases (lookup namespace m.known)) [
  | inl missing ↦ rw (missing, fresh) (refl, refl)
  | inr (seen, known) ↦ elim (Bool-cases (leb (seen + m.ttl) now)) [
    | inr young ↦ rw (known, young, fresh) (refl, refl)
    | inl old ↦
        rw (known, old, fresh) (lookup-erase namespace m.known other ∙ (rw apart refl), refl)
  ]
]

module _ {World : Type 0} where
  -- What a call for one namespace leaves of another.
  abbrev Keeps : Text → NamespaceMirror → NamespaceMirror × World → Type 0
  Keeps other m r = (lookup other r.0.known ≡ lookup other m.known) × (r.0.ttl ≡ m.ttl)

  Keeps-remember :
      (m : NamespaceMirror) (namespace : Text) (now : ℕ) (other : Text) (w : World)
      → (namespace == other) ≡ false
      → Keeps other m (remember m namespace now, w)
  Keeps-remember m namespace now other w apart =
      (lookup-insert namespace now m.known other ∙ rw apart refl, refl)

  Keeps-remember_created :
      (m : NamespaceMirror) (namespace : Text) (now : ℕ) (other : Text)
      (r : World × Result BackendError Text)
      → (namespace == other) ≡ false
      → Keeps other m (remember_created m namespace now r)
  Keeps-remember_created m namespace now other (w, answer) apart =
      elim (Bool-cases (is_there answer)) [
        | inl there ↦ rw there (Keeps-remember m namespace now other w apart)
        | inr failed ↦ rw failed (refl, refl)
      ]

module _ {World : Type 0} (backend : Backend World) (encode_namespace : Text → Option Text) where
  Keeps-ensure_fetched :
      (m : NamespaceMirror) (namespace : Text) (now : ℕ) (other : Text)
      (r : World × Result BackendError Text)
      → (namespace == other) ≡ false
      → Keeps other m (ensure_fetched backend encode_namespace m namespace now r)
  unfolding ensure_fetched
  Keeps-ensure_fetched m namespace now other (w, ok body) apart =
      Keeps-remember m namespace now other w apart
  Keeps-ensure_fetched m namespace now other (w, err reason) apart =
      elim (Option-cases (encode_namespace namespace)) [
        | inl fails ↦ rw (fails, ensure_fetched) (refl, refl)
        | inr (body, encoded) ↦
            rw (encoded, ensure_fetched)
              (Keeps-remember_created m namespace now other (backend.create namespace_path body w)
                apart)
      ]

  Keeps-ensure_checked :
      (m : NamespaceMirror) (namespace : Text) (now : ℕ) (other : Text) (w : World)
      (r : NamespaceMirror × Bool)
      → (namespace == other) ≡ false
      → (lookup other r.0.known ≡ lookup other m.known) × (r.0.ttl ≡ m.ttl)
      → Keeps other m (ensure_checked backend encode_namespace namespace now w r)
  Keeps-ensure_checked m namespace now other w (m1, true) apart same = same
  Keeps-ensure_checked m namespace now other w (m1, false) apart (known, ttl) =
      let (kept, held) = Keeps-ensure_fetched m1 namespace now other _ apart in
      (kept ∙ known, held ∙ ttl)

  Keeps-ensure :
      (m : NamespaceMirror) (namespace : Text) (asked answered : ℕ) (other : Text) (w : World)
      → (namespace == other) ≡ false
      → Keeps other m (ensure backend encode_namespace m namespace asked answered w)
  unfolding ensure
  Keeps-ensure m namespace asked answered other w apart = elim (Bool-cases (namespace == [])) [
    | inl empty ↦ rw (empty, ensure) (refl, refl)
    | inr named ↦
        rw (named, ensure)
          (Keeps-ensure_checked m namespace answered other w (fresh m namespace asked) apart
            (fresh-other m namespace asked other apart))
  ]

  known-ensure :
      (m : NamespaceMirror) (namespace : Text) (asked answered seen : ℕ) (w : World)
      → lookup namespace m.known ≡ some seen
      → asked < seen + m.ttl
      → ensure backend encode_namespace m namespace asked answered w ≡ (m, w)
  unfolding ensure
  known-ensure m namespace asked answered seen w known young = elim (Bool-cases (namespace == [])) [
    | inl empty ↦ rw (empty, ensure) refl
    | inr named ↦
        rw (named, ensure)
          (ap (ensure_checked backend encode_namespace namespace answered w)
            (fresh-hit m namespace seen asked known young))
  ]

  -- Calls one after the other.
  unfoldable pub ensure_all : List Visit → NamespaceMirror × World → NamespaceMirror × World
  ensure_all [] state = state
  ensure_all (v ∷ rest) (m, w) =
      ensure_all rest (ensure backend encode_namespace m v.namespace v.asked v.answered w)

  known-ensure_all :
      (visits : List Visit) (m : NamespaceMirror) (namespace : Text) (seen : ℕ) (w : World)
      → lookup namespace m.known ≡ some seen
      → All (IsEarly namespace (seen + m.ttl)) visits
      → let end = ensure_all visits (m, w) in
        (lookup namespace end.0.known ≡ some seen) × (end.0.ttl ≡ m.ttl)
  unfolding ensure_all
  known-ensure_all [] m namespace seen w known _ = (known, refl)
  known-ensure_all (v ∷ rest) m namespace seen w known (early, more) =
      let next = ensure backend encode_namespace m v.namespace v.asked v.answered w in
      let (kept, ttl) = step v early in
      let (end, last) =
        known-ensure_all rest next.0 namespace seen next.1 (kept ∙ known) (rw ttl more) in
      (end, last ∙ ttl)
    where
      step :
          (v : Visit)
          → IsEarly namespace (seen + m.ttl) v
          → Keeps namespace m (ensure backend encode_namespace m v.namespace v.asked v.answered w)
      step v early = elim (Bool-cases (v.namespace == namespace)) [
        | inr other ↦ Keeps-ensure m v.namespace v.asked v.answered namespace w other
        | inl same ↦
            let young : v.asked < seen + m.ttl = ground (arith, early, same) in
            let here : lookup v.namespace m.known ≡ some seen =
              rw ((==_iff v.namespace namespace).0 same) known in
            rw (known-ensure m v.namespace v.asked v.answered seen w here young) (refl, refl)
      ]

  -- Once a namespace is known, no call for it within the TTL reaches the workspace or changes the
  -- mirror, whatever calls for other namespaces come between and however often it is called.
  pub once-ensure_all :
      (visits : List Visit) (m : NamespaceMirror) (namespace : Text) (asked answered seen : ℕ)
      (w : World)
      → lookup namespace m.known ≡ some seen
      → All (IsEarly namespace (seen + m.ttl)) visits
      → asked < seen + m.ttl
      → let end = ensure_all visits (m, w) in
        ensure backend encode_namespace end.0 namespace asked answered end.1 ≡ end
  once-ensure_all visits m namespace asked answered seen w known early young =
      let end = ensure_all visits (m, w) in
      let (still, ttl) = known-ensure_all visits m namespace seen w known early in
      known-ensure end.0 namespace asked answered seen end.1 still (rw ttl young)
