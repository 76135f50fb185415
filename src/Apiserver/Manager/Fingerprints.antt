-- ===== src/Apiserver/Manager/Fingerprints.antt =====
-- What the fingerprint of pkg/apiserver/workspacemanager.go tells apart.
use mathlib.Core.List.{append_assoc}
use spillway.Prelude.{
  ◌∙◌, ℕ, ◌++◌, ◌≡◌, refl, sym, Bool, true, false, List, [], ◌∷◌, arith, All, ap, length,
}
use spillway.Prelude.Text.{Text, text_key, contains_byte, join}
use spillway.Prelude.Sets.{Sets}
use spillway.Kcp.Groups.{to_string}
use spillway.Apiserver.Manager.{
  BackendOptions, WorkspaceConfig, Formats, fields, fingerprint, bool_text,
}

-- Texts without a zero byte, which two zero bytes of a whole cannot be mistaken for.
abbrev pub IsPlain : Text → Type 0
IsPlain s = contains_byte s 0 ≡ false

cut-zero : (a b s t : Text) → IsPlain a → IsPlain b → a ++ 0 ∷ s ≡ b ++ 0 ∷ t → (a ≡ b) × (s ≡ t)
unfolding contains_byte
cut-zero [] [] s t pa pb e = ground (arith, e)
cut-zero [] (y ∷ b) s t pa pb e = ground (arith, e)
cut-zero (x ∷ a) [] s t pa pb e = ground (arith, e)
cut-zero (x ∷ a) (y ∷ b) s t pa pb e =
    ground (arith, e, cut-zero a b s t (ground (arith, pa)) (ground (arith, pb)))

join-injective :
    (xs ys : List Text)
    → length xs ≡ length ys
    → All IsPlain xs
    → All IsPlain ys
    → join (0 ∷ []) xs ≡ join (0 ∷ []) ys
    → xs ≡ ys
unfolding join
join-injective [] [] same px py e = refl
join-injective [] (y ∷ ys) same px py e = ground arith
join-injective (x ∷ xs) [] same px py e = ground arith
join-injective (x ∷ []) (y ∷ []) same px py e = ap (λ z. z ∷ []) e
join-injective (x ∷ []) (y ∷ y' ∷ ys) same px py e = ground arith
join-injective (x ∷ x' ∷ xs) (y ∷ []) same px py e = ground arith
join-injective (x ∷ x' ∷ xs) (y ∷ y' ∷ ys) same (px, pxs) (py, pys) e =
    let (head, tail) = cut-zero x y (join (0 ∷ []) (x' ∷ xs)) (join (0 ∷ []) (y' ∷ ys)) px py (
      sym (append_assoc x (0 ∷ []) (join (0 ∷ []) (x' ∷ xs)))
      ∙ e
      ∙ append_assoc y (0 ∷ []) (join (0 ∷ []) (y' ∷ ys))) in
    let more = join-injective (x' ∷ xs) (y' ∷ ys) (omega (arith, same)) pxs pys tail in
    cc (head, more)

bool_text-injective : (a b : Bool) → bool_text a ≡ bool_text b → a ≡ b
bool_text-injective true true e = refl
bool_text-injective false false e = refl
bool_text-injective true false e = ground (arith, e)
bool_text-injective false true e = ground (arith, e)

backend-same :
    (a b : BackendOptions)
    → a.request_timeout ≡ b.request_timeout
    → a.retries ≡ b.retries
    → a.failure_threshold ≡ b.failure_threshold
    → a.circuit_cooldown ≡ b.circuit_cooldown
    → a ≡ b
backend-same a b e1 e2 e3 e4 = cc (e1, e2, e3, e4)

module _ ⦃S : Sets Text⦄ where
  -- Two configurations with one fingerprint agree in every field that the fingerprint is built
  -- from, when none of the fields has a zero byte and the formats of numbers and durations tell
  -- their values apart.
  pub fingerprint-injective :
      (f : Formats) (a b : WorkspaceConfig)
      → ((m n : ℕ) → f.number m ≡ f.number n → m ≡ n)
      → ((m n : ℕ) → f.duration m ≡ f.duration n → m ≡ n)
      → All IsPlain (fields f a)
      → All IsPlain (fields f b)
      → fingerprint f a ≡ fingerprint f b
      → (a.name ≡ b.name)
        × (a.kubeconfig ≡ b.kubeconfig)
        × (to_string a.api_groups ≡ to_string b.api_groups)
        × (a.impersonate_users ≡ b.impersonate_users)
        × (a.backend ≡ b.backend)
  unfolding fingerprint
  fingerprint-injective f a b numbers durations pa pb e =
      let same = join-injective (fields f a) (fields f b) refl pa pb e in
      (
        cc same,
        cc same,
        cc same,
        bool_text-injective a.impersonate_users b.impersonate_users (cc same),
        backend-same a.backend b.backend
            (durations a.backend.request_timeout b.backend.request_timeout (cc same))
            (numbers a.backend.retries b.backend.retries (cc same))
            (numbers a.backend.failure_threshold b.backend.failure_threshold (cc same))
            (durations a.backend.circuit_cooldown b.backend.circuit_cooldown (cc same)),
      )
