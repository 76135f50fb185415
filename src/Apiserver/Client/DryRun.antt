-- ===== src/Apiserver/Client/DryRun.antt =====
-- What the dry run of a patch of pkg/apiserver/backendclient.go asks the workspace.
use mathlib.Core.List.{append-nil}
use spillway.Prelude.{
  ℕ, ◌≡◌, ◌∙◌, refl, ap, Bool, true, false, Option, some, [], ◌∷◌, ◌++◌, if◌then◌else◌, ◌==◌,
  ==_iff, ==-refl, Bool-cases, inl, inr, arith,
}
use spillway.Prelude.Text.{Text, bytes, text_key}
use spillway.Apiserver.Backend.{Values}
use spillway.Apiserver.Paths.{join_two}
use spillway.Apiserver.Client.{
  ClientRequest, Response, values_of, without_key, set_value, answer_of, request_for, do_request,
  dry_run_patch,
}

values_of-append :
    (key : Text) (xs ys : Values) → values_of key (xs ++ ys) ≡ values_of key xs ++ values_of key ys
unfolding values_of
values_of-append key [] ys = refl
values_of-append key ((k, v) ∷ xs) ys = elim (Bool-cases (k == key)) [
  | inl same ↦ rw same (ap (λ l. v ∷ l) (values_of-append key xs ys))
  | inr other ↦ rw other (values_of-append key xs ys)
]

values_of-without_key :
    (gone key : Text) (query : Values)
    → values_of key (without_key gone query) ≡ (if gone == key then [] else values_of key query)
unfolding values_of without_key
values_of-without_key gone key [] = elim (Bool-cases (gone == key)) [
  | inl same ↦ rw same refl
  | inr other ↦ rw other refl
]
values_of-without_key gone key ((k, v) ∷ rest) =
    ground
      (arith, values_of-without_key gone key rest, ==_iff k gone, ==_iff k key, ==_iff gone key)

pub values_of-set_value :
    (name value key : Text) (query : Values)
    → values_of key (set_value name value query)
      ≡ (if name == key then value ∷ [] else values_of key query)
unfolding values_of
values_of-set_value name value key query =
    values_of-append key (without_key name query) ((name, value) ∷ [])
    ∙ ap (λ l. l ++ values_of key ((name, value) ∷ [])) (values_of-without_key name key query)
    ∙ chosen (name == key)
  where
    chosen :
        (b : Bool)
        → (if b then [] else values_of key query) ++ (if b then value ∷ [] else [])
          ≡ (if b then value ∷ [] else values_of key query)
    chosen true = refl
    chosen false = append-nil (values_of key query)

module _ {World : Type 0} (transport : ClientRequest → World → World × Option Response)
    (location_path : Text) (max_spec_bytes : ℕ) where
  -- A request that asks for a dry run of a patch: `All` is its only value for dryRun, and every other
  -- parameter has the values that the caller gave it.
  abbrev pub IsDryRun : (path : Text) → Values → (patch : Text) → ClientRequest → Type 0
  IsDryRun path caller patch r =
      (query : Values) × (r.query ≡ some query)
      × (r.method ≡ bytes "PATCH")
      × (r.path ≡ join_two location_path path)
      × (r.body ≡ some patch)
      × (values_of (bytes "dryRun") query ≡ bytes "All" ∷ [])
      × ((key : Text)
          → (bytes "dryRun" == key) ≡ false
          → values_of key query ≡ values_of key caller)

  -- The dry run of a patch makes one request of the workspace: a patch of the same object with the
  -- same body, which asks for a dry run whatever the caller's query says of that, and otherwise
  -- carries the caller's query.
  pub dry_run_patch-IsDryRun :
      (path : Text) (caller : Values) (content_type patch : Text) (w : World)
      → (r : ClientRequest) × IsDryRun path caller patch r
        × (dry_run_patch transport location_path max_spec_bytes path caller content_type patch w
            ≡ answer_of transport location_path max_spec_bytes (transport r w))
  unfolding do_request
  dry_run_patch-IsDryRun path caller content_type patch w =
      let query = set_value (bytes "dryRun") (bytes "All") caller in
      (
        request_for transport location_path max_spec_bytes (bytes "PATCH") path (some query)
            content_type (some patch) (bytes "spillway") (bytes "dryrun"),
        (query, refl, refl, refl, refl, asked, kept),
        refl,
      )
    where
      asked :
          values_of (bytes "dryRun") (set_value (bytes "dryRun") (bytes "All") caller)
          ≡ bytes "All" ∷ []
      asked =
          values_of-set_value (bytes "dryRun") (bytes "All") (bytes "dryRun") caller
          ∙ rw (==-refl (bytes "dryRun")) refl

      kept :
          (key : Text)
          → (bytes "dryRun" == key) ≡ false
          → values_of key (set_value (bytes "dryRun") (bytes "All") caller) ≡ values_of key caller
      kept key other = values_of-set_value (bytes "dryRun") (bytes "All") key caller ∙ rw other refl
