-- ===== src/Apiserver/Documents.antt =====
-- `documentCache` of pkg/apiserver/openapicache.go. The build of a document, a call to kcp, is an
-- argument: what it answers if it is called now.
pub mod Freshness
mod Tests
use spillway.Prelude.{
  ℕ, zero, suc, ◌+◌, Bool, true, false, ◌&&◌, Option, none, some, List, [], ◌∷◌, if◌then◌else◌,
  Result, ok, err, eqb,
}
use spillway.Prelude.Text.{Text}

pub record DocumentCache : Type 0 where
  pub document : Text
  pub generation : ℕ
  pub built : Bool

-- newDocumentCache(build)
abbrev pub new_document_cache : DocumentCache
new_document_cache = record { document = []; generation = 0; built = false }

-- A document or the error of the build, the cache after it, and how often the build was called.
pub record Got (E : Type 0) : Type 0 where
  pub result : Result E Text
  pub cache : DocumentCache
  pub builds : ℕ

module _ {E : Type 0} where
  rebuild : DocumentCache → ℕ → Result E Text → Got E
  rebuild c generation (ok document) = record {
    result = ok document;
    cache = record { document = document; generation = generation; built = true };
    builds = 1;
  }
  rebuild c generation (err e) = record {
    result = if c.built then ok c.document else err e;
    cache = c;
    builds = 1;
  }

  -- c.get(ctx, generation)
  unfoldable pub get : DocumentCache → (generation : ℕ) (build : Result E Text) → Got E
  unfolding rebuild
  get c generation build =
      if c.built && eqb c.generation generation
      then record { result = ok c.document; cache = c; builds = 0 }
      else rebuild c generation build

-- c.invalidate()
unfoldable pub invalidate : DocumentCache → DocumentCache
invalidate c = record c { built = false }
