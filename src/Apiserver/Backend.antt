-- ===== src/Apiserver/Backend.antt =====
-- What pkg/apiserver asks of a workspace on its own behalf: the parts of the client of kcp that
-- admission (`patchBackend`) and the namespace mirror (`namespaceBackend`) take. `World` is all that
-- the calls read and change outside of the program.
use spillway.Prelude.{ℕ, List, Result}
use spillway.Prelude.Text.{Text}

-- A backendStatusError, and any other error.
pub data BackendError : Type 0 where
  status_error : (status : ℕ) → BackendError
  no_response : BackendError

-- url.Values, as its pairs of a key and one of its values.
abbrev pub Values : Type 0
Values = List (Text × Text)

pub record Backend (World : Type 0) : Type 0 where
  pub fetch : (path : Text) → World → World × Result BackendError Text
  pub patch_dry_run :
      (path : Text)
      → Values
      → (content_type patch : Text) → World
      → World × Result BackendError Text
  pub create : (path body : Text) → World → World × Result BackendError Text
