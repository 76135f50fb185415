-- ===== src/Apiserver/Credentials.antt =====
-- `credentialSource` of pkg/apiserver/credentials.go. Outside it are the files, the hash, the
-- kubeconfig loader and the builder of transports: the section's parameters say what they return.
pub mod Rotation
mod Tests
use spillway.Prelude.{
  ℕ, ◌≡◌, Bool, true, false, Option, none, some, List, [], ◌∷◌, ◌++◌, if◌then◌else◌, Result, ok,
  err, ◌>>=◌, ◌==◌, ◌||◌, eqb, ℕ,
}
use spillway.Prelude.Text.{Text, bytes, text_key}
use spillway.Kcp.Metrics.{Metric, observe_credential_reload}

-- Config is rest.Config, Transport is what credentialedRoundTripper returns.
pub record Credentials (Config Transport : Type 0) : Type 0 where
  pub host : Config → Text
  pub round_tripper : Config → Option Transport
  pub sum256 : Text → Text

-- The kubeconfig at one moment: what reading the file gives, and what loading it gives.
pub record Kubeconfig (Config : Type 0) : Type 0 where
  pub content : Option Text
  pub config : Option Config

pub data CredentialError : Type 0 where
  reading loading building : CredentialError
  moved : (now before : Text) → CredentialError

pub record CredentialSource (Transport : Type 0) : Type 0 where
  pub path : Text
  pub server : Text
  pub digest : Text
  pub current : Transport

module _ {Config Transport : Type 0} (outside : Credentials Config Transport) where
  open outside use {host, round_tripper, sum256}

  -- fileDigest(path); the digest of no path is the array of zeros, written as the empty text
  unfoldable pub file_digest : Text → Kubeconfig Config → Option Text
  file_digest path file =
      if path == []
      then some []
      else elim file.content [ none ↦ none | some content ↦ some (sum256 content) ]

  abbrev or_empty : Option Text → Text
  or_empty none = []
  or_empty (some digest) = digest

  abbrev or_error {ℓ κ} : {E : Type ℓ} {A : Type κ} → E → Option A → Result E A
  or_error e none = err e
  or_error e (some a) = ok a

  -- newCredentialSource(path, config, options)
  unfoldable pub new_credential_source :
      Text → Kubeconfig Config → Config → Result CredentialError (CredentialSource Transport)
  unfolding file_digest
  new_credential_source path file config = or_error building (round_tripper config) >>= λ transport.
      ok (record {
        path = path;
        server = host config;
        digest = or_empty (file_digest path file);
        current = transport;
      })

  -- The rest of `reload`, once the digest of the file is seen to have changed.
  pub reload_changed :
      CredentialSource Transport
      → Kubeconfig Config
      → (digest : Text) → Result CredentialError Bool × CredentialSource Transport
  reload_changed s file digest = elim file.config [
    | none ↦ (err loading, s)
    | some config ↦
        if host config == s.server
        then elim (round_tripper config) [
          | none ↦ (err building, s)
          | some transport ↦ (ok true, record s { current = transport; digest = digest })
        ]
        else (err (moved (host config) s.server), record s { digest = digest })
  ]

  -- s.reload(): whether the transport was replaced, or the error, and the source after it
  unfoldable pub reload :
      CredentialSource Transport
      → Kubeconfig Config
      → Result CredentialError Bool × CredentialSource Transport
  reload s file = if s.path == [] then (ok false, s) else elim (file_digest s.path file) [
    | none ↦ (err reading, s)
    | some digest ↦ if digest == s.digest then (ok false, s) else reload_changed s file digest
  ]

  abbrev reload_metrics : Text → Result CredentialError Bool → List Metric
  reload_metrics workspace (err e) = observe_credential_reload workspace (bytes "error")
  reload_metrics workspace (ok true) = observe_credential_reload workspace (bytes "reloaded")
  reload_metrics workspace (ok false) = []

  unfoldable pub reload_loop :
      (workspace : Text)
      → CredentialSource Transport
      → List (Kubeconfig Config)
      → CredentialSource Transport × List Metric
  reload_loop workspace s [] = (s, [])
  reload_loop workspace s (file ∷ rest) =
      let (result, next) = reload s file in
      let (last, metrics) = reload_loop workspace next rest in
      (last, reload_metrics workspace result ++ metrics)

  -- s.run(ctx, period, workspace), with the file at each tick before the context ends
  unfoldable pub run :
      (workspace : Text) (period : ℕ)
      → CredentialSource Transport
      → List (Kubeconfig Config)
      → CredentialSource Transport × List Metric
  run workspace period s ticks =
      if s.path == [] || eqb period 0 then (s, []) else reload_loop workspace s ticks
