-- ===== src/Apiserver/Credentials/Tests.antt =====
-- Reloads of the credentials of pkg/apiserver/credentials.go; a configuration is a host and a token.
use spillway.Prelude.{◌≡◌, refl, true, none, some, [], ◌∷◌, ok, err, ◌==◌, if◌then◌else◌}
use spillway.Prelude.Text.{Text, bytes, text_key, text_eq}
use spillway.Apiserver.Credentials.{
  Credentials, Kubeconfig, moved, CredentialSource, file_digest, new_credential_source, reload,
  reload_changed, run,
}
use spillway.Apiserver.Credentials.Rotation.{IsAimed, run-IsAimed}

abbrev Config : Type 0
Config = Text × Text

abbrev outside : Credentials Config Config
outside = record {
  host = λ config. config.0;
  round_tripper = λ config. if config.1 == [] then none else some config;
  sum256 = λ content. content;
}

abbrev kcp : Text
kcp = bytes "https://kcp"

abbrev file_of : Config → Kubeconfig Config
file_of config = record { content = some config.1; config = some config }

abbrev source : CredentialSource Config
source = record {
  path = bytes "/etc/kubeconfig";
  server = kcp;
  digest = bytes "old";
  current = (kcp, bytes "old");
}

abbrev rotated : Kubeconfig Config
rotated = file_of (kcp, bytes "new")

abbrev elsewhere : Kubeconfig Config
elsewhere = file_of (bytes "https://other", bytes "x")

reload_tests :
    (reload outside source rotated
      ≡ (ok true, record source { digest = bytes "new"; current = (kcp, bytes "new") }))
    × ((reload outside source elsewhere).0 ≡ err (moved (bytes "https://other") kcp))
unfolding reload reload_changed file_digest text_eq
reload_tests = (refl, refl)

made :
    new_credential_source outside
      (bytes "/etc/kubeconfig")
      (file_of (kcp, bytes "old"))
      (kcp, bytes "old")
    ≡ ok source
unfolding new_credential_source file_digest text_eq
made = refl

run-IsAimed_example :
    IsAimed outside kcp (run outside (bytes "a") 60 source (rotated ∷ elsewhere ∷ [])).0
run-IsAimed_example =
    run-IsAimed outside (bytes "/etc/kubeconfig") (bytes "a") 60 (file_of (kcp, bytes "old"))
      (kcp, bytes "old") source (rotated ∷ elsewhere ∷ []) made
