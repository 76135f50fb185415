-- ===== src/Apiserver/Credentials/Rotation.antt =====
-- Rotating the credentials of pkg/apiserver/credentials.go.
use spillway.Prelude.{
  ℕ, ◌≡◌, refl, ◌∙◌, sym, subst, Bool, true, false, some, List, [], ◌∷◌, Result, ok, err, ◌==◌,
  ◌||◌, ==_iff, ==-refl, arith, inl, inr, Bool-cases, Option-cases, eqb,
}
use spillway.Prelude.Text.{Text, text_key}
use spillway.Apiserver.Credentials.{
  Credentials, Kubeconfig, CredentialError, reading, loading, building, moved, CredentialSource,
  file_digest, new_credential_source, reload_changed, reload, reload_loop, run,
}

module _ {Config Transport : Type 0} (outside : Credentials Config Transport) where
  -- The transport in use carries the credentials of a kubeconfig for the server that the source
  -- was started with.
  abbrev pub IsAimed : Text → CredentialSource Transport → Type 0
  IsAimed server s =
      (config : Config) × (outside.host config ≡ server)
      × (outside.round_tripper config ≡ some s.current)
      × (s.server ≡ server)

  reload_changed-IsAimed :
      (server : Text) (s : CredentialSource Transport) (file : Kubeconfig Config) (digest : Text)
      → IsAimed server s
      → IsAimed server (reload_changed outside s file digest).1
  unfolding reload_changed
  reload_changed-IsAimed server s file digest aimed = elim (Option-cases file.config) [
    | inl missing ↦ rw missing aimed
    | inr (config, loaded) ↦ elim (Bool-cases (outside.host config == s.server)) [
      | inr elsewhere ↦ rw (loaded, elsewhere) aimed
      | inl same ↦ elim (Option-cases (outside.round_tripper config)) [
        | inl failed ↦ rw (loaded, same, failed) aimed
        | inr (transport, made) ↦
            rw (loaded, same, made)
              (config, (==_iff (outside.host config) s.server).0 same ∙ aimed.3, made, aimed.3)
      ]
    ]
  ]

  reload-IsAimed :
      (server : Text) (s : CredentialSource Transport) (file : Kubeconfig Config)
      → IsAimed server s
      → IsAimed server (reload outside s file).1
  unfolding reload
  reload-IsAimed server s file aimed = elim (Bool-cases (s.path == [])) [
    | inl no_path ↦ rw no_path aimed
    | inr path ↦ elim (Option-cases (file_digest outside s.path file)) [
      | inl unread ↦ rw (path, unread) aimed
      | inr (digest, read) ↦ elim (Bool-cases (digest == s.digest)) [
        | inl same ↦ rw (path, read, same) aimed
        | inr fresh ↦ rw (path, read, fresh) (reload_changed-IsAimed server s file digest aimed)
      ]
    ]
  ]

  reload_loop-IsAimed :
      (workspace server : Text) (s : CredentialSource Transport) (ticks : List (Kubeconfig Config))
      → IsAimed server s
      → IsAimed server (reload_loop outside workspace s ticks).0
  unfolding reload_loop
  reload_loop-IsAimed workspace server s [] aimed = aimed
  reload_loop-IsAimed workspace server s (file ∷ rest) aimed =
      reload_loop-IsAimed workspace server (reload outside s file).1 rest
        (reload-IsAimed server s file aimed)

  new_credential_source-IsAimed :
      (path : Text) (file : Kubeconfig Config) (config : Config) (s : CredentialSource Transport)
      → new_credential_source outside path file config ≡ ok s
      → IsAimed (outside.host config) s
  unfolding new_credential_source
  new_credential_source-IsAimed path file config s h =
      elim (Option-cases (outside.round_tripper config)) [
        | inl failed ↦ ground arith
        | inr (transport, made) ↦ (config, refl, ground arith, ground arith)
      ]

  -- A source, after any ticks and whatever the kubeconfig became, still sends requests with a
  -- transport that was built from a kubeconfig for the server that the source was started with.
  pub run-IsAimed :
      (path workspace : Text) (period : ℕ) (file : Kubeconfig Config) (config : Config)
      (s : CredentialSource Transport) (ticks : List (Kubeconfig Config))
      → new_credential_source outside path file config ≡ ok s
      → IsAimed (outside.host config) (run outside workspace period s ticks).0
  unfolding run
  run-IsAimed path workspace period file config s ticks made =
      let start = new_credential_source-IsAimed path file config s made in
      elim (Bool-cases (s.path == [] || eqb period 0)) [
        | inl idle ↦ rw idle start
        | inr busy ↦ rw busy (reload_loop-IsAimed workspace (outside.host config) s ticks start)
      ]

  -- What a second reload of an unchanged kubeconfig reports.
  abbrev pub settled : Result CredentialError Bool → Result CredentialError Bool
  settled (ok _) = ok false
  settled (err (moved _ _)) = ok false
  settled (err e) = err e

  abbrev pub Settles :
      CredentialSource Transport
      → Kubeconfig Config
      → (Result CredentialError Bool × CredentialSource Transport)
      → Type 0
  Settles s file (result, next) =
      (reload outside next file ≡ (settled result, next))
      × (elim result [ ok true ↦ Unit {0} | _ ↦ next.current ≡ s.current ])

  reload_fresh :
      (s : CredentialSource Transport) (file : Kubeconfig Config) (digest : Text)
      → (s.path == []) ≡ false
      → file_digest outside s.path file ≡ some digest
      → (digest == s.digest) ≡ false
      → reload outside s file ≡ reload_changed outside s file digest
  unfolding reload
  reload_fresh s file digest path read fresh = rw (path, read, fresh) refl

  reload_same :
      (s : CredentialSource Transport) (file : Kubeconfig Config) (digest : Text)
      → (s.path == []) ≡ false
      → file_digest outside s.path file ≡ some digest
      → (digest == s.digest) ≡ true
      → reload outside s file ≡ (ok false, s)
  unfolding reload
  reload_same s file digest path read same = rw (path, read, same) refl

  reload_changed-Settles :
      (s : CredentialSource Transport) (file : Kubeconfig Config) (digest : Text)
      → (s.path == []) ≡ false
      → file_digest outside s.path file ≡ some digest
      → (digest == s.digest) ≡ false
      → Settles s file (reload_changed outside s file digest)
  unfolding reload_changed
  reload_changed-Settles s file digest path read fresh =
      let again = reload_fresh s file digest path read fresh in
      elim (Option-cases file.config) [
        | inl missing ↦
            let e : reload_changed outside s file digest ≡ (err loading, s) = ground arith in
            subst (Settles s file) (sym e) (again ∙ e, refl)
        | inr (config, loaded) ↦ elim (Bool-cases (outside.host config == s.server)) [
          | inr elsewhere ↦
              let next = record s { digest = digest } in
              let e : reload_changed outside s file digest
                  ≡ (err (moved (outside.host config) s.server), next) =
                ground arith in
              subst (Settles s file) (sym e)
                (reload_same next file digest path read (==-refl digest), refl)
          | inl same ↦ elim (Option-cases (outside.round_tripper config)) [
            | inl failed ↦
                let e : reload_changed outside s file digest ≡ (err building, s) = ground arith in
                subst (Settles s file) (sym e) (again ∙ e, refl)
            | inr (transport, made) ↦
                let next = record s { current = transport; digest = digest } in
                let e : reload_changed outside s file digest ≡ (ok true, next) = ground arith in
                subst (Settles s file) (sym e)
                  (reload_same next file digest path read (==-refl digest), tt)
          ]
        ]
      ]

  -- Reloading an unchanged kubeconfig twice changes nothing the second time. A replaced transport
  -- and a server that moved are reported once, and a failure to read, load or build is reported
  -- again; a reload that does not report success keeps the transport.
  pub reload-Settles :
      (s : CredentialSource Transport) (file : Kubeconfig Config)
      → Settles s file (reload outside s file)
  unfolding reload
  reload-Settles s file = elim (Bool-cases (s.path == [])) [
    | inl no_path ↦
        let e : reload outside s file ≡ (ok false, s) = rw no_path refl in
        subst (Settles s file) (sym e) (e, refl)
    | inr path ↦ elim (Option-cases (file_digest outside s.path file)) [
      | inl unread ↦
          let e : reload outside s file ≡ (err reading, s) = rw (path, unread) refl in
          subst (Settles s file) (sym e) (e, refl)
      | inr (digest, read) ↦ elim (Bool-cases (digest == s.digest)) [
        | inl same ↦
            let e = reload_same s file digest path read same in
            subst (Settles s file) (sym e) (e, refl)
        | inr fresh ↦
            subst (Settles s file) (sym (reload_fresh s file digest path read fresh))
              (reload_changed-Settles s file digest path read fresh)
      ]
    ]
  ]
