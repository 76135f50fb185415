-- ===== src/Apiserver/Handler/Proxied.antt =====
-- Which requests the handler of pkg/apiserver/discovery.go hands to a proxy.
use mathlib.Core.List.{append_assoc}
use spillway.Prelude.{
  ℕ, ◌≡◌, ◌≢◌, ◌∙◌, ◌⊎◌, refl, sym, ap, subst, eqb, eqb_iff, true, false, ◌||◌, some, List, [], ◌∷◌,
  ◌++◌, ◌==◌, drop-append, Bool-cases, Option-cases, inl, inr, arith,
}
use spillway.Prelude.Text.{Text, bytes, text_key, text_eq, has_prefix-append, contains_byte}
use spillway.Prelude.Maps.{lookup}
use spillway.Kcp.Api.{GroupVersion, group_version_key, ApiResource}
use spillway.Apiserver.Paths.Segments.{IsSegment}
use spillway.Apiserver.Handler.{
  Cut, cut_slash, trim_prefix, proxied, DiscoveryHandler, proxy_to, serve_group, serve_version,
  serve_under_group, is_foreign, serve_path, serve_cut, serve_group_path,
}

trim_prefix-append : (p s : Text) → trim_prefix (p ++ s) p ≡ s
unfolding trim_prefix
trim_prefix-append p s = rw (has_prefix-append p s) (drop-append {0} p s)

-- What is cut puts the text together again; without a slash it is all before it.
abbrev IsCut : Text → Cut → Type 0
IsCut s c =
    IsSegment c.before
    × (((c.found ≡ true) × (s ≡ c.before ++ (b'/' ∷ c.after)))
        ⊎ ((c.found ≡ false) × (s ≡ c.before) × (c.after ≡ [])))

IsCut-cut_slash : (s : Text) → IsCut s (cut_slash s)
unfolding cut_slash contains_byte
IsCut-cut_slash [] = (refl, inr (refl, refl, refl))
IsCut-cut_slash (c ∷ s) =
    let (segment, whole) = IsCut-cut_slash s in
    elim (Bool-cases (eqb c b'/')) [
      | inl slash ↦ rw slash (refl, inl (refl, ap (λ x. x ∷ s) ((eqb_iff c b'/').0 slash)))
      | inr other ↦ rw other (
        ground (arith, segment),
        elim whole [
          | inl (found, same) ↦ inl (found, ap (λ t. c ∷ t) same)
          | inr (missing, same, empty) ↦ inr (missing, ap (λ t. c ∷ t) same, empty)
        ],
      )
    ]

-- A path under a version that the snapshot has, of a group that is the server's.
abbrev pub IsUnder : DiscoveryHandler → (path : Text) → (group : Text) (address : ℕ) → Type 0
IsUnder h path group address =
    (version : Text) × (rest : Text) × (resources : List ApiResource) × (path
      ≡ group ++ (b'/' ∷ (version ++ (b'/' ∷ rest))))
    × ((rest == []) ≡ false)
    × IsSegment group
    × IsSegment version
    × (is_foreign h.owns group ≡ false)
    × (lookup (record { group = group; version = version }) h.snapshot.resources ≡ some resources)
    × (proxy_to h group ≡ some address)

serve_group_lem :
    (h : DiscoveryHandler) (group other : Text) (address : ℕ)
    → serve_group h group ≢ proxied other address
unfolding serve_group
serve_group_lem h group other address = elim (Option-cases (lookup group h.snapshot.groups)) [
  | inl missing ↦ λ e. absurd (cc (rw (missing, serve_group) at e))
  | inr (api_group, known) ↦ λ e. absurd (cc (rw (known, serve_group) at e))
]

serve_version_lem :
    (h : DiscoveryHandler) (gv : GroupVersion) (rest : Text) (resources : List ApiResource)
    (group : Text) (address : ℕ)
    → serve_version h gv rest resources ≡ proxied group address
    → ((rest == []) ≡ false) × (gv.group ≡ group) × (proxy_to h gv.group ≡ some address)
unfolding serve_version
serve_version_lem h gv rest resources group address e = elim (Bool-cases (rest == [])) [
  | inl none_left ↦ absurd (cc (rw (none_left, serve_version) at e))
  | inr more ↦ elim (Option-cases (proxy_to h gv.group)) [
    | inl refused ↦ absurd (cc (rw (more, serve_version, refused) at e))
    | inr (a, known) ↦
        let same : proxied gv.group a ≡ proxied group address =
          rw (more, serve_version, known) at e in
        (more, cc (same), known ∙ ap some (cc (same)))
  ]
]

cut_under :
    (group after : Text)
    → trim_prefix
        (bytes "/apis/" ++ (group ++ (b'/' ∷ after)))
        (bytes "/apis/" ++ (group ++ bytes "/"))
      ≡ after
cut_under group after =
    ap (λ path. trim_prefix path (bytes "/apis/" ++ (group ++ bytes "/")))
      (sym (
        append_assoc (bytes "/apis/") (group ++ bytes "/") after
        ∙ ap (λ t. bytes "/apis/" ++ t) (append_assoc group (bytes "/") after)))
    ∙ trim_prefix-append (bytes "/apis/" ++ (group ++ bytes "/")) after

IsUnder-serve_cut :
    (h : DiscoveryHandler) (group after other : Text) (address : ℕ) (c : Cut)
    → IsCut after c
    → IsSegment group
    → is_foreign h.owns group ≡ false
    → serve_cut h group c ≡ proxied other address
    → (group ≡ other) × IsUnder h (group ++ (b'/' ∷ after)) group address
unfolding serve_cut text_eq
IsUnder-serve_cut h group after other address c (whole, cut) segment owned e =
    let gv : GroupVersion = record { group = group; version = c.before } in
    elim (Bool-cases (c.before == [])) [
      | inl bare ↦ absurd (serve_group_lem h group other address (rw (bare, serve_cut) at e))
      | inr versioned ↦ elim (Option-cases (lookup gv h.snapshot.resources)) [
        | inl missing ↦ absurd (cc (rw (versioned, serve_cut, missing) at e))
        | inr (resources, known) ↦
            let (more, same, there) =
              serve_version_lem h gv c.after resources other address
                (rw (versioned, serve_cut, known) at e) in
            elim cut [
              | inr (_, _, empty) ↦ absurd (cc (rw empty at more))
              | inl (_, joined) ↦ (
                same,
                (
                  c.before,
                  c.after,
                  resources,
                  ap (λ t. group ++ (b'/' ∷ t)) joined,
                  more,
                  segment,
                  whole,
                  owned,
                  known,
                  there,
                ),
              )
            ]
      ]
    ]

IsUnder-serve_under_group :
    (h : DiscoveryHandler) (group after other : Text) (address : ℕ)
    → IsSegment group
    → is_foreign h.owns group ≡ false
    → serve_under_group h group (bytes "/apis/" ++ (group ++ (b'/' ∷ after)))
      ≡ proxied other address
    → (group ≡ other) × IsUnder h (group ++ (b'/' ∷ after)) group address
unfolding serve_under_group
IsUnder-serve_under_group h group after other address segment owned e =
    IsUnder-serve_cut h group after other address (cut_slash after) (IsCut-cut_slash after) segment
      owned (ap (λ t. serve_cut h group (cut_slash t)) (sym (cut_under group after)) ∙ e)

IsUnder-serve_group_path :
    (h : DiscoveryHandler) (path group : Text) (address : ℕ) (c : Cut)
    → IsCut path c
    → serve_group_path h (bytes "/apis/" ++ path) c ≡ proxied group address
    → IsUnder h path group address
unfolding serve_group_path
IsUnder-serve_group_path h path group address c (segment, cut) e =
    elim (Bool-cases (c.before == [] || is_foreign h.owns c.before)) [
      | inl refused ↦ absurd (cc (rw (refused, serve_group_path) at e))
      | inr owned ↦ elim cut [
        | inr (missing, _, _) ↦
            absurd (
              serve_group_lem h c.before group address (rw (owned, serve_group_path, missing) at e))
        | inl (found, joined) ↦
            let e1 : serve_under_group h c.before (bytes "/apis/" ++ path) ≡ proxied group address =
              rw (owned, serve_group_path, found) at e in
            let e2 : serve_under_group h c.before (bytes "/apis/" ++ (c.before ++ (b'/' ∷ c.after)))
                ≡ proxied group address =
              ap (λ t. serve_under_group h c.before (bytes "/apis/" ++ t)) (sym joined) ∙ e1 in
            let (same, under) =
              IsUnder-serve_under_group h c.before c.after group address segment
                (ground (arith, owned)) e2 in
            subst (λ g. IsUnder h path g address) same
              (subst (λ t. IsUnder h t c.before address) (sym joined) under)
      ]
    ]

-- A request under /apis/ goes to a proxy only if its path continues, after a group and a version,
-- each without a slash in it, to something below; the group is the server's, the snapshot has that
-- version of it, and the proxy is the one for that group.
pub serve_path-IsUnder :
    (h : DiscoveryHandler) (path group : Text) (address : ℕ)
    → serve_path h (bytes "/apis/" ++ path) ≡ proxied group address
    → IsUnder h path group address
unfolding serve_path
serve_path-IsUnder h path group address e =
    IsUnder-serve_group_path h path group address (cut_slash path) (IsCut-cut_slash path) (
      ap (λ t. serve_group_path h (bytes "/apis/" ++ path) (cut_slash t))
        (sym (trim_prefix-append (bytes "/apis/") path))
      ∙ e)
