-- ===== src/Kcp/Groups/Spec.antt =====
-- What the entries of `--api-group` mean, from the comments of pkg/kcp/groups.go: a full name is
-- that group, `*.domain` is every group under the domain, and `!` takes groups back out.
use spillway.Prelude.{
  ℕ, ◌≡◌, ◌≢◌, ◌↔◌, ◌⊎◌, inl, inr, Bool, true, false, none, some, List, [], ◌∷◌, ◌++◌, arith,
  if◌then◌else◌, length, length-append, ◌==◌, Bool-cases, Option-cases, Any, ap,
}
use spillway.Prelude.Text.{
  Text, text_key, text_eq_iff, contains_byte, cut_byte, has_suffix_sound, has_suffix_complete,
}
use spillway.Kcp.Groups.{under_suffix}

-- An entry names a group: it is the group, or a wildcard with the group below its domain.
abbrev pub Names : Text → Text → Type 0
Names pattern group =
    ((contains_byte pattern b'*' ≡ false) × (pattern ≡ group))
    ⊎ ((suffix : Text) × (rest : Text) × (pattern ≡ b'*' ∷ suffix)
        × (rest ≢ [])
        × (group ≡ rest ++ suffix))

abbrev pub Covers : Text → Text → Type 0
Covers group pattern = ((rest : Text) → pattern ≢ b'!' ∷ rest) × Names pattern group

abbrev pub Excludes : Text → Text → Type 0
Excludes group pattern = (rest : Text) × (pattern ≡ b'!' ∷ rest) × Names rest group

-- A configuration serves a group: an entry covers it, and none takes it back out.
abbrev pub Serves : List Text → Text → Type 0
Serves patterns group = Any (Covers group) patterns × ¬ Any (Excludes group) patterns

pub under_suffix_sound :
    (group suffix : Text)
    → under_suffix group suffix ≡ true
    → (rest : Text) × (rest ≢ []) × (group ≡ rest ++ suffix)
unfolding under_suffix
under_suffix_sound group suffix h =
    let (rest, e) = has_suffix_sound group suffix (ground arith) in
    (
      rest,
      (λ empty. ground (arith, ap length e, ap length empty, length-append {0} rest suffix)),
      e,
    )

pub under_suffix_complete :
    (rest suffix : Text) → rest ≢ [] → under_suffix (rest ++ suffix) suffix ≡ true
unfolding under_suffix
under_suffix_complete [] suffix h = ground arith
under_suffix_complete (c ∷ rest) suffix h =
    ground (arith, has_suffix_complete (c ∷ rest) suffix, length-append {0} (c ∷ rest) suffix)

pub cut_byte_sound : (c : ℕ) (s t : Text) → cut_byte c s ≡ some t → s ≡ c ∷ t
unfolding cut_byte
cut_byte_sound c [] t h = ground arith
cut_byte_sound c (b ∷ s) t h = ground arith

-- The same meaning as a test.
unfoldable pub names : Text → Text → Bool
names pattern group =
    if contains_byte pattern b'*'
    then elim (cut_byte b'*' pattern) [ none ↦ false | some suffix ↦ under_suffix group suffix ]
    else (pattern == group)

names_sound : (pattern group : Text) → names pattern group ≡ true → Names pattern group
unfolding names
names_sound pattern group h = elim (Bool-cases (contains_byte pattern b'*')) [
  | inr plain ↦ inl (plain, (text_eq_iff pattern group).0 (ground arith))
  | inl star ↦ elim (Option-cases (cut_byte b'*' pattern)) [
    | inl missing ↦ ground arith
    | inr (suffix, cut) ↦
        let (rest, some_rest, e) = under_suffix_sound group suffix (ground arith) in
        inr (suffix, rest, cut_byte_sound b'*' pattern suffix cut, some_rest, e)
  ]
]

names_complete : (pattern group : Text) → Names pattern group → names pattern group ≡ true
unfolding names contains_byte cut_byte
names_complete pattern group (inl (plain, e)) = rw plain ((text_eq_iff pattern group).1 e)
names_complete pattern group (inr (suffix, rest, e, some_rest, split)) =
    rw (e, split) (under_suffix_complete rest suffix some_rest)

pub names_iff : (pattern group : Text) → (names pattern group ≡ true) ↔ Names pattern group
names_iff pattern group = (names_sound pattern group, names_complete pattern group)

abbrev pub covers : Text → Text → Bool
covers group pattern = elim (cut_byte b'!' pattern) [ none ↦ names pattern group | some _ ↦ false ]

abbrev pub excludes : Text → Text → Bool
excludes group pattern = elim (cut_byte b'!' pattern) [
  | none ↦ false
  | some rest ↦ names rest group
]

cut_bang : (rest : Text) → cut_byte b'!' (b'!' ∷ rest) ≡ some rest
unfolding cut_byte
cut_bang rest = ground arith

no_bang : (pattern : Text) → cut_byte b'!' pattern ≡ none → (rest : Text) → pattern ≢ b'!' ∷ rest
no_bang pattern plain rest e = cc (cut_bang rest, ap (cut_byte b'!') e)

pub covers_iff : (group pattern : Text) → (covers group pattern ≡ true) ↔ Covers group pattern
covers_iff group pattern = elim (Option-cases (cut_byte b'!' pattern)) [
  | inl plain ↦
      rw (plain, covers)
        (
          (λ h. (no_bang pattern plain, names_sound pattern group h)),
          λ c. names_complete pattern group c.1,
        )
  | inr (rest, bang) ↦
      rw (bang, covers) ((λ h. cc), λ c. absurd (c.0 rest (cut_byte_sound b'!' pattern rest bang)))
]

same_rest : (pattern s t : Text) → cut_byte b'!' pattern ≡ some s → pattern ≡ b'!' ∷ t → t ≡ s
same_rest pattern s t bang e = cc (cut_bang t, ap (cut_byte b'!') e)

pub excludes_iff : (group pattern : Text) → (excludes group pattern ≡ true) ↔ Excludes group pattern
excludes_iff group pattern = elim (Option-cases (cut_byte b'!' pattern)) [
  | inl plain ↦ rw (plain, excludes) ((λ h. cc), λ x. absurd (no_bang pattern plain x.0 x.1))
  | inr (rest, bang) ↦
      rw (bang, excludes)
        (
          (λ h. (rest, cut_byte_sound b'!' pattern rest bang, names_sound rest group h)),
          λ x. names_complete rest group (rw (same_rest pattern rest x.0 bang x.1) at x.2),
        )
]
