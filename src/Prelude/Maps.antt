-- ===== src/Prelude/Maps.antt =====
-- Go maps as association lists: a read takes the first entry of a key, a write replaces it.
use mathlib.Core.Path.{◌≡◌, refl, ap, ◌∙◌, subst}
use mathlib.Core.Logic.{inl, inr}
use mathlib.Core.Option.{Option, none, some, some-injective}
use mathlib.Core.List.{List, [], ◌∷◌}
use native.Mathlib.Omega.{arith}
use spillway.Prelude.Tests.{Comparable, ◌==◌, ==_iff, if◌then◌else◌, Bool-cases}
use spillway.Prelude.Lists.{All}

abbrev pub Map {ℓ κ} : Type ℓ → Type κ → Type (ℓ ⊔ κ)
Map K V = List (K × V)

module _ {ℓ κ} {K : Type ℓ} {V : Type κ} ⦃compared : Comparable K⦄ where
  unfoldable pub lookup : K → Map K V → Option V
  lookup wanted [] = none
  lookup wanted ((key, value) ∷ more) = if key == wanted then some value else lookup wanted more

  unfoldable pub insert : K → V → Map K V → Map K V
  insert new value [] = (new, value) ∷ []
  insert new value ((key, old) ∷ more) =
      let kept = (key, old) ∷ insert new value more in
      if key == new then (new, value) ∷ more else kept

  unfoldable pub erase : K → Map K V → Map K V
  erase gone [] = []
  erase gone ((key, value) ∷ more) =
      let rest = erase gone more in if key == gone then rest else (key, value) ∷ rest

  pub lookup-insert :
      (new : K) (value : V) (entries : Map K V) (wanted : K)
      → lookup wanted (insert new value entries)
        ≡ (if new == wanted then some value else lookup wanted entries)
  unfolding lookup insert
  lookup-insert new value [] wanted = refl
  lookup-insert new value ((key, old) ∷ more) wanted = ground (
    arith,
    lookup-insert new value more wanted,
    ==_iff key new,
    ==_iff key wanted,
    ==_iff new wanted,
  )

  pub lookup-erase :
      (gone : K) (entries : Map K V) (wanted : K)
      → lookup wanted (erase gone entries)
        ≡ (if gone == wanted then none else lookup wanted entries)
  unfolding lookup erase
  lookup-erase gone [] wanted = ground arith
  lookup-erase gone ((key, value) ∷ more) wanted =
      ground (
        arith,
        lookup-erase gone more wanted,
        ==_iff key gone,
        ==_iff key wanted,
        ==_iff gone wanted,
      )

-- A Go map has one entry for each of its keys.
abbrev pub IsMap {ℓ κ} : {K : Type ℓ} {V : Type κ} ⦃compared : Comparable K⦄ → Map K V → Type κ
IsMap [] = Unit
IsMap ((key, value) ∷ more) = (lookup key more ≡ none) × IsMap more

-- What every entry of a map satisfies, after a write and at a read.
module _ {K V : Type 0} ⦃compared : Comparable K⦄ (P : K × V → Type 0) where
  pub All-insert :
      (new : K) (value : V) (entries : Map K V)
      → All P entries
      → P (new, value)
      → All P (insert new value entries)
  unfolding insert
  All-insert new value [] _ p = (p, tt)
  All-insert new value ((key, old) ∷ more) (q, rest) p = elim (Bool-cases (key == new)) [
    | inl same ↦ rw same (p, rest)
    | inr other ↦ rw other (q, All-insert new value more rest p)
  ]

  pub All-lookup :
      (entries : Map K V) (wanted : K) (value : V)
      → All P entries
      → lookup wanted entries ≡ some value
      → P (wanted, value)
  unfolding lookup
  All-lookup [] wanted value _ found = cc
  All-lookup ((key, old) ∷ more) wanted value (q, rest) found = elim (Bool-cases (key == wanted)) [
    | inl same ↦
        let here : some old ≡ some value = ground (arith, same) in
        subst P
          (ap (λ k. (k, old)) ((==_iff key wanted).0 same)
            ∙ ap (λ v. (wanted, v)) (some-injective old value here))
          q
    | inr other ↦ All-lookup more wanted value rest (ground (arith, other))
  ]
