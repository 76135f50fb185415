-- ===== src/Prelude/ListSets.antt =====
-- Lists with no repeated value have what the documentation of sets.Set says.
use mathlib.Core.Path.{◌≡◌, refl}
use mathlib.Core.Bool.{Bool, ◌&&◌, not, ◌||◌}
use mathlib.Core.List.{List, [], ◌∷◌}
use mathlib.Core.Logic.{inl, inr}
use native.Mathlib.Omega.{arith}
use spillway.Prelude.Tests.{Comparable, ◌==◌, ==_iff, Bool-cases, if◌then◌else◌}
use spillway.Prelude.Lists.{length, any}
use spillway.Prelude.Sets.{Sets}

module _ {K : Type 0} ⦃compared : Comparable K⦄ where
  abbrev member : List K → K → Bool
  member s k = any (λ j. j == k) s

  abbrev add : List K → K → List K
  add s k = if member s k then s else k ∷ s

  abbrev without : List K → List K → List K
  without [] t = []
  without (k ∷ s) t = let rest = without s t in if member t k then rest else k ∷ rest

  member_same : (s : List K) (k j : K) → k ≡ j → member s k ≡ member s j
  member_same s k j e = rw e refl

  pub member-add : (s : List K) (k j : K) → member (add s k) j ≡ (k == j || member s j)
  member-add s k j = elim (Bool-cases (member s k)) [
    | inl old ↦ elim (Bool-cases (k == j)) [
      | inl same ↦ rw (old, same) (rw (member_same s k j ((==_iff k j).0 same)) at old)
      | inr other ↦ rw (old, other) refl
    ]
    | inr new ↦ rw new refl
  ]

  pub member-without :
      (s t : List K) (k : K) → member (without s t) k ≡ (member s k && not (member t k))
  member-without [] t k = refl
  member-without (i ∷ s) t k = ground (arith, member-without s t k, ==_iff i k, member_same t i k)

instance abbrev pub list_sets : {K : Type 0} ⦃compared : Comparable K⦄ → Sets K
list_sets {K} = record {
  Set = List K;
  empty = [];
  insert = add;
  has = member;
  len = length;
  list = λ s. s;
  difference = without;
  has-empty = λ k. refl;
  has-insert = member-add;
  has-difference = member-without;
  any-list = λ s k. refl;
  length-list = λ s. refl;
}
