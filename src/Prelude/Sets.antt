-- ===== src/Prelude/Sets.antt =====
-- k8s.io/apimachinery/pkg/util/sets, over any type of elements, by its documented behaviour.
use Prim.Native.Nat.{ℕ}
use mathlib.Core.Path.{◌≡◌}
use mathlib.Core.Bool.{Bool, false, ◌&&◌, not, ◌||◌}
use mathlib.Core.List.{List}
use spillway.Prelude.Tests.{Comparable, ◌==◌}
use spillway.Prelude.Lists.{length, any}

pub record Sets (K : Type 0) ⦃compared : Comparable K⦄ : Type 1 where
  -- sets.Set[K], sets.New, Insert, Has, Len, sets.List or UnsortedList, Difference
  pub Set : Type 0
  pub empty : Set
  pub insert : Set → K → Set
  pub has : Set → K → Bool
  pub len : Set → ℕ
  pub list : Set → List K
  pub difference : Set → Set → Set
  pub has-empty : (k : K) → has empty k ≡ false
  pub has-insert : (s : Set) (k j : K) → has (insert s k) j ≡ (k == j || has s j)
  pub has-difference : (s t : Set) (k : K) → has (difference s t) k ≡ (has s k && not (has t k))
  pub any-list : (s : Set) (k : K) → any (λ j. j == k) (list s) ≡ has s k
  pub length-list : (s : Set) → length (list s) ≡ len s
