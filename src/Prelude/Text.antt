-- ===== src/Prelude/Text.antt =====
-- A Go string is its bytes; the operations of package strings that the program uses.
use Prim.Native.Nat.{ℕ, zero, suc, ◌+◌, ◌-◌, ◌≤◌}
use Prim.Native.Char.{code}
use Prim.Native.String.{String}
use mathlib.Core.Path.{◌≡◌, refl, ap}
use mathlib.Core.Logic.{◌↔◌}
use mathlib.Core.Bool.{Bool, true, false, ◌&&◌, ◌||◌}
use mathlib.Core.Option.{Option, none, some}
use mathlib.Core.List.{List, [], ◌∷◌, ◌++◌}
use native.Mathlib.Omega.{arith}
use spillway.Prelude.Tests.{leb, eqb, Comparable, if◌then◌else◌}
use spillway.Prelude.Lists.{length, drop, length-append, drop-append}

abbrev pub Text : Type 0
Text = List ℕ

-- The bytes of a literal, which is ASCII everywhere in the model.
abbrev pub bytes : String → Text
bytes String.[] = []
bytes (String.◌∷◌ c s) = code c ∷ bytes s

unfoldable pub text_eq : Text → Text → Bool
text_eq [] [] = true
text_eq (a ∷ s) (b ∷ t) = eqb a b && text_eq s t
text_eq _ _ = false

pub text_eq_iff : (s t : Text) → (text_eq s t ≡ true) ↔ (s ≡ t)
unfolding text_eq
text_eq_iff [] [] = ground arith
text_eq_iff (a ∷ s) (b ∷ t) = ground (arith, text_eq_iff s t)
text_eq_iff [] (b ∷ t) = ground arith
text_eq_iff (a ∷ s) [] = ground arith

instance abbrev pub text_key : Comparable Text
text_key = record { equal = text_eq; equal_iff = text_eq_iff }

-- strings.HasPrefix
unfoldable pub has_prefix : Text → Text → Bool
has_prefix s [] = true
has_prefix [] (c ∷ p) = false
has_prefix (b ∷ s) (c ∷ p) = eqb b c && has_prefix s p

-- strings.HasSuffix
unfoldable pub has_suffix : Text → Text → Bool
unfolding text_eq
has_suffix s e = leb (length e) (length s) && text_eq (drop (length s - length e) s) e

-- strings.Contains and strings.Count, of a text of one byte
unfoldable pub contains_byte : Text → ℕ → Bool
contains_byte [] c = false
contains_byte (b ∷ s) c = eqb b c || contains_byte s c

unfoldable pub count_byte : Text → ℕ → ℕ
count_byte [] c = 0
count_byte (b ∷ s) c = (if eqb b c then 1 else 0) + count_byte s c

-- strings.CutPrefix, of a prefix of one byte
unfoldable pub cut_byte : ℕ → Text → Option Text
cut_byte c [] = none
cut_byte c (b ∷ s) = if eqb b c then some s else none

-- strings.Join
unfoldable pub join : Text → List Text → Text
join sep [] = []
join sep (s ∷ []) = s
join sep (s ∷ t ∷ r) = s ++ sep ++ join sep (t ∷ r)

drop-length-sub :
    (s e : Text) → length e ≤ length s → (p : Text) × (s ≡ p ++ drop (length s - length e) s)
drop-length-sub s e h = go (length s - length e) s
  where
    go : (n : ℕ) (s : Text) → (p : Text) × (s ≡ p ++ drop n s)
    go zero s = ([], refl)
    go (suc n) [] = ([], refl)
    go (suc n) (c ∷ s) = let (p, e) = go n s in (c ∷ p, ap (λ t. c ∷ t) e)

pub has_suffix_sound : (s e : Text) → has_suffix s e ≡ true → (p : Text) × (s ≡ p ++ e)
unfolding has_suffix
has_suffix_sound s e h =
    let fits : length e ≤ length s = ground arith in
    let (p, cut) = drop-length-sub s e fits in
    let same : text_eq (drop (length s - length e) s) e ≡ true = ground arith in
    (p, rw (← (text_eq_iff _ e).0 same) cut)

pub has_suffix_complete : (p e : Text) → has_suffix (p ++ e) e ≡ true
unfolding has_suffix
has_suffix_complete p e =
    let n : length (p ++ e) - length e ≡ length p = omega (arith, length-append {0} p e) in
    rw n (rw (drop-append {0} p e) (ground (arith, length-append {0} p e, text_eq_iff e e)))

pub has_prefix-append : (s t : Text) → has_prefix (s ++ t) s ≡ true
unfolding has_prefix
has_prefix-append [] t = refl
has_prefix-append (c ∷ s) t = ground (arith, has_prefix-append s t)
