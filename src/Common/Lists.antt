-- ===== src/Common/Lists.antt =====
-- Lists measured by native numbers, byte strings and their order.
use Prim.Native.Nat.{ℕ, zero, suc, ◌+◌, ◌-◌}
use mathlib.Core.Path.{◌≡◌, refl}
use mathlib.Core.Bool.{Bool, true, false, ◌&&◌}
use mathlib.Core.List.{List, [], ◌∷◌, ◌++◌}
use Prim.Native.Char.{code}
use Prim.Native.String.{String}
use native.Mathlib.Omega.{arith}
use go_codec_dagpb.Common.Tests.{◌==◌, ==_refl, ltb, if◌then◌else◌}

module _ {ℓ} {A : Type ℓ} where
  abbrev pub length : List A → ℕ
  length [] = 0
  length (x ∷ xs) = suc (length xs)

  abbrev pub drop : ℕ → List A → List A
  drop zero xs = xs
  drop (suc n) [] = []
  drop (suc n) (x ∷ xs) = drop n xs

  abbrev pub All {κ} : (A → Type κ) → List A → Type κ
  All P [] = Unit
  All P (x ∷ xs) = P x × All P xs

  -- The items for which the test holds, in their order.
  abbrev pub filter : (A → Bool) → List A → List A
  filter q [] = []
  filter q (x ∷ xs) = let rest = filter q xs in if q x then x ∷ rest else rest

  pub length-append : (xs ys : List A) → length (xs ++ ys) ≡ length xs + length ys
  length-append [] ys = omega arith
  length-append (x ∷ xs) ys = omega (arith, length-append xs ys)

  pub length-drop : (n : ℕ) (xs : List A) → length (drop n xs) ≡ length xs - n
  length-drop zero xs = omega arith
  length-drop (suc n) [] = omega arith
  length-drop (suc n) (x ∷ xs) = omega (arith, length-drop n xs)

  pub drop-append : (xs ys : List A) → drop (length xs) (xs ++ ys) ≡ ys
  drop-append [] ys = refl
  drop-append (x ∷ xs) ys = drop-append xs ys

-- A Go string or []byte: the list of its bytes.
abbrev pub Bytes : Type 0
Bytes = List ℕ

-- `s == t` on Go strings.
abbrev pub same : Bytes → Bytes → Bool
same [] [] = true
same [] (y ∷ ys) = false
same (x ∷ xs) [] = false
same (x ∷ xs) (y ∷ ys) = x == y && same xs ys

-- `s < t` on Go strings: the order of the bytes.
unfoldable pub less : Bytes → Bytes → Bool
less [] [] = false
less [] (y ∷ ys) = true
less (x ∷ xs) [] = false
less (x ∷ xs) (y ∷ ys) =
    let rest = less xs ys in if ltb x y then true else if x == y then rest else false

-- The bytes of an ASCII literal.
abbrev pub codes : String → Bytes
codes String.[] = []
codes (String.◌∷◌ c s) = code c ∷ codes s

pub same_refl : (s : Bytes) → same s s ≡ true
same_refl [] = refl
same_refl (x ∷ xs) = rw (==_refl x) (same_refl xs)

-- `less` is the strict part of a linear order.
pub less-asym : (s t : Bytes) → less s t ≡ true → less t s ≡ false
unfolding less
less-asym [] (y ∷ t) h = refl
less-asym [] [] h = refl
less-asym (x ∷ s) [] h = absurd (cc)
less-asym (x ∷ s) (y ∷ t) h = ground (arith, less-asym s t)

pub less-negative_trans : (s t u : Bytes) → less t s ≡ false → less u t ≡ false → less u s ≡ false
unfolding less
less-negative_trans [] t [] h h' = refl
less-negative_trans (x ∷ s) [] [] h h' = absurd (cc)
less-negative_trans (x ∷ s) (y ∷ t) [] h h' = absurd (cc)
less-negative_trans [] t (z ∷ u) h h' = refl
less-negative_trans (x ∷ s) [] (z ∷ u) h h' = absurd (cc)
less-negative_trans (x ∷ s) (y ∷ t) (z ∷ u) h h' = ground (arith, less-negative_trans s t u)
