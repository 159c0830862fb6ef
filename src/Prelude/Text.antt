-- ===== src/Prelude/Text.antt =====
-- `std::string` and ranges of `char` as lists of bytes.
use Prim.Native.Nat.{ℕ, suc, ◌≤◌}
use Prim.Native.Char.{code}
use Prim.Native.String.{String}
use mathlib.Core.Path.{◌≡◌, refl}
use mathlib.Core.Logic.{◌↔◌}
use mathlib.Core.Bool.{Bool, true, false, ◌&&◌}
use mathlib.Core.List.{List, [], ◌∷◌, ◌++◌}
use native.Mathlib.Omega.{arith}
use cu_ber.Prelude.Tests.{◌==◌, if◌then◌else◌}
use cu_ber.Prelude.Lists.{length}

abbrev pub Bytes : Type 0
Bytes = List ℕ

-- The bytes of an ASCII literal.
abbrev pub codes : String → Bytes
codes String.[] = []
codes (String.◌∷◌ c s) = code c ∷ codes s

-- `operator==` on strings.
unfoldable pub eq_bytes : Bytes → Bytes → Bool
eq_bytes [] [] = true
eq_bytes [] (y ∷ ys) = false
eq_bytes (x ∷ xs) [] = false
eq_bytes (x ∷ xs) (y ∷ ys) = x == y && eq_bytes xs ys

pub eq_bytes_refl : (xs : Bytes) → eq_bytes xs xs ≡ true
unfolding eq_bytes
eq_bytes_refl [] = refl
eq_bytes_refl (x ∷ xs) = ground (arith, eq_bytes_refl xs)

pub eq_bytes→eq : (xs ys : Bytes) → eq_bytes xs ys ≡ true → xs ≡ ys
unfolding eq_bytes
eq_bytes→eq [] [] h = refl
eq_bytes→eq [] (y ∷ ys) h = ground arith
eq_bytes→eq (x ∷ xs) [] h = ground arith
eq_bytes→eq (x ∷ xs) (y ∷ ys) h = ground (arith, eq_bytes→eq xs ys)

pub eq_bytes_iff : (xs ys : Bytes) → (eq_bytes xs ys ≡ true) ↔ (xs ≡ ys)
eq_bytes_iff xs ys = (eq_bytes→eq xs ys, λ e. ground (arith, e, eq_bytes_refl xs))

-- `std::find`: the index of the first byte equal to `c`, the length where there is none.
unfoldable pub find : ℕ → Bytes → ℕ
find c [] = 0
find c (x ∷ xs) = if x == c then 0 else suc (find c xs)

pub find-le : (c : ℕ) (xs : Bytes) → find c xs ≤ length xs
unfolding find
find-le c [] = omega arith
find-le c (x ∷ xs) = ground (arith, find-le c xs)

abbrev pub NotIn : ℕ → Bytes → Type 0
NotIn c [] = Unit {0}
NotIn c (x ∷ xs) = ((x == c) ≡ false) × NotIn c xs

-- The first occurrence is the seam, where the part before it has none.
pub find-append : (c : ℕ) (xs ys : Bytes) → NotIn c xs → find c (xs ++ c ∷ ys) ≡ length xs
unfolding find
find-append c [] ys h = ground arith
find-append c (x ∷ xs) ys h = ground (arith, find-append c xs ys h.1)

pub find_absent : (c : ℕ) (xs : Bytes) → NotIn c xs → find c xs ≡ length xs
unfolding find
find_absent c [] h = refl
find_absent c (x ∷ xs) h = ground (arith, find_absent c xs h.1)
