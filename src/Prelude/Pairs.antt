-- ===== src/Prelude/Pairs.antt =====
-- `std::set` of pairs: a list in the order of `operator<` on pairs.
use Prim.Native.Nat.{ℕ, suc}
use mathlib.Core.Path.{◌≡◌, refl}
use mathlib.Core.Bool.{Bool, true, false, ◌&&◌, ◌||◌}
use mathlib.Core.List.{List, [], ◌∷◌, ◌++◌}
use native.Mathlib.Omega.{arith}
use cu_ber.Prelude.Tests.{ltb, ◌==◌, if◌then◌else◌}
use cu_ber.Prelude.Lists.{length}

abbrev pub Pair : Type 0
Pair = ℕ × ℕ

abbrev pub pair_lt : Pair → Pair → Bool
pair_lt (a, b) (c, d) = ltb a c || (a == c && ltb b d)

abbrev pub pair_eq : Pair → Pair → Bool
pair_eq (a, b) (c, d) = a == c && b == d

-- `find(k) != end()`
unfoldable pub has : Pair → List Pair → Bool
has k [] = false
has k (x ∷ xs) = if pair_eq x k then true else has k xs

-- `insert(k)`: nothing changes where the set has it.
unfoldable pub put_in : Pair → List Pair → List Pair
put_in k [] = k ∷ []
put_in k (x ∷ xs) =
    let rest = put_in k xs in
    if pair_lt k x then k ∷ x ∷ xs else if pair_eq x k then x ∷ xs else x ∷ rest

-- `erase(k)`
unfoldable pub take_out : Pair → List Pair → List Pair
take_out k [] = []
take_out k (x ∷ xs) = if pair_eq x k then xs else x ∷ take_out k xs

-- `lower_bound(k)`: what comes before it, and what it points to.
unfoldable pub before : Pair → List Pair → List Pair
before k [] = []
before k (x ∷ xs) = let rest = before k xs in if pair_lt x k then x ∷ rest else []

unfoldable pub from : Pair → List Pair → List Pair
from k [] = []
from k (x ∷ xs) = let rest = from k xs in if pair_lt x k then rest else x ∷ xs

abbrev pub Above : Pair → List Pair → Type 0
Above k [] = Unit {0}
Above k (x ∷ xs) = (pair_lt k x ≡ true) × Above x xs

abbrev pub IsRising : List Pair → Type 0
IsRising [] = Unit {0}
IsRising (x ∷ xs) = Above x xs

pub IsRising-tail : (x : Pair) (xs : List Pair) → Above x xs → IsRising xs
IsRising-tail x [] h = tt
IsRising-tail x (y ∷ ys) h = h.1

pub Above-lower : (j k : Pair) (xs : List Pair) → pair_lt j k ≡ true → Above k xs → Above j xs
Above-lower j k [] h a = tt
Above-lower (j1, j2) (k1, k2) ((x1, x2) ∷ xs) h a = ground arith

-- What stands above a pair does not hold it.
pub has-Above : (k : Pair) (xs : List Pair) → Above k xs → has k xs ≡ false
unfolding has
has-Above k [] a = refl
has-Above (k1, k2) ((x1, x2) ∷ xs) a =
    ground (arith, has-Above (k1, k2) xs, Above-lower (k1, k2) (x1, x2) xs)

pub has-put_in :
    (k j : Pair) (xs : List Pair) → has j (put_in k xs) ≡ (if pair_eq k j then true else has j xs)
unfolding has put_in
has-put_in k j [] = refl
has-put_in (k1, k2) (j1, j2) ((x1, x2) ∷ xs) = ground (arith, has-put_in (k1, k2) (j1, j2) xs)

pub put_in-Above :
    (j k : Pair) (xs : List Pair) → pair_lt j k ≡ true → Above j xs → Above j (put_in k xs)
unfolding put_in
put_in-Above j k [] h a = (h, tt)
put_in-Above (j1, j2) (k1, k2) ((x1, x2) ∷ xs) h a =
    ground (arith, put_in-Above (x1, x2) (k1, k2) xs)

pub put_in-IsRising : (k : Pair) (xs : List Pair) → IsRising xs → IsRising (put_in k xs)
unfolding put_in
put_in-IsRising k [] r = tt
put_in-IsRising (k1, k2) ((x1, x2) ∷ xs) r = ground (arith, put_in-Above (x1, x2) (k1, k2) xs)

pub length-put_in :
    (k : Pair) (xs : List Pair) → has k xs ≡ false → length (put_in k xs) ≡ suc (length xs)
unfolding has put_in
length-put_in k [] h = refl
length-put_in (k1, k2) ((x1, x2) ∷ xs) h = ground (arith, length-put_in (k1, k2) xs)

pub take_out-Above : (j k : Pair) (xs : List Pair) → Above j xs → Above j (take_out k xs)
unfolding take_out
take_out-Above j k [] a = tt
take_out-Above (j1, j2) (k1, k2) ((x1, x2) ∷ xs) a =
    ground (arith, take_out-Above (x1, x2) (k1, k2) xs, Above-lower (j1, j2) (x1, x2) xs)

pub take_out-IsRising : (k : Pair) (xs : List Pair) → IsRising xs → IsRising (take_out k xs)
unfolding take_out
take_out-IsRising k [] r = tt
take_out-IsRising (k1, k2) ((x1, x2) ∷ xs) r =
    ground (arith, take_out-Above (x1, x2) (k1, k2) xs, IsRising-tail (x1, x2) xs)

pub has-take_out :
    (k j : Pair) (xs : List Pair)
    → IsRising xs
    → has j (take_out k xs) ≡ (if pair_eq k j then false else has j xs)
unfolding has take_out
has-take_out (k1, k2) (j1, j2) [] r = ground arith
has-take_out (k1, k2) (j1, j2) ((x1, x2) ∷ xs) r =
    ground
      (arith, has-take_out (k1, k2) (j1, j2) xs, IsRising-tail (x1, x2) xs, has-Above (x1, x2) xs)

pub length-take_out :
    (k : Pair) (xs : List Pair) → has k xs ≡ true → suc (length (take_out k xs)) ≡ length xs
unfolding has take_out
length-take_out k [] h = ground arith
length-take_out (k1, k2) ((x1, x2) ∷ xs) h = ground (arith, length-take_out (k1, k2) xs)

-- The two parts make up the set, and the bound lies between them.
pub before-append-from : (k : Pair) (xs : List Pair) → before k xs ++ from k xs ≡ xs
unfolding before from
before-append-from k [] = refl
before-append-from (k1, k2) ((x1, x2) ∷ xs) = ground (arith, before-append-from (k1, k2) xs)

pub has-before :
    (k j : Pair) (xs : List Pair)
    → IsRising xs
    → has j (before k xs) ≡ (if pair_lt j k then has j xs else false)
unfolding has before
has-before (k1, k2) (j1, j2) [] r = ground arith
has-before (k1, k2) (j1, j2) ((x1, x2) ∷ xs) r = ground (
  arith,
  has-before (k1, k2) (j1, j2) xs,
  IsRising-tail (x1, x2) xs,
  has-Above (j1, j2) xs,
  Above-lower (j1, j2) (x1, x2) xs,
)

pub has-from :
    (k j : Pair) (xs : List Pair)
    → IsRising xs
    → has j (from k xs) ≡ (if pair_lt j k then false else has j xs)
unfolding has from
has-from (k1, k2) (j1, j2) [] r = ground arith
has-from (k1, k2) (j1, j2) ((x1, x2) ∷ xs) r = ground (
  arith,
  has-from (k1, k2) (j1, j2) xs,
  IsRising-tail (x1, x2) xs,
  has-Above (j1, j2) xs,
  Above-lower (j1, j2) (x1, x2) xs,
)

pub before-IsRising : (k : Pair) (xs : List Pair) → IsRising xs → IsRising (before k xs)
unfolding before
before-IsRising k [] r = tt
before-IsRising k (x ∷ []) r = ground arith
before-IsRising (k1, k2) ((x1, x2) ∷ (y1, y2) ∷ ys) r =
    ground (arith, before-IsRising (k1, k2) ((y1, y2) ∷ ys))

pub from-IsRising : (k : Pair) (xs : List Pair) → IsRising xs → IsRising (from k xs)
unfolding from
from-IsRising k [] r = tt
from-IsRising (k1, k2) ((x1, x2) ∷ xs) r =
    ground (arith, from-IsRising (k1, k2) xs, IsRising-tail (x1, x2) xs)
