-- ===== src/Prelude/Numbers.antt =====
-- `int` as a signed number, `std::stoi`, and the printing of numbers.
use Prim.Native.Nat.{ℕ, zero, suc, ◌+◌, ◌-◌, ◌*◌, ◌/◌, ◌%◌, ◌^◌, ◌<◌}
use mathlib.Core.Path.{◌≡◌, sym, ap, ◌∙◌}
use native.Mathlib.Omega.{arith}
use mathlib.Core.Bool.{Bool, ◌||◌, ◌&&◌}
use mathlib.Core.List.{[], ◌∷◌}
use mathlib.Core.Option.{Option, none, some}
use cu_ber.Prelude.Tests.{ltb, leb, ◌==◌, if◌then◌else◌}
use cu_ber.Prelude.Text.{Bytes}

-- `negsuc n` is -(n + 1).
pub data ℤ : Type 0 where
  pos : ℕ → ℤ
  negsuc : ℕ → ℤ

-- `static_cast<size_t>`
abbrev pub to_size : ℤ → ℕ
to_size (pos n) = n
to_size (negsuc n) = 2 ^ 64 - suc n

abbrev pub is_digit : ℕ → Bool
is_digit c = leb b'0' c && leb c b'9'

-- `isspace` in the C locale; a byte over 127 is none.
unfoldable pub is_space : ℕ → Bool
is_space c = c == 32 || c == 9 || c == 10 || c == 11 || c == 12 || c == 13

-- The number that the digits at the front make, behind those read.
unfoldable pub read_digits : ℕ → Bytes → ℕ
read_digits acc [] = acc
read_digits acc (x ∷ xs) =
    let rest = read_digits (acc * 10 + (x - b'0')) xs in if is_digit x then rest else acc

read_unsigned : Bytes → Option ℕ
read_unsigned [] = none
read_unsigned (x ∷ xs) = if is_digit x then some (read_digits 0 (x ∷ xs)) else none

-- A value out of the range of `int` is an exception, as a text without a number is.
negative : Option ℕ → Option ℤ
negative none = none
negative (some zero) = some (pos 0)
negative (some (suc n)) = if ltb n (2 ^ 31) then some (negsuc n) else none

positive : Option ℕ → Option ℤ
positive none = none
positive (some n) = if ltb n (2 ^ 31) then some (pos n) else none

-- `std::stoi`: blanks, a sign, digits, and whatever follows them.
unfoldable pub stoi : Bytes → Option ℤ
unfolding read_unsigned read_digits negative positive is_space
stoi [] = none
stoi (x ∷ xs) =
    let rest = stoi xs in
    if is_space x
    then rest
    else if x == b'-'
    then negative (read_unsigned xs)
    else if x == b'+'
    then positive (read_unsigned xs)
    else positive (read_unsigned (x ∷ xs))

-- The decimal digits of a number, on fuel above the number of digits.
show_digits : ℕ → ℕ → Bytes → Bytes
show_digits zero n acc = acc
show_digits (suc f) n acc =
    let more = show_digits f (n / 10) ((b'0' + n % 10) ∷ acc) in
    if ltb n 10 then (b'0' + n) ∷ acc else more

-- A number has no more digits than its value and one.
unfoldable pub show_nat : ℕ → Bytes
unfolding show_digits
show_nat n = show_digits (suc n) n []

unfoldable pub show_int : ℤ → Bytes
unfolding show_nat
show_int (pos n) = show_nat n
show_int (negsuc n) = b'-' ∷ show_nat (suc n)

read-show_digits :
    (f n : ℕ) (acc : Bytes) → n < f → read_digits 0 (show_digits f n acc) ≡ read_digits n acc
unfolding read_digits show_digits
read-show_digits zero n acc h = absurd (omega arith)
read-show_digits (suc f) n acc h =
    ground (arith, read-show_digits f (n / 10) ((b'0' + n % 10) ∷ acc))

-- Different numbers are printed differently.
pub show_nat_inj : (m n : ℕ) → show_nat m ≡ show_nat n → m ≡ n
unfolding show_nat read_digits
show_nat_inj m n e =
    sym (read-show_digits (suc m) m [] (omega arith))
    ∙ ap (read_digits 0) e
    ∙ read-show_digits (suc n) n [] (omega arith)
