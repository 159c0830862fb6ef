-- ===== src/Prelude/Dict/Erasing.antt =====
-- Erasing a key of a `std::map`.
use mathlib.Core.Path.{◌≡◌, refl}
use mathlib.Core.Bool.{true, false}
use mathlib.Core.List.{List, [], ◌∷◌}
use native.Mathlib.Omega.{arith}
use cu_ber.Prelude.Tests.{if◌then◌else◌}
use cu_ber.Prelude.Text.{Bytes, eq_bytes, eq_bytes_iff}
use cu_ber.Prelude.Dict.{contains, erase, Above, IsSorted, lex_irrefl, lex_trans, lex_lt}

module _ {ℓ} {V : Type ℓ} where
  Above-trans : (i j : Bytes) (m : List (Bytes × V)) → lex_lt i j ≡ true → Above j m → Above i m
  Above-trans i j [] h s = tt
  Above-trans i j ((k, v) ∷ m) h (g, s) = (lex_trans i j k h g, s)

  Above-contains : (k : Bytes) (m : List (Bytes × V)) → Above k m → contains k m ≡ false
  unfolding contains
  Above-contains k [] s = refl
  Above-contains k ((j, v) ∷ m) (h, s) =
      ground (arith, h, eq_bytes_iff j k, lex_irrefl k, Above-contains k m (Above-trans k j m h s))

  tail-IsSorted : (i : Bytes) (m : List (Bytes × V)) → Above i m → IsSorted m
  tail-IsSorted i [] s = tt
  tail-IsSorted i ((k, v) ∷ m) (h, s) = s

  -- The key is gone, and no other one.
  pub contains-erase :
      (k j : Bytes) (m : List (Bytes × V))
      → IsSorted m
      → contains j (erase k m) ≡ (if eq_bytes k j then false else contains j m)
  unfolding contains erase
  contains-erase k j [] s = ground arith
  contains-erase k j ((i, v) ∷ m) s = ground (
    arith,
    eq_bytes_iff k j,
    eq_bytes_iff i k,
    eq_bytes_iff i j,
    Above-contains i m s,
    contains-erase k j m (tail-IsSorted i m s),
  )

  erase-Above : (i k : Bytes) (m : List (Bytes × V)) → Above i m → Above i (erase k m)
  unfolding erase
  erase-Above i k [] s = tt
  erase-Above i k ((j, v) ∷ m) (h, s) =
      ground (arith, h, s, Above-trans i j m h s, erase-Above j k m s)

  pub erase-IsSorted : (k : Bytes) (m : List (Bytes × V)) → IsSorted m → IsSorted (erase k m)
  unfolding erase
  erase-IsSorted k [] s = tt
  erase-IsSorted k ((j, v) ∷ m) s = ground (arith, tail-IsSorted j m s, erase-Above j k m s)
