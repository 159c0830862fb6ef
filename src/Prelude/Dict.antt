-- ===== src/Prelude/Dict.antt =====
-- `std::map<string, V>`: an association list in the order of the keys, which is the order that a
-- loop over the map sees.
pub mod Erasing
use Prim.Native.Nat.{compare, Ordering}
use mathlib.Core.Path.{◌≡◌, refl, sym, ◌∙◌}
use mathlib.Core.Bool.{Bool, true, false}
use mathlib.Core.List.{List, [], ◌∷◌, ◌++◌, append-nil, append_assoc}
use mathlib.Core.Option.{Option, none, some}
use native.Mathlib.Omega.{arith}
use cu_ber.Prelude.Tests.{if◌then◌else◌}
use cu_ber.Prelude.Text.{Bytes, eq_bytes, eq_bytes_iff, eq_bytes_refl}

-- `operator<` on strings: the order of the bytes, a proper prefix first.
unfoldable pub lex_lt : Bytes → Bytes → Bool
lex_lt [] [] = false
lex_lt [] (y ∷ ys) = true
lex_lt (x ∷ xs) [] = false
lex_lt (x ∷ xs) (y ∷ ys) =
    let rest = lex_lt xs ys in
    elim (compare x y) [ Ordering.lt ↦ true | Ordering.gt ↦ false | Ordering.eq ↦ rest ]

pub lex_total :
    (xs ys : Bytes) → lex_lt xs ys ≡ false → eq_bytes ys xs ≡ false → lex_lt ys xs ≡ true
unfolding lex_lt eq_bytes
lex_total [] [] h e = ground arith
lex_total [] (y ∷ ys) h e = ground arith
lex_total (x ∷ xs) [] h e = refl
lex_total (x ∷ xs) (y ∷ ys) h e = ground (arith, lex_total xs ys)

module _ {ℓ} {V : Type ℓ} where
  unfoldable pub lookup : Bytes → List (Bytes × V) → Option V
  lookup k [] = none
  lookup k ((j, v) ∷ m) = if eq_bytes j k then some v else lookup k m

  -- `m[k] = v`
  unfoldable pub insert : Bytes → V → List (Bytes × V) → List (Bytes × V)
  insert k v [] = (k, v) ∷ []
  insert k v ((j, w) ∷ m) =
      let rest = insert k v m in
      if eq_bytes j k then (j, v) ∷ m else if lex_lt k j then (k, v) ∷ (j, w) ∷ m else (j, w) ∷ rest

  -- `m.count(k)`
  unfoldable pub contains : Bytes → List (Bytes × V) → Bool
  contains k [] = false
  contains k ((j, v) ∷ m) = if eq_bytes j k then true else contains k m

  unfoldable pub erase : Bytes → List (Bytes × V) → List (Bytes × V)
  erase k [] = []
  erase k ((j, v) ∷ m) = if eq_bytes j k then m else (j, v) ∷ erase k m

  pub lookup-insert :
      (k j : Bytes) (v : V) (m : List (Bytes × V))
      → lookup j (insert k v m) ≡ (if eq_bytes k j then some v else lookup j m)
  unfolding lookup insert
  lookup-insert k j v [] = refl
  lookup-insert k j v ((i, w) ∷ m) =
      ground (arith, eq_bytes_iff k j, eq_bytes_iff i k, eq_bytes_iff i j, lookup-insert k j v m)

  pub contains-insert :
      (k j : Bytes) (v : V) (m : List (Bytes × V))
      → contains j (insert k v m) ≡ (if eq_bytes k j then true else contains j m)
  unfolding contains insert
  contains-insert k j v [] = refl
  contains-insert k j v ((i, w) ∷ m) =
      ground (arith, eq_bytes_iff k j, eq_bytes_iff i k, eq_bytes_iff i j, contains-insert k j v m)

  pub contains-insert_self :
      (k : Bytes) (v : V) (m : List (Bytes × V)) → contains k (insert k v m) ≡ true
  unfolding contains insert
  contains-insert_self k v [] = ground (arith, eq_bytes_refl k)
  contains-insert_self k v ((i, w) ∷ m) =
      ground (arith, eq_bytes_refl k, contains-insert_self k v m)

  pub contains_lem : (k : Bytes) (m : List (Bytes × V)) → contains k m ≡ false → lookup k m ≡ none
  unfolding contains lookup
  contains_lem k [] h = refl
  contains_lem k ((i, w) ∷ m) h = ground (arith, contains_lem k m)

  -- The keys rise along the list.
  abbrev pub Above : Bytes → List (Bytes × V) → Type 0
  Above k [] = Unit {0}
  Above k ((j, v) ∷ m) = (lex_lt k j ≡ true) × Above j m

  abbrev pub IsSorted : List (Bytes × V) → Type 0
  IsSorted [] = Unit {0}
  IsSorted ((j, v) ∷ m) = Above j m

  insert-Above :
      (i k : Bytes) (v : V) (m : List (Bytes × V))
      → lex_lt i k ≡ true
      → Above i m
      → Above i (insert k v m)
  unfolding insert
  insert-Above i k v [] h s = (h, tt)
  insert-Above i k v ((j, w) ∷ m) h s = ground (arith, insert-Above j k v m, lex_total k j)

  -- A write keeps the map in order.
  pub insert-IsSorted :
      (k : Bytes) (v : V) (m : List (Bytes × V)) → IsSorted m → IsSorted (insert k v m)
  unfolding insert
  insert-IsSorted k v [] s = tt
  insert-IsSorted k v ((j, w) ∷ m) s = ground (arith, insert-Above j k v m, lex_total k j)

pub lex_irrefl : (xs : Bytes) → lex_lt xs xs ≡ false
unfolding lex_lt
lex_irrefl [] = refl
lex_irrefl (x ∷ xs) = ground (arith, lex_irrefl xs)

pub lex_asym : (xs ys : Bytes) → lex_lt xs ys ≡ true → lex_lt ys xs ≡ false
unfolding lex_lt
lex_asym [] [] h = ground arith
lex_asym [] (y ∷ ys) h = refl
lex_asym (x ∷ xs) [] h = ground arith
lex_asym (x ∷ xs) (y ∷ ys) h = ground (arith, lex_asym xs ys)

pub lex_trans : (xs ys zs : Bytes) → lex_lt xs ys ≡ true → lex_lt ys zs ≡ true → lex_lt xs zs ≡ true
unfolding lex_lt
lex_trans [] [] zs h k = ground arith
lex_trans [] (y ∷ ys) [] h k = ground arith
lex_trans [] (y ∷ ys) (z ∷ zs) h k = refl
lex_trans (x ∷ xs) [] zs h k = ground arith
lex_trans (x ∷ xs) (y ∷ ys) [] h k = ground arith
lex_trans (x ∷ xs) (y ∷ ys) (z ∷ zs) h k = ground (arith, lex_trans xs ys zs)

lt_apart : (j k : Bytes) → lex_lt j k ≡ true → eq_bytes j k ≡ false
lt_apart j k h = ground (arith, eq_bytes_iff j k, lex_irrefl j, lex_irrefl k)

module _ {ℓ} {V : Type ℓ} where
  -- Every key of the list is below a key.
  abbrev pub Below : List (Bytes × V) → Bytes → Type 0
  Below [] k = Unit {0}
  Below ((j, w) ∷ m) k = (lex_lt j k ≡ true) × Below m k

  Below-trans : (m : List (Bytes × V)) (j k : Bytes) → Below m j → lex_lt j k ≡ true → Below m k
  Below-trans [] j k b h = tt
  Below-trans ((i, w) ∷ m) j k b h = (lex_trans i j k b.0 h, Below-trans m j k b.1 h)

  Below-snoc :
      (m : List (Bytes × V)) (j k : Bytes) (v : V)
      → Below m k
      → lex_lt j k ≡ true
      → Below (m ++ (j, v) ∷ []) k
  Below-snoc [] j k v b h = (h, tt)
  Below-snoc ((i, w) ∷ m) j k v b h = (b.0, Below-snoc m j k v b.1 h)

  -- A key above all others goes to the end.
  insert_last :
      (k : Bytes) (v : V) (m : List (Bytes × V)) → Below m k → insert k v m ≡ m ++ (k, v) ∷ []
  unfolding insert
  insert_last k v [] b = refl
  insert_last k v ((j, w) ∷ m) b =
      ground (arith, lt_apart j k b.0, lex_asym j k b.0, insert_last k v m b.1)

  -- `m[k] = v` for each pair of a list in turn.
  unfoldable pub insert_all : List (Bytes × V) → List (Bytes × V) → List (Bytes × V)
  insert_all [] m = m
  insert_all ((k, v) ∷ hs) m = insert_all hs (insert k v m)

  insert_all-Above :
      (k : Bytes) (v : V) (hs m : List (Bytes × V))
      → Below m k
      → Above k hs
      → insert_all hs (m ++ (k, v) ∷ []) ≡ (m ++ (k, v) ∷ []) ++ hs
  unfolding insert_all
  insert_all-Above k v [] m b a = sym (append-nil _)
  insert_all-Above k v ((j, w) ∷ hs) m b a =
      let below = Below-snoc m k j v (Below-trans m k j b a.0) a.0 in
      rw (insert_last j w (m ++ (k, v) ∷ []) below) (
        insert_all-Above j w hs (m ++ (k, v) ∷ []) below a.1
        ∙ append_assoc (m ++ (k, v) ∷ []) ((j, w) ∷ []) hs)

  -- Reading the pairs of a map in order makes the map again.
  pub insert_all-IsSorted : (hs : List (Bytes × V)) → IsSorted hs → insert_all hs [] ≡ hs
  unfolding insert_all insert
  insert_all-IsSorted [] s = refl
  insert_all-IsSorted ((k, v) ∷ hs) s = insert_all-Above k v hs [] tt s
