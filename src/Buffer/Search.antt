-- ===== src/Buffer/Search.antt =====
-- `findCRLF` and `findEOL` of net/Buffer.h.
use cu_ber.Prelude.{
  ℕ, zero, suc, ◌≤◌, ◌≡◌, refl, ap, arith, Bytes, [], ◌∷◌, ◌++◌, Option, none, some, length, take,
  drop, ◌==◌, ◌&&◌, false, inl, inr, ◌⊎◌, Bool-cases,
}
use cu_ber.Buffer.{search_crlf}

-- No "\r\n" stands in the bytes.
abbrev pub Unbroken : Bytes → Type 0
Unbroken [] = Unit {0}
Unbroken (x ∷ []) = Unit {0}
Unbroken (x ∷ y ∷ r) = ((x == 13 && y == 10) ≡ false) × Unbroken (y ∷ r)

-- What `std::search` finds: the bytes up to the result hold no "\r\n", and one stands there.
abbrev pub Found : Bytes → Option ℕ → Type 0
Found xs none = Unbroken xs
Found xs (some i) =
    (suc (suc i) ≤ length xs)
    × (xs ≡ take i xs ++ 13 ∷ 10 ∷ drop (suc (suc i)) xs)
    × Unbroken (take i xs)

Found-suc :
    (x y : ℕ) (r : Bytes) (o : Option ℕ)
    → (x == 13 && y == 10) ≡ false
    → Found (y ∷ r) o
    → Found (x ∷ y ∷ r) (elim o [ none ↦ none | some i ↦ some (suc i) ])
Found-suc x y r none u f = (u, f)
Found-suc x y r (some zero) u (room, split, clear) = (omega arith, ap (λ t. x ∷ t) split, tt)
Found-suc x y r (some (suc i)) u (room, split, clear) =
    (omega arith, ap (λ t. x ∷ t) split, (u, clear))

-- `findCRLF` finds the first "\r\n" of the range, and nothing only where there is none.
pub search_crlf-Found : (xs : Bytes) → Found xs (search_crlf xs)
unfolding search_crlf
search_crlf-Found [] = tt
search_crlf-Found (x ∷ []) = tt
search_crlf-Found (x ∷ y ∷ r) = elim (Bool-cases (x == 13 && y == 10)) [
  | inl here ↦ rw here (omega arith, ground arith, tt)
  | inr past ↦ rw past (Found-suc x y r (search_crlf (y ∷ r)) past (search_crlf-Found (y ∷ r)))
]

-- The first "\r\n" ends the line in front of it.
pub search_crlf-append :
    (line rest : Bytes) → Unbroken line → search_crlf (line ++ 13 ∷ 10 ∷ rest) ≡ some (length line)
unfolding search_crlf
search_crlf-append [] rest u = refl
search_crlf-append (x ∷ []) rest u = ground (arith, search_crlf-append [] rest tt)
search_crlf-append (x ∷ y ∷ r) rest u = ground (arith, search_crlf-append (y ∷ r) rest u.1)

pub search_crlf_absent : (xs : Bytes) → Unbroken xs → search_crlf xs ≡ none
unfolding search_crlf
search_crlf_absent [] u = refl
search_crlf_absent (x ∷ []) u = refl
search_crlf_absent (x ∷ y ∷ r) u = ground (arith, search_crlf_absent (y ∷ r) u.1)

-- More bytes behind do not move a "\r\n" that was found.
pub search_crlf_grow :
    (xs ys : Bytes) → (search_crlf xs ≡ none) ⊎ (search_crlf (xs ++ ys) ≡ search_crlf xs)
unfolding search_crlf
search_crlf_grow [] ys = inl refl
search_crlf_grow (x ∷ []) ys = inl refl
search_crlf_grow (x ∷ y ∷ r) ys = ground (arith, search_crlf_grow (y ∷ r) ys)
