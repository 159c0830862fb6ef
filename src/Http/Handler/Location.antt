-- ===== src/Http/Handler/Location.antt =====
-- The loop of `HttpAccessHandler` in http/HttpHandler.cpp: which location it finds.
use cu_ber.Prelude.{
  ℕ, zero, suc, ◌+◌, ◌-◌, ◌≤◌, ◌<◌, ◌≡◌, ◌≢◌, refl, sym, ap, subst, ◌∙◌, arith, Bytes, Bool, true,
  false, Option, none, some, length, take, get_elem?, [], ◌∷◌, ◌⊎◌, inl, inr, ◌==◌, if◌then◌else◌,
  Bool-cases, length-take, take-take, take_all, dec_lt,
}
use cu_ber.Http.Handler.{last_index, shorten, match_location}

-- Where the last occurrence of a byte stands.
abbrev LastAt : ℕ → Bytes → Option ℕ → Type 0
LastAt c xs none = (j : ℕ) → get_elem? xs j ≢ some c
LastAt c xs (some i) = (get_elem? xs i ≡ some c) × ((j : ℕ) → i < j → get_elem? xs j ≢ some c)

LastAt-cons :
    (c x : ℕ) (xs : Bytes) (o : Option ℕ)
    → LastAt c xs o
    → LastAt c (x ∷ xs) (elim o [ some i ↦ some (suc i) | none ↦ if x == c then some 0 else none ])
LastAt-cons c x xs (some i) (at, past) = (at, beyond)
  where
    beyond : (j : ℕ) → suc i < j → get_elem? (x ∷ xs) j ≢ some c
    beyond zero h = absurd (omega arith)
    beyond (suc j) h = past j (omega arith)
LastAt-cons c x xs none h = elim (Bool-cases (x == c)) [
  | inl e ↦ rw e (ground arith, after)
  | inr e ↦ rw e (all e)
]
  where
    after : (j : ℕ) → 0 < j → get_elem? (x ∷ xs) j ≢ some c
    after zero l = absurd (omega arith)
    after (suc j) l = h j

    all : (x == c) ≡ false → (j : ℕ) → get_elem? (x ∷ xs) j ≢ some c
    all e zero = ground arith
    all e (suc j) = h j

last_index-LastAt : (c : ℕ) (xs : Bytes) → LastAt c xs (last_index c xs)
unfolding last_index
last_index-LastAt c [] = λ j. ground arith
last_index-LastAt c (x ∷ xs) = LastAt-cons c x xs (last_index c xs) (last_index-LastAt c xs)

get-take : (xs : Bytes) (n i : ℕ) → i < n → get_elem? (take n xs) i ≡ get_elem? xs i
get-take xs zero i h = absurd (omega arith)
get-take [] (suc n) i h = refl
get-take (x ∷ xs) (suc n) zero h = refl
get-take (x ∷ xs) (suc n) (suc i) h = get-take xs n i (omega arith)

get_some-lt : (xs : Bytes) (i : ℕ) {c : ℕ} → get_elem? xs i ≡ some c → i < length xs
get_some-lt [] i e = cc
get_some-lt (x ∷ xs) zero e = omega arith
get_some-lt (x ∷ xs) (suc i) e = omega (arith, get_some-lt xs i e)

-- A place to cut a path: behind it all, or behind a slash. The number is the index of the last byte.
abbrev pub Cut : Bytes → ℕ → Type 0
Cut p i = (i < length p) × ((suc i ≡ length p) ⊎ (get_elem? p i ≡ some b'/'))

-- No cut from a place on gives a location.
abbrev pub NoneFrom : (Bytes → Bool) → Bytes → ℕ → Type 0
NoneFrom listened p n = (i : ℕ) → n ≤ i → Cut p i → listened (take (suc i) p) ≡ false

-- The longest part of the path that is a location, or that there is none.
abbrev pub Longest : (Bytes → Bool) → Bytes → Option Bytes → Type 0
Longest listened p none = NoneFrom listened p 0
Longest listened p (some q) =
    (0 < length q)
    × (q ≡ take (length q) p)
    × (listened q ≡ true)
    × Cut p (length q - 1)
    × NoneFrom listened p (length q)

-- What a cut behind the last slash but one leaves out.
record CutAt (p : Bytes) (i : ℕ) : Type 0 where
  shorter : suc i < length p
  slash : get_elem? p i ≡ some b'/'
  beyond : (j : ℕ) → i < j → get_elem? (take (length p - 1) p) j ≢ some b'/'

abbrev Shortened : Bytes → Option Bytes → Type 0
Shortened p none = (j : ℕ) → get_elem? (take (length p - 1) p) j ≢ some b'/'
Shortened p (some q) = (i : ℕ) × (q ≡ take (suc i) p) × CutAt p i

cut_lower :
    (p : Bytes) (o : Option ℕ)
    → LastAt b'/' (take (length p - 1) p) o
    → Shortened p (elim o [ none ↦ none | some i ↦ some (take (i + 1) p) ])
cut_lower p none h = h
cut_lower p (some i) (at, past) =
    let low = get_some-lt (take (length p - 1) p) i at in
    let size = length-take (length p - 1) p in
    let next : i + 1 ≡ suc i = omega arith in
    (
      i,
      ap (λ n. take n p) next,
      record {
        shorter = omega arith;
        slash = sym (get-take p (length p - 1) i (omega arith)) ∙ at;
        beyond = past;
      },
    )

shorten-Shortened : (p : Bytes) → Shortened p (shorten p)
unfolding shorten
shorten-Shortened p =
    cut_lower p (last_index b'/' (take (length p - 1) p))
      (last_index-LastAt b'/' (take (length p - 1) p))

lift-Cut : (p : Bytes) (i j : ℕ) → CutAt p i → Cut (take (suc i) p) j → Cut p j
lift-Cut p i j c (small, at) =
    let inside : j < suc i = omega (arith, length-take (suc i) p) in
    (omega (arith, c.shorter), last at)
  where
    last :
        (suc j ≡ length (take (suc i) p)) ⊎ (get_elem? (take (suc i) p) j ≡ some b'/')
        → (suc j ≡ length p) ⊎ (get_elem? p j ≡ some b'/')
    last (inl e) =
        let same : i ≡ j = omega (arith, length-take (suc i) p, c.shorter) in
        inr (subst (λ k. get_elem? p k ≡ some b'/') same c.slash)
    last (inr e) = inr (sym (get-take p (suc i) j (omega (arith, length-take (suc i) p))) ∙ e)

module _ (listened : Bytes → Bool) (p : Bytes) (unlisted : listened p ≡ false) where
  whole : (j : ℕ) → suc j ≡ length p → listened (take (suc j) p) ≡ false
  whole j e = rw (take_all (suc j) p (omega arith)) unlisted

  -- Where no slash stands before the last byte, the path itself is the only cut.
  none_shorter : ((j : ℕ) → get_elem? (take (length p - 1) p) j ≢ some b'/') → NoneFrom listened p 0
  none_shorter h j low (small, inl e) = whole j e
  none_shorter h j low (small, inr e) = elim (dec_lt (suc j) (length p)) [
    | yes less ↦ absurd (h j (get-take p (length p - 1) j (omega arith) ∙ e))
    | no last ↦ whole j (omega arith)
  ]

  lift : (i n : ℕ) → CutAt p i → NoneFrom listened (take (suc i) p) n → NoneFrom listened p n
  lift i n c h j low (small, inl e) = whole j e
  lift i n c h j low (small, inr e) = elim (dec_lt i j) [
    | yes above ↦ elim (dec_lt (suc j) (length p)) [
      | yes less ↦ absurd (c.beyond j above (get-take p (length p - 1) j (omega arith) ∙ e))
      | no last ↦ whole j (omega arith)
    ]
    | no under ↦ rw (take-take (suc j) (suc i) p (omega arith)) (
        h j low (
          omega (arith, length-take (suc i) p, c.shorter),
          inr (get-take p (suc i) j (omega arith) ∙ e),
        ))
  ]

  lift-Longest :
      (i : ℕ) (o : Option Bytes)
      → CutAt p i
      → Longest listened (take (suc i) p) o
      → Longest listened p o
  lift-Longest i none c h = lift i 0 c h
  lift-Longest i (some q) c (size, part, found, cut, above) =
      let inside = length-take (suc i) p in
      (
        size,
        part ∙ sym (take-take (length q) (suc i) p (omega (arith, cut.0, c.shorter))),
        found,
        lift-Cut p i (length q - 1) c cut,
        lift i (length q) c above,
      )

found_here :
    (listened : Bytes → Bool) (p : Bytes)
    → 0 < length p
    → listened p ≡ true
    → Longest listened p (some p)
found_here listened p size found = (
  size,
  sym (take_all (length p) p (omega arith)),
  found,
  (omega arith, inl (omega arith)),
  λ i low cut. absurd (omega (arith, cut.0)),
)

shorter_round :
    (listened : Bytes → Bool) (fuel : ℕ) (p : Bytes) (o : Option Bytes)
    → listened p ≡ false
    → Shortened p o
    → ((q : Bytes)
        → 0 < length q
        → length q < length p
        → Longest listened q (match_location fuel listened q))
    → Longest listened p (elim o [ none ↦ none | some q ↦ match_location fuel listened q ])
shorter_round listened fuel p none missing h ih = none_shorter listened p missing h
shorter_round listened fuel p (some q) missing (i, e, c) ih =
    let size : length q ≡ suc i = omega (arith, ap length e, length-take (suc i) p, c.shorter) in
    lift-Longest listened p missing i (match_location fuel listened q) c (
      subst (λ t. Longest listened t (match_location fuel listened q)) e
        (ih q (omega arith) (omega (arith, c.shorter))))

one_byte : (p : Bytes) → length p ≡ 1 → (j : ℕ) → get_elem? (take (length p - 1) p) j ≢ some b'/'
one_byte [] e = absurd (omega arith)
one_byte (x ∷ []) e = λ j. ground arith
one_byte (x ∷ y ∷ r) e = absurd (omega arith)

-- On a path that is not empty the search finds the longest part of it that is a location: the path itself, or a part of
-- it that ends with a slash. It answers 404 only where no such part is one. One round for each byte
-- of the path is enough.
pub match_location-Longest :
    (fuel : ℕ) (listened : Bytes → Bool) (p : Bytes)
    → 0 < length p
    → length p ≤ fuel
    → Longest listened p (match_location fuel listened p)
unfolding match_location
match_location-Longest zero listened p size enough = absurd (omega arith)
match_location-Longest (suc fuel) listened p size enough = elim (Bool-cases (listened p)) [
  | inl found ↦ rw found (found_here listened p size found)
  | inr missing ↦ rw missing (elim (Bool-cases (length p == 1)) [
    | inl one ↦ rw one (none_shorter listened p missing (one_byte p (ground arith)))
    | inr more ↦ rw more (
        shorter_round listened fuel p (shorten p) missing (shorten-Shortened p)
          (λ q some_byte less. match_location-Longest fuel listened q some_byte (omega arith)))
  ])
]
