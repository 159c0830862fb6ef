-- ===== src/Prelude/Elements.antt =====
-- The elements of lists by their places, assignment to them, and maps changed at one key.
use Prim.Native.Nat.{ℕ, zero, suc, ◌≤◌, ◌<◌}
use mathlib.Core.Path.{◌≡◌, refl, sym, ap, ◌∙◌}
use mathlib.Core.Logic.{◌≢◌, ◌⊎◌, inl, inr}
use mathlib.Core.Bool.{true}
use mathlib.Core.List.{List, [], ◌∷◌, ◌++◌}
use mathlib.Core.Option.{Option, none, some}
use native.Mathlib.Omega.{arith}
use cu_ber.Prelude.Tests.{◌==◌, if◌then◌else◌, Bool-cases}
use cu_ber.Prelude.Lists.{length, take, get_elem?}

-- A map with one entry changed.
abbrev pub put : {A : Type 0} → ℕ → A → (ℕ → A) → ℕ → A
put k v f j = if j == k then v else f j

pub same_or_not : (i j : ℕ) → (i ≡ j) ⊎ (i ≢ j)
same_or_not i j = elim (Bool-cases (i == j)) [
  | inl e ↦ inl (ground (arith, e))
  | inr e ↦ inr (λ h. ground (arith, e, h))
]

pub put_same : {A : Type 0} (k : ℕ) (v : A) (f : ℕ → A) (j : ℕ) → j ≡ k → put k v f j ≡ v
put_same k v f j e = let t : (j == k) ≡ true = ground (arith, e) in rw t refl

pub put_other : {A : Type 0} (k : ℕ) (v : A) (f : ℕ → A) (j : ℕ) → j ≢ k → put k v f j ≡ f j
put_other k v f j n = elim (Bool-cases (j == k)) [
  | inl e ↦ absurd (n (ground (arith, e)))
  | inr e ↦ rw e refl
]

-- Equal options hold equal values.
pub same_value : {A : Type 0} {o : Option A} {x y : A} → o ≡ some x → o ≡ some y → x ≡ y
same_value {A} {x = x} e f = ap value (sym e ∙ f)
  where
    value : Option A → A
    value none = x
    value (some z) = z

-- An assignment to an element.
unfoldable pub set_at : {A : Type 0} → ℕ → A → List A → List A
set_at i v [] = []
set_at zero v (x ∷ xs) = v ∷ xs
set_at (suc i) v (x ∷ xs) = x ∷ set_at i v xs

pub get_lt : {A : Type 0} (xs : List A) (i : ℕ) {x : A} → get_elem? xs i ≡ some x → i < length xs
get_lt [] i e = cc
get_lt (y ∷ ys) zero e = omega arith
get_lt (y ∷ ys) (suc i) e = omega (arith, get_lt ys i e)

pub get_some :
    {A : Type 0} (xs : List A) (i : ℕ) → i < length xs → (x : A) × (get_elem? xs i ≡ some x)
get_some [] i h = absurd (omega arith)
get_some (y ∷ ys) zero h = (y, refl)
get_some (y ∷ ys) (suc i) h = get_some ys i (omega arith)

pub length-set_at : {A : Type 0} (i : ℕ) (v : A) (xs : List A) → length (set_at i v xs) ≡ length xs
unfolding set_at
length-set_at i v [] = refl
length-set_at zero v (x ∷ xs) = refl
length-set_at (suc i) v (x ∷ xs) = ap suc (length-set_at i v xs)

pub get-set_at :
    {A : Type 0} (i : ℕ) (v : A) (xs : List A)
    → i < length xs
    → get_elem? (set_at i v xs) i ≡ some v
unfolding set_at
get-set_at i v [] h = absurd (omega arith)
get-set_at zero v (x ∷ xs) h = refl
get-set_at (suc i) v (x ∷ xs) h = get-set_at i v xs (omega arith)

pub get-set_at_other :
    {A : Type 0} (i j : ℕ) (v : A) (xs : List A)
    → i ≢ j
    → get_elem? (set_at i v xs) j ≡ get_elem? xs j
unfolding set_at
get-set_at_other i j v [] h = refl
get-set_at_other zero zero v (x ∷ xs) h = absurd (h refl)
get-set_at_other zero (suc j) v (x ∷ xs) h = refl
get-set_at_other (suc i) zero v (x ∷ xs) h = refl
get-set_at_other (suc i) (suc j) v (x ∷ xs) h = get-set_at_other i j v xs (λ e. h (ap suc e))

pub get-take :
    {A : Type 0} (n j : ℕ) (xs : List A) → j < n → get_elem? (take n xs) j ≡ get_elem? xs j
get-take zero j xs h = absurd (omega arith)
get-take (suc n) j [] h = refl
get-take (suc n) zero (x ∷ xs) h = refl
get-take (suc n) (suc j) (x ∷ xs) h = get-take n j xs (omega arith)

pub get-take-none : {A : Type 0} (n j : ℕ) (xs : List A) → n ≤ j → get_elem? (take n xs) j ≡ none
get-take-none zero j xs h = refl
get-take-none (suc n) j [] h = refl
get-take-none (suc n) zero (x ∷ xs) h = absurd (omega arith)
get-take-none (suc n) (suc j) (x ∷ xs) h = get-take-none n j xs (omega arith)

pub get-append_front :
    {A : Type 0} (xs : List A) (v : A) (j : ℕ)
    → j < length xs
    → get_elem? (xs ++ v ∷ []) j ≡ get_elem? xs j
get-append_front [] v j h = absurd (omega arith)
get-append_front (x ∷ xs) v zero h = refl
get-append_front (x ∷ xs) v (suc j) h = get-append_front xs v j (omega arith)

pub get-append_last :
    {A : Type 0} (xs : List A) (v : A) → get_elem? (xs ++ v ∷ []) (length xs) ≡ some v
get-append_last [] v = refl
get-append_last (x ∷ xs) v = get-append_last xs v
