-- ===== src/Http/Context/Line.antt =====
-- Which request lines `HttpContext::parseRequestLine` accepts, and what it makes of them.
use cu_ber.Prelude.{
  ℕ, suc, ◌≡◌, refl, sym, ap, ap₂, length-drop, append-nil, ◌∙◌, arith, Bytes, Bool, true, Option,
  none, some, length, take, drop, ◌++◌, [], ◌∷◌, inl, inr, Bool-cases, find, eq_bytes, eq_bytes→eq,
  codes, ltb, ◌==◌, ◌&&◌, take-append-drop,
}
use cu_ber.Http.Request.{
  Request, Version, Method, invalid, get, post, head, put, delete, trace, options, method_string,
  version_string, read_method, set_method, is_known,
}
use cu_ber.Http.Context.{
  parse_request_line, parse_target, parse_version, version_of, set_target, set_read_version,
}

-- The name of a method is read as that method.
pub read_method-method_string : (m : Method) → read_method (method_string m) ≡ m
unfolding read_method eq_bytes
read_method-method_string invalid = refl
read_method-method_string get = refl
read_method-method_string post = refl
read_method-method_string head = refl
read_method-method_string put = refl
read_method-method_string delete = refl
read_method-method_string trace = refl
read_method-method_string options = refl

-- A word that is read as a method is its name.
pub method_string-read_method :
    (w : Bytes) → is_known (read_method w) ≡ true → method_string (read_method w) ≡ w
unfolding read_method
method_string-read_method w h = ground (
  arith,
  eq_bytes→eq w (codes "GET"),
  eq_bytes→eq w (codes "POST"),
  eq_bytes→eq w (codes "HEAD"),
  eq_bytes→eq w (codes "PUT"),
  eq_bytes→eq w (codes "DELETE"),
  eq_bytes→eq w (codes "TRACE"),
  eq_bytes→eq w (codes "OPTIONS"),
)

-- Where a separator is found it stands between the two parts.
split_at :
    (c : ℕ) (xs : Bytes)
    → ltb (find c xs) (length xs) ≡ true
    → xs ≡ take (find c xs) xs ++ c ∷ drop (suc (find c xs)) xs
unfolding find
split_at c [] h = ground arith
split_at c (x ∷ xs) h = elim (Bool-cases (x == c)) [
  | inl here ↦ rw here (ground arith)
  | inr past ↦ rw past (ap (λ t. x ∷ t) (split_at c xs (ground arith)))
]

-- Path and query together are the target.
set_target-joined :
    (target : Bytes) (r : Request)
    → r.query ≡ []
    → (set_target target r).path ++ (set_target target r).query ≡ target
unfolding set_target
set_target-joined target r e = elim (Bool-cases (ltb (find b'?' target) (length target))) [
  | inl mark ↦ rw mark (take-append-drop (find b'?' target) target)
  | inr plain ↦ rw (plain, e) (append-nil target)
]

method-set_target : (target : Bytes) (r : Request) → (set_target target r).method ≡ r.method
unfolding set_target
method-set_target target r = ground arith

-- What an accepted request line says: the words of the line, and the parts that stay.
version_of_sound :
    (xs : Bytes) (k : Version)
    → length xs ≡ 1
    → version_of xs ≡ some k
    → codes "HTTP/1." ++ xs ≡ version_string k
unfolding version_of
version_of_sound [] k h e = absurd (omega arith)
version_of_sound (c ∷ []) k h e = ground arith
version_of_sound (c ∷ d ∷ xs) k h e = absurd (omega arith)

abbrev SameTarget : Request → Request → Type 0
SameTarget r r' = (r'.method ≡ r.method) × (r'.path ≡ r.path) × (r'.query ≡ r.query)

with_version :
    (o : Option Version) (r r' : Request)
    → set_read_version o r ≡ (r', true)
    → (o ≡ some r'.version) × SameTarget r r'
unfolding set_read_version
with_version none r r' e = cc (ap (λ (p : Request × Bool). p.1) e)
with_version (some k) r r' e = ground arith

parse_version_sound :
    (v : Bytes) (r r' : Request)
    → parse_version v r ≡ (r', true)
    → (v ≡ version_string r'.version) × SameTarget r r'
unfolding parse_version
parse_version_sound v r r' e =
    elim (Bool-cases (length v == 8 && eq_bytes (take 7 v) (codes "HTTP/1."))) [
      | inl fits ↦
          let (found, same) = with_version (version_of (drop 7 v)) r r' (rw fits at e) in
          let size : length v ≡ 8 = ground arith in
          let start : take 7 v ≡ codes "HTTP/1." = eq_bytes→eq _ _ (ground arith) in
          let end = version_of_sound (drop 7 v) r'.version (omega (arith, length-drop 7 v)) found in
          (sym (take-append-drop 7 v) ∙ ap (λ t. t ++ drop 7 v) start ∙ end, same)
      | inr bad ↦ cc (ap (λ (p : Request × Bool). p.1) (rw bad at e))
    ]

parse_target_sound :
    (rest : Bytes) (r r' : Request)
    → r.query ≡ []
    → parse_target rest r ≡ (r', true)
    → (rest ≡ (r'.path ++ r'.query) ++ 32 ∷ version_string r'.version) × (r'.method ≡ r.method)
unfolding parse_target
parse_target_sound rest r r' q e = elim (Bool-cases (ltb (find 32 rest) (length rest))) [
  | inl fits ↦
      let target = take (find 32 rest) rest in
      let (v, same) =
        parse_version_sound (drop (suc (find 32 rest)) rest) (set_target target r) r'
          (rw fits at e) in
      let whole : r'.path ++ r'.query ≡ target =
        ap₂ ◌++◌ same.1 same.2 ∙ set_target-joined target r q in
      (
        split_at 32 rest fits ∙ ap₂ (λ x y. x ++ 32 ∷ y) (sym whole) v,
        same.0 ∙ method-set_target target r,
      )
  | inr bad ↦ cc (ap (λ (p : Request × Bool). p.1) (rw bad at e))
]

-- An accepted request line, read by a request without a query, is the line that its parts make up:
-- method, path and query, version, with one space between them. Nothing of the line is lost or
-- invented, and the method is known.
pub parse_request_line_sound :
    (line : Bytes) (r : Request) {r' : Request}
    → r.query ≡ []
    → parse_request_line line r ≡ (r', true)
    → (line
        ≡ method_string r'.method ++ 32 ∷ ((r'.path ++ r'.query) ++ 32 ∷ version_string r'.version))
      × (is_known r'.method ≡ true)
unfolding parse_request_line set_method
parse_request_line_sound line r {r'} q e = elim (Bool-cases (ltb (find 32 line) (length line))) [
  | inl fits ↦
      let word = take (find 32 line) line in
      elim (Bool-cases (is_known (read_method word))) [
        | inl known ↦
            let (rest, m) =
              parse_target_sound (drop (suc (find 32 line)) line)
                (record r { method = read_method word }) r' q (rw (fits, known) at e) in
            (
              split_at 32 line fits
                  ∙ ap₂ (λ x y. x ++ 32 ∷ y)
                      (sym (method_string-read_method word known) ∙ ap method_string (sym m)) rest,
              ap is_known m ∙ known,
            )
        | inr other ↦ cc (ap (λ (p : Request × Bool). p.1) (rw (fits, other) at e))
      ]
  | inr bad ↦ cc (ap (λ (p : Request × Bool). p.1) (rw bad at e))
]
