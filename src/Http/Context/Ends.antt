-- ===== src/Http/Context/Ends.antt =====
-- The loop of `HttpContext::parseRequest` ends.
use cu_ber.Prelude.{
  ℕ, zero, suc, ◌+◌, ◌<◌, ◌≡◌, refl, ap, ◌∙◌, arith, Bytes, Option, none, some, length, take, drop,
  length-drop,
}
use cu_ber.Buffer.{Buffer, content, readable_bytes, search_crlf}
use cu_ber.Buffer.Content.{IsValid, length-content}
use cu_ber.Buffer.Search.{search_crlf-Found, Found}
use cu_ber.Http.Context.{
  Context, State, expect_request_line, expect_headers, expect_body, got_all, Verdict, parse_ok,
  Round, next, stop, parse_headers, bad_message, parse_again, header_end, parse_request, parse_loop,
  round,
}
use cu_ber.Http.Context.Stream.{
  request_line_step, after_headers_step, headers_step, step, parse_bytes, outcome,
  parse_request-parse_bytes,
}

-- How many rounds a state is away from the end.
abbrev pub rank : State → ℕ
rank expect_request_line = 3
rank expect_headers = 2
rank expect_body = 1
rank got_all = 0

abbrev pub weight : Context → Bytes → ℕ
weight c xs = length xs + rank c.state

-- A step that goes on takes bytes or comes nearer to the end.
abbrev pub Falls : ℕ → Round Bytes → Type 0
Falls n (next c xs) = weight c xs < n
Falls n (stop v c xs) = Unit {0}

request_line-Falls :
    (time : ℕ) (c : Context) (xs : Bytes) (o : Option ℕ)
    → c.state ≡ expect_request_line
    → Found xs o
    → Falls (weight c xs) (request_line_step time c xs o)
unfolding request_line_step
request_line-Falls time c xs none e f = tt
request_line-Falls time c xs (some i) e f = ground (arith, length-drop (i + 2) xs)

after_headers-Falls :
    (c : Context) (v : Verdict) (xs : Bytes) (n : ℕ)
    → c.state ≡ expect_headers
    → length xs + 2 < n
    → Falls n (after_headers_step c v xs)
unfolding after_headers_step
after_headers-Falls c header_end xs n e h = omega arith
after_headers-Falls c bad_message xs n e h = tt
after_headers-Falls c parse_ok xs n e h = ground arith
after_headers-Falls c parse_again xs n e h = ground arith

headers-Falls :
    (time : ℕ) (c : Context) (xs : Bytes) (o : Option ℕ)
    → c.state ≡ expect_headers
    → Found xs o
    → Falls (weight c xs) (headers_step time c xs o)
unfolding headers_step
headers-Falls time c xs none e f = tt
headers-Falls time c xs (some i) e f =
    after_headers-Falls _ (parse_headers (take i xs) c.request).1 (drop (i + 2) xs) (weight c xs) e
      (ground (arith, length-drop (i + 2) xs))

pub step-Falls :
    (s : State) (time : ℕ) (c : Context) (xs : Bytes)
    → c.state ≡ s
    → Falls (weight c xs) (step s time c xs)
unfolding step
step-Falls expect_request_line time c xs e =
    request_line-Falls time c xs (search_crlf xs) e (search_crlf-Found xs)
step-Falls expect_headers time c xs e =
    headers-Falls time c xs (search_crlf xs) e (search_crlf-Found xs)
step-Falls expect_body time c xs e = ground arith
step-Falls got_all time c xs e = tt

abbrev Rest : Type 0
Rest = Context → Bytes → Option (Verdict × Context × Bytes)

finish_total :
    (k : Rest) (n : ℕ) (r : Round Bytes)
    → Falls n r
    → ((c : Context) (xs : Bytes)
        → weight c xs < n
        → (a : Verdict × Context × Bytes) × (k c xs ≡ some a))
    → (a : Verdict × Context × Bytes) × (elim r [
      | next c xs ↦ k c xs
      | stop v c xs ↦ some (v, c, xs)
    ]
        ≡ some a)
finish_total k n (next c xs) f ih = ih c xs f
finish_total k n (stop v c xs) f ih = ((v, c, xs), refl)

pub parse_bytes_total :
    (fuel time : ℕ) (c : Context) (xs : Bytes)
    → weight c xs < fuel
    → (a : Verdict × Context × Bytes) × (parse_bytes fuel time c xs ≡ some a)
unfolding parse_bytes
parse_bytes_total zero time c xs h = elim h [ ]
parse_bytes_total (suc fuel) time c xs h =
    finish_total (parse_bytes fuel time) (weight c xs) (step c.state time c xs)
      (step-Falls c.state time c xs refl)
      (λ c' ys h'. parse_bytes_total fuel time c' ys (omega arith))

finish_same :
    (k l : Rest) (n : ℕ) (r : Round Bytes)
    → Falls n r
    → ((c : Context) (xs : Bytes) → weight c xs < n → k c xs ≡ l c xs)
    → elim r [ next c xs ↦ k c xs | stop v c xs ↦ some (v, c, xs) ]
      ≡ elim r [ next c xs ↦ l c xs | stop v c xs ↦ some (v, c, xs) ]
finish_same k l n (next c xs) f ih = ih c xs f
finish_same k l n (stop v c xs) f ih = refl

-- Fuel above the weight is all the same.
pub parse_bytes_fuel :
    (f g time : ℕ) (c : Context) (xs : Bytes)
    → weight c xs < f
    → weight c xs < g
    → parse_bytes f time c xs ≡ parse_bytes g time c xs
unfolding parse_bytes
parse_bytes_fuel zero g time c xs h k = elim h [ ]
parse_bytes_fuel (suc f) zero time c xs h k = elim k [ ]
parse_bytes_fuel (suc f) (suc g) time c xs h k =
    finish_same (parse_bytes f time) (parse_bytes g time) (weight c xs) (step c.state time c xs)
      (step-Falls c.state time c xs refl)
      (λ c' ys h'. parse_bytes_fuel f g time c' ys (omega arith) (omega arith))

pub rank_bound : (s : State) → rank s < 4
rank_bound expect_request_line = omega arith
rank_bound expect_headers = omega arith
rank_bound expect_body = omega arith
rank_bound got_all = omega arith

answered :
    (o : Option (Verdict × Context × Buffer)) {a : Verdict × Context × Bytes}
    → outcome o ≡ some a
    → (r : Verdict × Context × Buffer) × (o ≡ some r)
answered none e = cc
answered (some r) e = (r, refl)

-- On a valid buffer `parseRequest` returns, in whatever state the parser is and whatever was read.
pub parse_request_total :
    (time : ℕ) (c : Context) {b : Buffer}
    → IsValid b
    → (r : Verdict × Context × Buffer) × (parse_request time c b ≡ some r)
parse_request_total time c {b} v =
    let enough : weight c (content b) < readable_bytes b + 4 =
      omega (arith, length-content v, rank_bound c.state) in
    let (a, e) = parse_bytes_total (readable_bytes b + 4) time c (content b) enough in
    answered (parse_request time c b) ((parse_request-parse_bytes time c v).0 ∙ e)

-- A parser that has read a whole request says so again, whatever the buffer holds.
pub parse_request_again :
    (time : ℕ) (c : Context) (b : Buffer)
    → c.state ≡ got_all
    → parse_request time c b ≡ some (parse_ok, c, b)
unfolding parse_request parse_loop round
parse_request_again time c b e =
    let more : readable_bytes b + 4 ≡ suc (readable_bytes b + 3) = omega arith in
    ap (λ n. parse_loop n time c b) more ∙ again (readable_bytes b + 3) c.state e
  where
    again :
        (fuel : ℕ) (x : State)
        → x ≡ got_all
        → elim (round x time c b) [
          | next c' b' ↦ parse_loop fuel time c' b'
          | stop v c' b' ↦ some (v, c', b')
        ]
          ≡ some (parse_ok, c, b)
    again fuel got_all e = refl
    again fuel expect_request_line e = cc
    again fuel expect_headers e = cc
    again fuel expect_body e = cc
