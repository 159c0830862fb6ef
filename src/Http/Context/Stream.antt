-- ===== src/Http/Context/Stream.antt =====
-- `HttpContext::parseRequest` over the content of the buffer: the same machine on a list of bytes.
use cu_ber.Prelude.{
  ℕ, zero, suc, ◌+◌, ◌≡◌, refl, Bytes, Option, none, some, take, drop, if◌then◌else◌, Bool-cases,
  inl, inr,
}
use cu_ber.Buffer.{Buffer, content, readable_bytes, find_crlf, search_crlf, retrieve_until}
use cu_ber.Buffer.Content.{IsValid, retrieve_lem}
use cu_ber.Http.Context.{
  Context, State, expect_request_line, expect_headers, expect_body, got_all, Verdict, parse_ok,
  bad_message, parse_again, header_end, Round, next, stop, parse_request_line, parse_headers,
  request_line_round, after_headers, headers_round, round, parse_loop, parse_request,
}

unfoldable pub request_line_step : ℕ → Context → Bytes → Option ℕ → Round Bytes
request_line_step time c xs none = stop parse_again c xs
request_line_step time c xs (some i) =
    let (r, done) = parse_request_line (take i xs) c.request in
    if done
    then next (record c { state = expect_headers; request = record r { receive_time = time } })
        (drop (i + 2) xs)
    else stop bad_message (record c { request = r }) xs

unfoldable pub after_headers_step : Context → Verdict → Bytes → Round Bytes
after_headers_step c header_end xs = next (record c { state = expect_body }) xs
after_headers_step c bad_message xs = stop bad_message c xs
after_headers_step c _ xs = next c xs

unfoldable pub headers_step : ℕ → Context → Bytes → Option ℕ → Round Bytes
headers_step time c xs none = stop parse_again c xs
headers_step time c xs (some i) =
    let (r, verdict) = parse_headers (take i xs) c.request in
    after_headers_step (record c { request = r }) verdict (drop (i + 2) xs)

unfoldable pub step : State → ℕ → Context → Bytes → Round Bytes
unfolding request_line_step after_headers_step headers_step
step expect_request_line time c xs = request_line_step time c xs (search_crlf xs)
step expect_headers time c xs = headers_step time c xs (search_crlf xs)
step expect_body time c xs = next (record c { state = got_all }) xs
step got_all time c xs = stop parse_ok c xs

unfoldable pub parse_bytes : ℕ → ℕ → Context → Bytes → Option (Verdict × Context × Bytes)
parse_bytes zero time c xs = none
parse_bytes (suc fuel) time c xs = elim (step c.state time c xs) [
  | next c' ys ↦ parse_bytes fuel time c' ys
  | stop v c' ys ↦ some (v, c', ys)
]

-- A round of the code and a step of the machine that agree.
abbrev pub Agree : Round Buffer → Round Bytes → Type 0
Agree (next c b) (next d xs) = (c ≡ d) × IsValid b × (content b ≡ xs)
Agree (stop v c b) (stop w d xs) = (v ≡ w) × (c ≡ d) × IsValid b × (content b ≡ xs)
Agree _ _ = ⊥

request_line-Agree :
    (time : ℕ) (c : Context) {b : Buffer} (o : Option ℕ)
    → IsValid b
    → Agree (request_line_round time c b o) (request_line_step time c (content b) o)
unfolding request_line_round request_line_step retrieve_until
request_line-Agree time c none v = (refl, refl, v, refl)
request_line-Agree time c {b} (some i) v =
    elim (Bool-cases (parse_request_line (take i (content b)) c.request).1) [
      | inl done ↦ rw done (let (v', e) = retrieve_lem (i + 2) v in (refl, v', e))
      | inr bad ↦ rw bad (refl, refl, v, refl)
    ]

after_headers-Agree :
    (c : Context) (verdict : Verdict) {b : Buffer} (xs : Bytes)
    → IsValid b
    → content b ≡ xs
    → Agree (after_headers c verdict b) (after_headers_step c verdict xs)
unfolding after_headers after_headers_step
after_headers-Agree c header_end xs v e = (refl, v, e)
after_headers-Agree c bad_message xs v e = (refl, refl, v, e)
after_headers-Agree c parse_ok xs v e = (refl, v, e)
after_headers-Agree c parse_again xs v e = (refl, v, e)

headers-Agree :
    (time : ℕ) (c : Context) {b : Buffer} (o : Option ℕ)
    → IsValid b
    → Agree (headers_round c b o) (headers_step time c (content b) o)
unfolding headers_round headers_step retrieve_until
headers-Agree time c none v = (refl, refl, v, refl)
headers-Agree time c {b} (some i) v =
    let (v', e) = retrieve_lem (i + 2) v in
    after_headers-Agree _ (parse_headers (take i (content b)) c.request).1 _ v' e

round-Agree :
    (s : State) (time : ℕ) (c : Context) {b : Buffer}
    → IsValid b
    → Agree (round s time c b) (step s time c (content b))
unfolding round step find_crlf
round-Agree expect_request_line time c {b} v = request_line-Agree time c (search_crlf (content b)) v
round-Agree expect_headers time c {b} v = headers-Agree time c (search_crlf (content b)) v
round-Agree expect_body time c v = (refl, v, refl)
round-Agree got_all time c v = (refl, refl, v, refl)

-- What the parser answers, with the buffer seen as its content.
abbrev pub outcome : Option (Verdict × Context × Buffer) → Option (Verdict × Context × Bytes)
outcome none = none
outcome (some (v, c, b)) = some (v, c, content b)

abbrev pub AllValid : Option (Verdict × Context × Buffer) → Type 0
AllValid none = Unit {0}
AllValid (some (v, c, b)) = IsValid b

finish-Agree :
    (k : Context → Buffer → Option (Verdict × Context × Buffer))
    (l : Context → Bytes → Option (Verdict × Context × Bytes))
    (same : (c : Context) (b : Buffer) → IsValid b → outcome (k c b) ≡ l c (content b))
    (r : Round Buffer) (s : Round Bytes)
    → Agree r s
    → outcome (elim r [ next c b ↦ k c b | stop w c b ↦ some (w, c, b) ])
      ≡ elim s [ next c ys ↦ l c ys | stop w c ys ↦ some (w, c, ys) ]
finish-Agree k l same (next c b) (next d xs) (e, v, f) = rw (← e, ← f) (same c b v)
finish-Agree k l same (stop w c b) (stop u d xs) (p, e, v, f) = cc
finish-Agree k l same (next c b) (stop u d xs) a = absurd a
finish-Agree k l same (stop w c b) (next d xs) a = absurd a

loop_lem :
    (fuel time : ℕ) (c : Context) {b : Buffer}
    → IsValid b
    → outcome (parse_loop fuel time c b) ≡ parse_bytes fuel time c (content b)
unfolding parse_loop parse_bytes
loop_lem zero time c v = refl
loop_lem (suc fuel) time c {b} v =
    finish-Agree (parse_loop fuel time) (parse_bytes fuel time)
      (λ c' b' v'. loop_lem fuel time c' v') (round c.state time c b)
      (step c.state time c (content b)) (round-Agree c.state time c v)

finish-IsValid :
    (k : Context → Buffer → Option (Verdict × Context × Buffer))
    (keep : (c : Context) (b : Buffer) → IsValid b → AllValid (k c b)) (r : Round Buffer)
    (s : Round Bytes)
    → Agree r s
    → AllValid (elim r [ next c b ↦ k c b | stop w c b ↦ some (w, c, b) ])
finish-IsValid k keep (next c b) (next d xs) (e, v, f) = keep c b v
finish-IsValid k keep (stop w c b) (stop u d xs) (p, e, v, f) = v
finish-IsValid k keep (next c b) (stop u d xs) a = absurd a
finish-IsValid k keep (stop w c b) (next d xs) a = absurd a

loop-IsValid :
    (fuel time : ℕ) (c : Context) {b : Buffer} → IsValid b → AllValid (parse_loop fuel time c b)
unfolding parse_loop
loop-IsValid zero time c v = tt
loop-IsValid (suc fuel) time c {b} v =
    finish-IsValid (parse_loop fuel time) (λ c' b' v'. loop-IsValid fuel time c' v')
      (round c.state time c b) (step c.state time c (content b)) (round-Agree c.state time c v)

-- `parseRequest` answers as the machine does on the content of the buffer, which stays valid.
pub parse_request-parse_bytes :
    (time : ℕ) (c : Context) {b : Buffer}
    → IsValid b
    → (outcome (parse_request time c b) ≡ parse_bytes (readable_bytes b + 4) time c (content b))
      × AllValid (parse_request time c b)
unfolding parse_request
parse_request-parse_bytes time c {b} v =
    (loop_lem (readable_bytes b + 4) time c v, loop-IsValid (readable_bytes b + 4) time c v)

pub parse_bytes_next :
    (f time : ℕ) (c d : Context) (xs ys : Bytes)
    → step c.state time c xs ≡ next d ys
    → parse_bytes (suc f) time c xs ≡ parse_bytes f time d ys
unfolding parse_bytes
parse_bytes_next f time c d xs ys e = cc

pub parse_bytes-stop :
    (f time : ℕ) (c d : Context) (v : Verdict) (xs ys : Bytes)
    → step c.state time c xs ≡ stop v d ys
    → parse_bytes (suc f) time c xs ≡ some (v, d, ys)
unfolding parse_bytes
parse_bytes-stop f time c d v xs ys e = cc
