-- ===== src/Http/Context/Chunks.antt =====
-- How the bytes of a request arrive does not matter to `HttpContext::parseRequest`.
use cu_ber.Prelude.{
  ℕ, zero, suc, ◌+◌, ◌≤◌, ◌<◌, ◌≡◌, refl, sym, ap, subst, ◌∙◌, arith, Bytes, Option, none, some,
  length, take, drop, ◌++◌, ◌⊎◌, inl, inr, take-append_le, drop-append_le, Bool-cases,
  length-append,
}
use cu_ber.Buffer.{Buffer, content, readable_bytes, search_crlf, append}
use cu_ber.Buffer.Content.{IsValid, length-content, append_lem}
use cu_ber.Buffer.Search.{search_crlf-Found, Found, search_crlf_grow}
use cu_ber.Http.Context.{
  Context, State, expect_request_line, expect_headers, expect_body, got_all, Verdict, parse_ok,
  Round, next, stop, parse_request_line, parse_headers, bad_message, parse_again, header_end,
  parse_request,
}
use cu_ber.Http.Context.Stream.{
  request_line_step, after_headers_step, headers_step, step, parse_bytes, outcome, AllValid,
  parse_request-parse_bytes,
}
use cu_ber.Http.Context.Ends.{weight, Falls, step-Falls, rank_bound, parse_bytes_fuel}

-- What a step does when more bytes stand behind: a step that goes on goes on alike, and one that
-- wants more input has changed nothing.
abbrev Grows : Context → Bytes → Bytes → Round Bytes → Round Bytes → Type 0
Grows c xs more (next d ys) r = r ≡ next d (ys ++ more)
Grows c xs more (stop parse_again d ys) r = (d ≡ c) × (ys ≡ xs)
Grows c xs more (stop _ d ys) r = Unit {0}

request_line-Grows :
    (time : ℕ) (c : Context) (xs more : Bytes) (i : ℕ)
    → suc (suc i) ≤ length xs
    → Grows c xs more
        (request_line_step time c xs (some i))
        (request_line_step time c (xs ++ more) (some i))
unfolding request_line_step
request_line-Grows time c xs more i h =
    rw (take-append_le i xs more (omega arith), drop-append_le (i + 2) xs more (omega arith))
      (elim (Bool-cases (parse_request_line (take i xs) c.request).1) [
        | inl done ↦ rw done refl
        | inr bad ↦ rw bad tt
      ])

after_headers-Grows :
    (c d : Context) (v : Verdict) (xs ys more : Bytes)
    → Grows c xs more (after_headers_step d v ys) (after_headers_step d v (ys ++ more))
unfolding after_headers_step
after_headers-Grows c d header_end xs ys more = refl
after_headers-Grows c d bad_message xs ys more = tt
after_headers-Grows c d parse_ok xs ys more = refl
after_headers-Grows c d parse_again xs ys more = refl

headers-Grows :
    (time : ℕ) (c : Context) (xs more : Bytes) (i : ℕ)
    → suc (suc i) ≤ length xs
    → Grows c xs more (headers_step time c xs (some i)) (headers_step time c (xs ++ more) (some i))
unfolding headers_step
headers-Grows time c xs more i h =
    rw (take-append_le i xs more (omega arith), drop-append_le (i + 2) xs more (omega arith))
      (after_headers-Grows c _ (parse_headers (take i xs) c.request).1 xs (drop (i + 2) xs) more)

-- What was found is found again.
line-Grows :
    (c : Context) (xs more : Bytes) (f : Bytes → Option ℕ → Round Bytes)
    → f xs none ≡ stop parse_again c xs
    → ((i : ℕ)
        → suc (suc i) ≤ length xs
        → Grows c xs more (f xs (some i)) (f (xs ++ more) (some i)))
    → (o o' : Option ℕ) → Found xs o
    → (o ≡ none) ⊎ (o' ≡ o)
    → Grows c xs more (f xs o) (f (xs ++ more) o')
line-Grows c xs more f e h none o' found same = rw e (refl, refl)
line-Grows c xs more f e h (some i) o' found (inl bad) = cc
line-Grows c xs more f e h (some i) o' found (inr same) = rw same (h i found.0)

step-Grows :
    (s : State) (time : ℕ) (c : Context) (xs more : Bytes)
    → Grows c xs more (step s time c xs) (step s time c (xs ++ more))
unfolding step
step-Grows expect_request_line time c xs more =
    line-Grows c xs more (request_line_step time c) (unfold request_line_step in refl)
      (request_line-Grows time c xs more) (search_crlf xs) (search_crlf (xs ++ more))
      (search_crlf-Found xs) (search_crlf_grow xs more)
step-Grows expect_headers time c xs more =
    line-Grows c xs more (headers_step time c) (unfold headers_step in refl)
      (headers-Grows time c xs more) (search_crlf xs) (search_crlf (xs ++ more))
      (search_crlf-Found xs) (search_crlf_grow xs more)
step-Grows expect_body time c xs more = refl
step-Grows got_all time c xs more = tt

abbrev Rest : Type 0
Rest = Context → Bytes → Option (Verdict × Context × Bytes)

-- One round of the induction below: `k` reads the first part, `l` the whole.
finish_grow :
    (k l : Rest) (c d : Context) (xs ys more : Bytes) (n : ℕ) (r s : Round Bytes)
    (goal : Option (Verdict × Context × Bytes))
    → Falls n r
    → Grows c xs more r s
    → elim r [ next c xs ↦ k c xs | stop v c xs ↦ some (v, c, xs) ] ≡ some (parse_again, d, ys)
    → (d ≡ c → ys ≡ xs → elim s [ next c xs ↦ l c xs | stop v c xs ↦ some (v, c, xs) ] ≡ goal)
    → ((c' : Context) (zs : Bytes)
        → weight c' zs < n
        → k c' zs ≡ some (parse_again, d, ys)
        → l c' (zs ++ more) ≡ goal)
    → elim s [ next c xs ↦ l c xs | stop v c xs ↦ some (v, c, xs) ] ≡ goal
finish_grow k l c d xs ys more n (next c' zs) s goal f g e stay on = rw g (on c' zs f e)
finish_grow k l c d xs ys more n (stop parse_again c' zs) s goal f g e stay on =
    stay (cc (g.0)) (cc (g.1))
finish_grow k l c d xs ys more n (stop parse_ok c' zs) s goal f g e stay on = cc
finish_grow k l c d xs ys more n (stop bad_message c' zs) s goal f g e stay on = cc
finish_grow k l c d xs ys more n (stop header_end c' zs) s goal f g e stay on = cc

chunks :
    (f g h time : ℕ) (c d : Context) (xs ys more : Bytes)
    → parse_bytes f time c xs ≡ some (parse_again, d, ys)
    → weight c (xs ++ more) < g
    → weight d (ys ++ more) < h
    → parse_bytes g time c (xs ++ more) ≡ parse_bytes h time d (ys ++ more)
unfolding parse_bytes
chunks zero g h time c d xs ys more e a b = cc
chunks (suc f) zero h time c d xs ys more e a b = elim a [ ]
chunks (suc f) (suc g) h time c d xs ys more e a b =
    finish_grow (parse_bytes f time) (parse_bytes g time) c d xs ys more (weight c xs)
      (step c.state time c xs) (step c.state time c (xs ++ more))
      (parse_bytes h time d (ys ++ more)) (step-Falls c.state time c xs refl)
      (step-Grows c.state time c xs more) e
      (λ p q.
        let same : parse_bytes (suc g) time c (xs ++ more) ≡ parse_bytes h time c (xs ++ more) =
          parse_bytes_fuel (suc g) h time c (xs ++ more) a (rw (← p, ← q) b) in
        rw (p, q) same)
      (λ c' zs lower e'.
        chunks f g h time c' d zs ys more e'
          (omega (arith, length-append zs more, length-append xs more)) b)

-- Splitting the input of a valid buffer changes nothing: where the parser waits for more, going on
-- with the rest ends as parsing all of it at once does: in the same state of the parser, with the same verdict, the same request and
-- the same bytes left in the buffer.
pub parse_request_chunks :
    (time : ℕ) (c : Context) {d : Context} {b b' : Buffer} (more : Bytes)
    → IsValid b
    → parse_request time c b ≡ some (parse_again, d, b')
    → outcome (parse_request time c (append more b))
      ≡ outcome (parse_request time d (append more b'))
parse_request_chunks time c {d} {b} {b'} more v e =
    let (first, valid) = parse_request-parse_bytes time c v in
    let v' : IsValid b' = subst AllValid e valid in
    let (w, whole) = append_lem more v in
    let (w', part) = append_lem more v' in
    let read : parse_bytes (readable_bytes b + 4) time c (content b)
        ≡ some (parse_again, d, content b') =
      sym first ∙ ap outcome e in
    let left = parse_request-parse_bytes time c w in
    let right = parse_request-parse_bytes time d w' in
    let joined =
      chunks (readable_bytes b + 4) (readable_bytes (append more b) + 4)
        (readable_bytes (append more b') + 4) time c d (content b) (content b') more read
        (omega (arith, length-content w, ap length whole, rank_bound c.state))
        (omega (arith, length-content w', ap length part, rank_bound d.state)) in
    left.0
    ∙ ap (parse_bytes (readable_bytes (append more b) + 4) time c) whole
    ∙ joined
    ∙ sym (right.0 ∙ ap (parse_bytes (readable_bytes (append more b') + 4) time d) part)
