-- ===== src/Http/ResponseContext/Body.antt =====
-- The body in `HttpResponseContext::parseResponse`: read where it is all there, and the loop that
-- does not end where it is not.
use cu_ber.Prelude.{
  ℕ, zero, suc, ◌≤◌, ◌<◌, ◌≡◌, ◌≢◌, refl, ap, ◌∙◌, arith, Bytes, Option, none, some, codes, length,
  take, drop, ◌++◌, [], ◌∷◌, ltb, ℤ, stoi, to_size, lt→ltb, take-append, drop-append, length-append,
  Bool-cases, inl, inr, tests,
}
use cu_ber.Buffer.{Buffer, content, readable_bytes, retrieve}
use cu_ber.Buffer.Content.{IsValid, retrieve_lem, length-content}
use cu_ber.Http.Context.{Verdict, parse_ok, parse_again}
use cu_ber.Http.Response.{Response, get_header, set_body}
use cu_ber.Http.ResponseContext.{
  ResponseContext, expect_body, got_all, round, parse_response, parse_body, body_of_length,
  take_body, after_body, Round, next, stop,
}

-- The header states a length.
abbrev pub States : Response → ℤ → Type 0
States r n =
    (get_header (codes "Content-Length") r ≢ [])
    × (stoi (get_header (codes "Content-Length") r) ≡ some n)

body_of_length-cons :
    (s : Bytes) (r : Response) (b : Buffer) → s ≢ [] → body_of_length s r b ≡ take_body (stoi s) r b
unfolding body_of_length
body_of_length-cons [] r b h = absurd (h refl)
body_of_length-cons (x ∷ xs) r b h = refl

parse_body-States :
    (r : Response) (b : Buffer) (n : ℤ) → States r n → parse_body r b ≡ take_body (some n) r b
unfolding parse_body
parse_body-States r b n (some_text, e) =
    body_of_length-cons (get_header (codes "Content-Length") r) r b some_text
    ∙ ap (λ o. take_body o r b) e

abbrev in_body : Response → ResponseContext
in_body r = record { state = expect_body; response = r }

take_missing :
    (r : Response) (b : Buffer) (n : ℤ)
    → readable_bytes b < to_size n
    → take_body (some n) r b ≡ (r, parse_again, b)
unfolding take_body
take_missing r b n h = rw (lt→ltb _ _ h)

take_whole :
    (r : Response) (b : Buffer) (n : ℤ)
    → to_size n ≤ readable_bytes b
    → take_body (some n) r b
      ≡ (set_body (take (to_size n) (content b)) r, parse_ok, retrieve (to_size n) b)
unfolding take_body
take_whole r b n h = elim (Bool-cases (ltb (readable_bytes b) (to_size n))) [
  | inl less ↦ absurd (omega (tests, less))
  | inr more ↦ rw more
]

after : Response → Response × Verdict × Buffer → Round
after r t = after_body (record (in_body r) { response = t.0 }) t.1 t.2

round_body :
    (r : Response) (b : Buffer) → round expect_body (in_body r) b ≡ after r (parse_body r b)
unfolding round after
round_body r b = refl

-- One round, by what it does.
response_next :
    (fuel : ℕ) (c d : ResponseContext) (b b' : Buffer)
    → round c.state c b ≡ next d b'
    → parse_response (suc fuel) c b ≡ parse_response fuel d b'
response_next fuel c d b b' e =
    unfold parse_response in
    ap {B = Option (Verdict × ResponseContext × Buffer)}
      (λ (x : Round). elim x [
        | next c' b' ↦ parse_response fuel c' b'
        | stop v c' b' ↦ some (v, c', b')
      ])
      e

missing_round :
    (r : Response) (b : Buffer) (n : ℤ)
    → States r n
    → readable_bytes b < to_size n
    → round expect_body (in_body r) b ≡ next (in_body r) b
missing_round r b n s h =
    round_body r b
    ∙ ap (after r) (parse_body-States r b n s ∙ take_missing r b n h)
    ∙ unfold after after_body in refl

-- While the body whose length the header states has not all arrived, `parseResponse` does not return: no number of rounds gives a
-- result, and the loop changes nothing.
pub parse_response_spins :
    (fuel : ℕ) (r : Response) (b : Buffer) (n : ℤ)
    → States r n
    → readable_bytes b < to_size n
    → parse_response fuel (in_body r) b ≡ none
parse_response_spins zero r b n s h = unfold parse_response in refl
parse_response_spins (suc fuel) r b n s h =
    response_next fuel (in_body r) (in_body r) b b (missing_round r b n s h)
    ∙ parse_response_spins fuel r b n s h

-- A body of the length that the header states, all there in a valid buffer, is read in two rounds
-- and taken off the buffer, which stays valid.
pub parse_response_body :
    (fuel : ℕ) (r : Response) (n : ℤ) (body rest : Bytes) {b : Buffer}
    → IsValid b
    → States r n
    → to_size n ≡ length body
    → content b ≡ body ++ rest
    → (b' : Buffer) × (parse_response (suc (suc fuel)) (in_body r) b
        ≡ some (parse_ok, record { state = got_all; response = set_body body r }, b'))
      × IsValid b'
      × (content b' ≡ rest)
parse_response_body fuel r n body rest {b} v s size e =
    let b' = retrieve (to_size n) b in
    let (v', left) = retrieve_lem (to_size n) v in
    let enough : to_size n ≤ readable_bytes b =
      omega (arith, length-content v, ap length e, length-append body rest) in
    let front : take (to_size n) (content b) ≡ body =
      ap (take (to_size n)) e ∙ take-append (to_size n) body rest size in
    let read : round expect_body (in_body r) b
        ≡ next (record { state = got_all; response = set_body body r }) b' =
      round_body r b
      ∙ ap (after r) (parse_body-States r b n s ∙ take_whole r b n enough)
      ∙ unfold after after_body in
        ap (λ x. next (record { state = got_all; response = set_body x r }) b') front in
    (
      b',
      response_next (suc fuel) (in_body r) _ b b' read ∙ unfold parse_response in refl,
      v',
      left ∙ ap (drop (to_size n)) e ∙ drop-append (to_size n) body rest size,
    )
