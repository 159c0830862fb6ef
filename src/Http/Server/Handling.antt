-- ===== src/Http/Server/Handling.antt =====
-- The loop of `HttpServer::onRequest` in http/HttpServer.cpp: when it ends.
use cu_ber.Prelude.{
  ℕ, zero, suc, ◌≤◌, ◌<◌, ◌≡◌, ◌≢◌, refl, sym, subst, ◌∙◌, arith, Bytes, Bool, Option, none, some,
  length, take, [], ◌∷◌, inl, inr, ◌==◌, Bool-cases, ltb, codes, ℤ, stoi, to_size, length-take,
}
use cu_ber.Buffer.{readable_bytes}
use cu_ber.Config.{is_listened}
use cu_ber.Http.Request.{get_header}
use cu_ber.Http.Handler.{
  Files, Peer, Exchange, static_file, post_read, proxy, default, handle, Outcome, returns, throws,
  Next, done, error, again, decline, forwarded, handle_access, access_path, after_match,
  match_location, handle_static, handle_post_read, handle_proxy, handle_default, post_of_length,
  read_post_body, start_forward,
}
use cu_ber.Http.Handler.Location.{match_location-Longest, Longest}
use cu_ber.Http.Server.{http_handler, run_handlers, Ending, answered, passed_on, thrown}

-- A chain that asks for another round leaves the path and the place in it as they were.
abbrev Quiet : Next → Type 0
Quiet next =
    (s s' : Exchange)
    → next s ≡ returns again s'
    → (s'.request.path ≡ s.request.path)
      × (s'.request.location_end_pos ≡ s.request.location_end_pos)

default-Quiet : Quiet handle_default
unfolding handle_default
default-Quiet s s' e = ground arith

proxy-Quiet : (conn : Peer) (next : Next) → Quiet next → Quiet (handle_proxy conn next)
unfolding handle_proxy start_forward
proxy-Quiet conn next q s s' e = ground (arith, q s s')

-- A request with another body and another buffer.
post_body-Quiet :
    (next : Next) (o : Option ℤ) (s s' : Exchange)
    → Quiet next
    → read_post_body next s o ≡ returns again s'
    → (s'.request.path ≡ s.request.path)
      × (s'.request.location_end_pos ≡ s.request.location_end_pos)
unfolding read_post_body
post_body-Quiet next none s s' q e = ground arith
post_body-Quiet next (some n) s s' q e =
    elim (Bool-cases (ltb (readable_bytes s.input) (to_size n))) [
      | inl less ↦ let e' = rw less at e in ground arith
      | inr more ↦ q _ s' (rw more at e)
    ]

post_length-Quiet :
    (next : Next) (text : Bytes) (s s' : Exchange)
    → Quiet next
    → post_of_length next s text ≡ returns again s'
    → (s'.request.path ≡ s.request.path)
      × (s'.request.location_end_pos ≡ s.request.location_end_pos)
unfolding post_of_length
post_length-Quiet next [] s s' q e = q s s' e
post_length-Quiet next (x ∷ xs) s s' q e = post_body-Quiet next (stoi (x ∷ xs)) s s' q e

post_read-Quiet : (next : Next) → Quiet next → Quiet (handle_post_read next)
unfolding handle_post_read
post_read-Quiet next q s s' e =
    ground
      (arith, q s s', post_length-Quiet next (get_header (codes "Content-Length") s.request) s s' q)

static-Quiet :
    (fs : Files) (conn : Peer) (next : Next) → Quiet next → Quiet (handle_static fs conn next)
unfolding handle_static
static-Quiet fs conn next q s s' e = ground (arith, q s s')

-- A match that asks for another round has moved the place in the path down.
match-falls :
    (next : Next) (s s' : Exchange) (req : Bytes) (listened : Bytes → Bool) (o : Option Bytes)
    → Quiet next
    → Longest listened req o
    → after_match next s o ≡ returns again s'
    → (s'.request.path ≡ s.request.path) × (suc s'.request.location_end_pos ≤ length req)
unfolding after_match
match-falls next s s' req listened none q l e = ground arith
match-falls next s s' req listened (some p) q (size, part, found, cut, above) e =
    let (path, place) = q _ s' e in (path, omega (arith, cut.0))

access-falls :
    (next : Next) (s s' : Exchange) (path : Bytes)
    → path ≢ []
    → Quiet next
    → access_path next s path ≡ returns again s'
    → (s'.request.path ≡ s.request.path)
      × (s'.request.location_end_pos < s.request.location_end_pos)
unfolding access_path
access-falls next s s' [] some_path q e = absurd (some_path refl)
access-falls next s s' (c ∷ path) some_path q e =
    let req = take s.request.location_end_pos (c ∷ path) in
    elim (Bool-cases (length req == 0)) [
      | inl none_left ↦ let e' = rw none_left at e in ground arith
      | inr more ↦
          let some_byte : 0 < length req = ground arith in
          let listened : Bytes → Bool = λ p. is_listened p s.config in
          let (same, low) =
            match-falls next s s' req listened (match_location (length req) listened req) q
              (match_location-Longest (length req) listened req some_byte (omega arith))
              (rw more at e) in
          (same, omega (arith, length-take s.request.location_end_pos (c ∷ path)))
    ]

module _ (fs : Files) (conn : Peer) where
  -- The handlers behind the one that looks for the location.
  abbrev pub served : Next
  served = handle fs conn (static_file ∷ post_read ∷ proxy ∷ default ∷ [])

  served-Quiet : Quiet served
  unfolding handle
  served-Quiet = static-Quiet fs conn _ (post_read-Quiet _ (proxy-Quiet conn _ default-Quiet))

  abbrev pub chain : Next
  chain = handle fs conn http_handler

  pub chain_access : (s : Exchange) → chain s ≡ handle_access served s
  unfolding handle
  chain_access s = refl

  chain-falls :
      (s s' : Exchange)
      → s.request.path ≢ []
      → chain s ≡ returns again s'
      → (s'.request.path ≡ s.request.path)
        × (s'.request.location_end_pos < s.request.location_end_pos)
  chain-falls s s' p e =
      access-falls served s s' s.request.path p served-Quiet
        (unfold handle_access in sym (chain_access s) ∙ e)

  -- One round of the loop, by what the chain answers.
  round_ends :
      (fuel : ℕ) (s : Exchange) (o : Outcome)
      → ((s' : Exchange)
          → o ≡ returns again s'
          → (e : Ending) × (run_handlers fuel chain s' ≡ some e))
      → chain s ≡ o
      → (e : Ending) × (run_handlers (suc fuel) chain s ≡ some e)
  unfolding run_handlers
  round_ends fuel s throws ih e = (thrown, rw (e, run_handlers))
  round_ends fuel s (returns again s') ih e = let (x, y) = ih s' refl in (x, rw (e, run_handlers) y)
  round_ends fuel s (returns done s') ih e = (answered s', rw (e, run_handlers))
  round_ends fuel s (returns error s') ih e = (answered s', rw (e, run_handlers))
  round_ends fuel s (returns decline s') ih e = (answered s', rw (e, run_handlers))
  round_ends fuel s (returns forwarded s') ih e = (passed_on s', rw (e, run_handlers))

  -- The loop over the handlers ends for every request with a path, within one round more than the
  -- place in the path that the search for a location starts at.
  pub run_handlers_total :
      (fuel : ℕ) (s : Exchange)
      → s.request.path ≢ []
      → s.request.location_end_pos < fuel
      → (e : Ending) × (run_handlers fuel chain s ≡ some e)
  run_handlers_total zero s p h = elim h [ ]
  run_handlers_total (suc fuel) s p h =
      round_ends fuel s (chain s)
        (λ s' e.
          let (path, less) = chain-falls s s' p e in
          run_handlers_total fuel s' (subst (λ t. t ≢ []) (sym path) p) (omega arith))
        refl

  empty_again :
      (s : Exchange) (path : Bytes) → path ≡ [] → access_path served s path ≡ returns again s
  unfolding access_path
  empty_again s [] e = refl
  empty_again s (c ∷ path) e = cc

  pub round_again :
      (fuel : ℕ) (s s' : Exchange)
      → chain s ≡ returns again s'
      → run_handlers (suc fuel) chain s ≡ run_handlers fuel chain s'
  unfolding run_handlers
  round_again fuel s s' e = rw (e, run_handlers)

  pub round_done :
      (fuel : ℕ) (s s' : Exchange)
      → chain s ≡ returns done s'
      → run_handlers (suc fuel) chain s ≡ some (answered s')
  unfolding run_handlers
  round_done fuel s s' e = rw (e, run_handlers)

  -- A request with an empty path keeps the loop running for ever: no number of rounds ends it.
  pub run_handlers_empty_path :
      (fuel : ℕ) (s : Exchange) → s.request.path ≡ [] → run_handlers fuel chain s ≡ none
  run_handlers_empty_path zero s p = unfold run_handlers in refl
  run_handlers_empty_path (suc fuel) s p =
      let same : chain s ≡ returns again s =
        chain_access s ∙ unfold handle_access in empty_again s s.request.path p in
      round_again fuel s s same ∙ run_handlers_empty_path fuel s p
