-- ===== src/Http/Server/Partial.antt =====
-- How `HttpServer::onRequest` of http/HttpServer.cpp answers a POST request whose body has not all
-- arrived.
use cu_ber.Prelude.{
  ℕ, zero, suc, ◌-◌, ◌<◌, ◌≡◌, ◌≢◌, ◌⊎◌, refl, ◌∙◌, arith, Bytes, Bool, Option, none, some, length,
  take, [], ◌∷◌, inl, inr, ◌==◌, Bool-cases, codes, ℤ, pos, stoi, to_size, lt→ltb, length-take,
}
use cu_ber.Buffer.{readable_bytes}
use cu_ber.Config.{is_listened}
use cu_ber.Http.Request.{post, get_header}
use cu_ber.Http.Handler.{
  Files, Peer, Exchange, proxy, default, handle, returns, Next, done, again, handle_access,
  access_path, after_match, match_location, handle_static, handle_post_read, post_of_length,
  read_post_body, with_status,
}
use cu_ber.Http.Handler.Location.{match_location-Longest, Longest}
use cu_ber.Http.Response.{set_status_code}
use cu_ber.Http.Server.{run_handlers, answered}
use cu_ber.Http.Server.Handling.{served, chain, chain_access, round_again, round_done}

-- A POST request of which the connection has not read the whole body.
pub record IsPartial (s : Exchange) : Type 0 where
  pub size : ℤ
  pub is_post : s.request.method ≡ post
  pub has_length : get_header (codes "Content-Length") s.request ≢ []
  pub length_read : stoi (get_header (codes "Content-Length") s.request) ≡ some size
  pub short : readable_bytes s.input < to_size size

abbrev moved : Exchange → ℕ → Exchange
moved s place = record s { request = record s.request { location_end_pos = place } }

moved-IsPartial : (s : Exchange) (place : ℕ) → IsPartial s → IsPartial (moved s place)
unfolding get_header
moved-IsPartial s place w = record {
  size = w.size;
  is_post = w.is_post;
  has_length = w.has_length;
  length_read = w.length_read;
  short = w.short;
}

length_waits :
    (next : Next) (s : Exchange) (text : Bytes) (n : ℤ)
    → text ≢ []
    → stoi text ≡ some n
    → readable_bytes s.input < to_size n
    → post_of_length next s text ≡ returns again s
unfolding post_of_length read_post_body
length_waits next s [] n p e h = absurd (p refl)
length_waits next s (x ∷ xs) n p e h = rw (e, read_post_body, lt→ltb _ _ h)

module _ (fs : Files) (conn : Peer) where
  served_waits : (s : Exchange) → IsPartial s → served fs conn s ≡ returns again s
  unfolding handle handle_static handle_post_read
  served_waits s w = ground (
    arith,
    length_waits (handle fs conn (proxy ∷ default ∷ [])) s
        (get_header (codes "Content-Length") s.request) w.size w.has_length w.length_read w.short,
  )

  abbrev Refused : Exchange → Exchange → Type 0
  Refused s t = (t.response.status_code ≡ pos 404) × (t.input ≡ s.input)

  -- What the access handler makes of such a request.
  partial_match :
      (s : Exchange) (req : Bytes) (listened : Bytes → Bool) (o : Option Bytes)
      → IsPartial s
      → Longest listened req o
      → ((t : Exchange) × (after_match (served fs conn) s o ≡ returns done t) × Refused s t)
        ⊎ ((place : ℕ) × (after_match (served fs conn) s o ≡ returns again (moved s place))
            × (place < length req))
  unfolding after_match with_status set_status_code
  partial_match s req listened none w l = inl (with_status 404 s, refl, (refl, refl))
  partial_match s req listened (some p) w (size, part, found, cut, above) = inr (
    length p - 1,
    served_waits (moved s (length p - 1)) (moved-IsPartial s (length p - 1) w),
    cut.0,
  )

  partial_access :
      (s : Exchange) (path : Bytes)
      → path ≢ []
      → IsPartial s
      → ((t : Exchange) × (access_path (served fs conn) s path ≡ returns done t) × Refused s t)
        ⊎ ((place : ℕ) × (access_path (served fs conn) s path ≡ returns again (moved s place))
            × (place < s.request.location_end_pos))
  unfolding access_path
  partial_access s [] p w = absurd (p refl)
  partial_access s (c ∷ path) p w =
      let req = take s.request.location_end_pos (c ∷ path) in
      let listened : Bytes → Bool = λ q. is_listened q s.config in
      elim (Bool-cases (length req == 0)) [
        | inl none_left ↦
            rw none_left
              (inl (with_status 404 s, refl, unfold with_status set_status_code in (refl, refl)))
        | inr more ↦
            rw more
              (elim (partial_match s req listened (match_location (length req) listened req) w
                (match_location-Longest (length req) listened req (ground arith) (omega arith))) [
                  | inl out ↦ inl out
                  | inr (place, e, low) ↦
                      inr
                        (place, e, omega (arith, length-take s.request.location_end_pos (c ∷ path)))
                ])
      ]

  -- A POST request that states its length, whose body has not all arrived and whose path is not empty,
  -- does not wait for the rest, within one round more than its place in the path. The loop runs the
  -- handlers again on shorter and shorter locations, until none is left, and answers 404; the bytes
  -- of the body that have arrived stay in the input.
  pub run_handlers_partial_post :
      (fuel : ℕ) (s : Exchange)
      → s.request.path ≢ []
      → s.request.location_end_pos < fuel
      → IsPartial s
      → (t : Exchange) × (run_handlers fuel (chain fs conn) s ≡ some (answered t))
        × (t.response.status_code ≡ pos 404)
        × (t.input ≡ s.input)
  run_handlers_partial_post zero s p h w = elim h [ ]
  run_handlers_partial_post (suc fuel) s p h w = elim (partial_access s s.request.path p w) [
    | inl (t, e, (code, input)) ↦ (t, round_done fs conn fuel s t (first ∙ e), code, input)
    | inr (place, e, low) ↦
        let (t, run, code, input) =
          run_handlers_partial_post fuel (moved s place) p (omega arith)
            (moved-IsPartial s place w) in
        (t, round_again fs conn fuel s (moved s place) (first ∙ e) ∙ run, code, input)
  ]
    where
      first : chain fs conn s ≡ access_path (served fs conn) s s.request.path
      first = chain_access fs conn s ∙ unfold handle_access in refl
