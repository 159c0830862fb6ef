-- ===== src/Logging/Pointers.antt =====
-- No pointer to a buffer in base/AsyncLogging.cc is null where it is used, and no assert fails.
use cu_ber.Prelude.{
  ◌≤◌, ◌≡◌, refl, ap, subst, arith, Bool, true, false, Option, none, some, List, [], ◌∷◌, ◌++◌,
  length, Bytes, ltb, Bool-cases, inl, inr, ◌⊎◌,
}
use cu_ber.Logging.{
  large_buffer, FixedBuffer, avail, append_bytes, Phase, at_top, locking, waiting, writing, ended,
  AsyncLogging, next_or_new, append_to, append, stop, is_empty, enter_round,
}

abbrev pub is_some : Option FixedBuffer → Bool
is_some none = false
is_some (some b) = true

-- The buffers of the thread in and out of a round.
abbrev pub Round : Phase → Option FixedBuffer → Option FixedBuffer → List FixedBuffer → Type 0
Round writing n1 n2 bs =
    (n1 ≡ none) × (is_empty bs ≡ false) × ((n2 ≡ some []) ⊎ ((n2 ≡ none) × (2 ≤ length bs)))
Round at_top n1 n2 bs = (n1 ≡ some []) × (n2 ≡ some []) × (bs ≡ [])
Round locking n1 n2 bs = (n1 ≡ some []) × (n2 ≡ some []) × (bs ≡ [])
Round waiting n1 n2 bs = (n1 ≡ some []) × (n2 ≡ some []) × (bs ≡ [])
Round ended n1 n2 bs = (n1 ≡ some []) × (n2 ≡ some []) × (bs ≡ [])

-- The next buffer is empty, and it is only missing when a full buffer waits.
pub record IsSound (l : AsyncLogging) : Type 0 where
  pub current : is_some l.current_buffer ≡ true
  pub next : (l.next_buffer ≡ none) ⊎ (l.next_buffer ≡ some [])
  pub full : l.next_buffer ≡ none → is_empty l.buffers ≡ false
  pub round : Round l.phase l.new_buffer1 l.new_buffer2 l.buffers_to_write
  pub fine : l.faulty ≡ false

pub not_empty_last : (b : FixedBuffer) (bs : List FixedBuffer) → is_empty (bs ++ b ∷ []) ≡ false
not_empty_last b [] = refl
not_empty_last b (c ∷ bs) = refl

pub two_last :
    (b : FixedBuffer) (bs : List FixedBuffer) → is_empty bs ≡ false → 2 ≤ length (bs ++ b ∷ [])
two_last b [] h = cc
two_last b (c ∷ []) h = omega arith
two_last b (c ∷ d ∷ bs) h = omega arith

append_to-IsSound :
    (o : Option FixedBuffer) (line : Bytes) (l : AsyncLogging)
    → l.current_buffer ≡ o
    → IsSound l
    → IsSound (append_to o line l)
unfolding append_to avail append_bytes next_or_new
append_to-IsSound none line l e v = cc (ap is_some e, v.current)
append_to-IsSound (some b) line l e v =
    elim (Bool-cases (ltb (length line) (avail large_buffer b))) [
      | inl fits ↦
          rw fits (record {
            current = refl;
            next = v.next;
            full = v.full;
            round = v.round;
            fine = v.fine;
          })
      | inr full ↦ rw full (record {
        current = refl;
        next = inl refl;
        full = λ h. not_empty_last b l.buffers;
        round = v.round;
        fine = v.fine;
      })
    ]

pub append-IsSound : (line : Bytes) (l : AsyncLogging) → IsSound l → IsSound (append line l)
unfolding append
append-IsSound line l v = elim (Bool-cases (ltb (length line) large_buffer)) [
  | inl short ↦
      let w = append_to-IsSound l.current_buffer line l refl v in
      rw short (record {
        current = w.current;
        next = w.next;
        full = w.full;
        round = w.round;
        fine = w.fine;
      })
  | inr long ↦ rw long (append_to-IsSound l.current_buffer line l refl v)
]

pub stop-IsSound : (l : AsyncLogging) → IsSound l → IsSound (stop l)
unfolding stop
stop-IsSound l v = record {
  current = v.current;
  next = v.next;
  full = v.full;
  round = v.round;
  fine = v.fine;
}

pub enter_round-IsSound :
    (l : AsyncLogging) → l.phase ≡ at_top → IsSound l → IsSound (enter_round l)
unfolding enter_round
enter_round-IsSound l e v = elim (Bool-cases l.running) [
  | inl on ↦
      rw (on, r.0, r.1, r.2)
        (record {
          current = v.current;
          next = v.next;
          full = v.full;
          round = (refl, refl, refl);
          fine = v.fine;
        })
  | inr off ↦
      rw off
        (record { current = v.current; next = v.next; full = v.full; round = r; fine = v.fine })
]
  where
    r : Round at_top l.new_buffer1 l.new_buffer2 l.buffers_to_write
    r = subst (λ p. Round p l.new_buffer1 l.new_buffer2 l.buffers_to_write) e v.round
