-- ===== src/Logging/Order.antt =====
-- The lines that are given to base/AsyncLogging.cc stay in order and none of them gets lost between the
-- buffers.
use cu_ber.Prelude.{
  ◌-◌, ◌≡◌, refl, ap, ◌∙◌, arith, Bool, true, false, not, Option, none, some, List, [], ◌∷◌, ◌++◌,
  length, Bytes, ltb, if◌then◌else◌, Bool-cases, Option-cases, inl, inr, ◌⊎◌, append_assoc,
  append-nil,
}
use cu_ber.Logging.{
  large_buffer, FixedBuffer, avail, append_bytes, AsyncLogging, next_or_new, append_to, append,
  stop, is_empty_buffer, is_empty, enter_round, push_current, give_next, swap_buffers, lock_buffers,
  write_pieces, kept, refill, write_round, write_out, check, check_refill,
}
use cu_ber.Logging.Steps.{
  Event, enters, locks, wakes, writes, stops, appends, step, CanHappen, Reachable, fresh, stepped,
}
use cu_ber.Logging.Texts.{texts, text, all_text, texts_last, all_text-append, all_text-write_pieces}
use cu_ber.Logging.Pointers.{is_some, IsSound}
use cu_ber.Logging.Rounds.{rests_lem, reachable-IsSound}

-- All the text that the object holds or has dealt with, in order.
abbrev pub whole : AsyncLogging → Bytes
whole l =
    all_text l.output ++ (texts l.buffers_to_write ++ (texts l.buffers ++ text l.current_buffer))

abbrev IsKept : AsyncLogging → Type 0
IsKept l = whole l ≡ l.given

-- What of a line is kept: all of it, unless it does not fit into an empty buffer.
abbrev what_fits : Bytes → Bytes
what_fits line = if ltb (length line) large_buffer then line else []

in_empty :
    (o : Option FixedBuffer) (line : Bytes)
    → (o ≡ none) ⊎ (o ≡ some [])
    → append_bytes large_buffer line (next_or_new o) ≡ what_fits line
unfolding append_bytes avail next_or_new
in_empty o line (inl e) = rw e refl
in_empty o line (inr e) = rw e refl

append_to-whole :
    (o : Option FixedBuffer) (line : Bytes) (l : AsyncLogging)
    → l.current_buffer ≡ o
    → IsSound l
    → whole (append_to o line l) ≡ whole l ++ what_fits line
unfolding append_to avail
append_to-whole none line l e v = cc (ap is_some e, v.current)
append_to-whole (some b) line l e v = elim (Bool-cases (ltb (length line) (avail large_buffer b))) [
  | inl fits ↦ rw (fits, e, short_lem fits) (simp append_assoc)
  | inr full ↦
      rw (full, e, in_empty l.next_buffer line v.next, texts_last l.buffers b) (simp append_assoc)
]
  where
    short_lem :
        ltb (length line) (large_buffer - length b) ≡ true → ltb (length line) large_buffer ≡ true
    short_lem h = ground (arith, h)

given-append_to :
    (o : Option FixedBuffer) (line : Bytes) (l : AsyncLogging)
    → (append_to o line l).given ≡ l.given
unfolding append_to
given-append_to none line l = refl
given-append_to (some b) line l = ground arith

append-IsKept : (line : Bytes) (l : AsyncLogging) → IsSound l → IsKept l → IsKept (append line l)
unfolding append
append-IsKept line l v k = elim (Bool-cases (ltb (length line) large_buffer)) [
  | inl short ↦ rw short (
      append_to-whole l.current_buffer line l refl v
      ∙ rw (short, k, given-append_to l.current_buffer line l) refl)
  | inr long ↦ rw long (
      append_to-whole l.current_buffer line l refl v
      ∙ rw (long, k, given-append_to l.current_buffer line l) (append-nil l.given))
]

-- An assert changes none of the text.
record IsSameText (l r : AsyncLogging) : Type 0 where
  same_output : r.output ≡ l.output
  same_to_write : r.buffers_to_write ≡ l.buffers_to_write
  same_buffers : r.buffers ≡ l.buffers
  same_current : r.current_buffer ≡ l.current_buffer
  same_given : r.given ≡ l.given

check-IsSameText : (c : Bool) {l r : AsyncLogging} → IsSameText l r → IsSameText l (check c r)
check-IsSameText true s = s
check-IsSameText false s = record {
  same_output = s.same_output;
  same_to_write = s.same_to_write;
  same_buffers = s.same_buffers;
  same_current = s.same_current;
  same_given = s.same_given;
}

check_refill-IsSameText :
    (o : Option FixedBuffer) (bs : List FixedBuffer) {l r : AsyncLogging}
    → IsSameText l r
    → IsSameText l (check_refill o bs r)
check_refill-IsSameText none bs s = check-IsSameText (not (is_empty bs)) s
check_refill-IsSameText (some b) bs s = s

module _ (l : AsyncLogging) where
  same : IsSameText l l
  same = record {
    same_output = refl;
    same_to_write = refl;
    same_buffers = refl;
    same_current = refl;
    same_given = refl;
  }

  IsSameText-IsKept : {r : AsyncLogging} → IsSameText l r → IsKept l → IsKept r
  IsSameText-IsKept s k =
      rw (s.same_output, s.same_to_write, s.same_buffers, s.same_current, s.same_given) k

  enter_round-IsKept : IsKept l → IsKept (enter_round l)
  unfolding enter_round
  enter_round-IsKept k = elim (Bool-cases l.running) [
    | inl on ↦ simp on (
        IsSameText-IsKept
          (check-IsSameText (is_empty_buffer l.new_buffer1) (
            check-IsSameText (is_empty_buffer l.new_buffer2)
              (check-IsSameText (is_empty l.buffers_to_write) same)))
          k)
    | inr off ↦ rw off k
  ]

  written_out :
      {r : AsyncLogging}
      → IsSameText l r
      → IsKept l
      → all_text (l.output ++ write_pieces l.buffers_to_write)
          ++ (texts r.buffers ++ text r.current_buffer)
        ≡ r.given
  written_out s k =
      rw
        (
          s.same_buffers,
          s.same_current,
          s.same_given,
          all_text-append l.output (write_pieces l.buffers_to_write),
          all_text-write_pieces l.buffers_to_write,
        )
        (simp append_assoc k)

  write_out-IsKept : IsKept l → IsKept (write_out l)
  unfolding write_out write_round texts
  write_out-IsKept k =
      written_out
        (check_refill-IsSameText l.new_buffer1 (kept l.buffers_to_write) (
          check_refill-IsSameText l.new_buffer2 (refill l.new_buffer1 (kept l.buffers_to_write)).1
            (check-IsSameText (not (is_empty l.buffers_to_write)) same)))
        k

  swapped :
      (b : FixedBuffer)
      → l.current_buffer ≡ some b
      → l.buffers_to_write ≡ []
      → IsKept l
      → all_text l.output ++ (texts (l.buffers ++ b ∷ []) ++ []) ≡ l.given
  unfolding texts
  swapped b there w k =
      ap (λ t. all_text l.output ++ t) (append-nil _ ∙ texts_last l.buffers b)
      ∙ (rw (w, there) at k)

  swap_buffers-IsKept :
      IsSound l
      → (l.new_buffer1 ≡ some []) × (l.new_buffer2 ≡ some []) × (l.buffers_to_write ≡ [])
      → IsKept l
      → IsKept (swap_buffers l)
  unfolding swap_buffers push_current give_next texts
  swap_buffers-IsKept v (n1, n2, w) k = elim (Option-cases l.current_buffer) [
    | inl none_there ↦ cc (ap is_some none_there, v.current)
    | inr (b, there) ↦ elim v.next [
      | inl none_next ↦ rw (there, none_next, w, n1) (swapped b there w k)
      | inr some_next ↦ rw (there, some_next, w, n1) (swapped b there w k)
    ]
  ]

  lock_buffers-IsKept :
      IsSound l
      → (l.new_buffer1 ≡ some []) × (l.new_buffer2 ≡ some []) × (l.buffers_to_write ≡ [])
      → IsKept l
      → IsKept (lock_buffers l)
  unfolding lock_buffers
  lock_buffers-IsKept v r k = elim (Bool-cases (is_empty l.buffers)) [
    | inl empty ↦ rw empty k
    | inr some_full ↦ rw some_full (swap_buffers-IsKept v r k)
  ]

  step-IsKept : (e : Event) → CanHappen e l → IsSound l → IsKept l → IsKept (step e l)
  unfolding stop
  step-IsKept enters m v k = enter_round-IsKept k
  step-IsKept locks m v k = lock_buffers-IsKept v (rests_lem l v m) k
  step-IsKept wakes m v k = swap_buffers-IsKept v (rests_lem l v m) k
  step-IsKept writes m v k = write_out-IsKept k
  step-IsKept stops m v k = k
  step-IsKept (appends line) m v k = append-IsKept line l v k

-- However the threads and the calls of `append` and `stop` interleave, what the thread has written
-- or, in a round with more than 25 buffers, dropped, followed by the buffers that it writes, those
-- that are full and the current one, is the text that was given in lines that fit into an empty
-- buffer, in order.
pub lines_in_order : (l : AsyncLogging) → Reachable l → whole l ≡ l.given
unfolding texts all_text
lines_in_order l fresh = refl
lines_in_order l (stepped {l = k} e r m) =
    step-IsKept k e m (reachable-IsSound r) (lines_in_order k r)
