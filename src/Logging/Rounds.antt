-- ===== src/Logging/Rounds.antt =====
-- Every step of base/AsyncLogging.cc keeps its pointers.
use cu_ber.Prelude.{
  ◌≤◌, ◌≡◌, refl, sym, ap, subst, arith, true, false, Option, none, some, List, [], ◌∷◌, length,
  Bool-cases, Option-cases, inl, inr, ◌⊎◌,
}
use cu_ber.Logging.{
  FixedBuffer, Phase, at_top, writing, AsyncLogging, started, is_empty, push_current, give_next,
  swap_buffers, lock_buffers, kept, refill, write_round, write_out,
}
use cu_ber.Logging.Steps.{
  Event, enters, locks, wakes, writes, stops, appends, step, CanHappen, Reachable, fresh, stepped,
}
use cu_ber.Logging.Pointers.{
  is_some, Round, IsSound, not_empty_last, two_last, append-IsSound, stop-IsSound,
  enter_round-IsSound,
}

module _ (l : AsyncLogging) (v : IsSound l) where
  abbrev Rests : Type 0
  Rests = Round at_top l.new_buffer1 l.new_buffer2 l.buffers_to_write

  swap_buffers-IsSound : Rests → IsSound (swap_buffers l)
  unfolding swap_buffers push_current give_next
  swap_buffers-IsSound r = elim (Option-cases l.current_buffer) [
    | inl none_there ↦ cc (ap is_some none_there, v.current)
    | inr (b, there) ↦ elim v.next [
      | inl none_next ↦
          rw (there, none_next, r.0, r.1, r.2)
            (record {
              current = refl;
              next = inr refl;
              full = λ h. cc h;
              round = (
                refl,
                not_empty_last b l.buffers,
                inr (refl, two_last b l.buffers (v.full none_next)),
              );
              fine = v.fine;
            })
      | inr some_next ↦
          rw (there, some_next, r.0, r.1, r.2)
            (record {
              current = refl;
              next = inr refl;
              full = λ h. cc h;
              round = (refl, not_empty_last b l.buffers, inl refl);
              fine = v.fine;
            })
    ]
  ]

  lock_buffers-IsSound : Rests → IsSound (lock_buffers l)
  unfolding lock_buffers
  lock_buffers-IsSound r = elim (Bool-cases (is_empty l.buffers)) [
    | inl empty ↦
        rw empty
          (record { current = v.current; next = v.next; full = v.full; round = r; fine = v.fine })
    | inr some_full ↦ rw some_full (swap_buffers-IsSound r)
  ]

  write_round-IsSound :
      (n : Option FixedBuffer) (bs : List FixedBuffer)
      → is_empty bs ≡ false
      → (n ≡ some []) ⊎ ((n ≡ none) × (2 ≤ length bs))
      → IsSound (write_round none n bs l)
  unfolding write_round refill kept
  write_round-IsSound n [] h two = cc h
  write_round-IsSound n (b ∷ []) h (inr (e, two)) = absurd (omega arith)
  write_round-IsSound n (b ∷ []) h (inl e) = rw e (record {
    current = v.current;
    next = v.next;
    full = v.full;
    round = (refl, refl, refl);
    fine = v.fine;
  })
  write_round-IsSound n (b ∷ c ∷ bs) h (inl e) = rw e (record {
    current = v.current;
    next = v.next;
    full = v.full;
    round = (refl, refl, refl);
    fine = v.fine;
  })
  write_round-IsSound n (b ∷ c ∷ bs) h (inr (e, two)) = rw e (record {
    current = v.current;
    next = v.next;
    full = v.full;
    round = (refl, refl, refl);
    fine = v.fine;
  })

  write_out-IsSound : l.phase ≡ writing → IsSound (write_out l)
  unfolding write_out
  write_out-IsSound e =
      subst (λ n. IsSound (write_round n l.new_buffer2 l.buffers_to_write l)) (sym r.0)
        (write_round-IsSound l.new_buffer2 l.buffers_to_write r.1 r.2)
    where
      r : Round writing l.new_buffer1 l.new_buffer2 l.buffers_to_write
      r = subst (λ p. Round p l.new_buffer1 l.new_buffer2 l.buffers_to_write) e v.round

  pub rests_lem : {p : Phase} → l.phase ≡ p → Round p l.new_buffer1 l.new_buffer2 l.buffers_to_write
  rests_lem e = subst (λ p. Round p l.new_buffer1 l.new_buffer2 l.buffers_to_write) e v.round

  step-IsSound : (e : Event) → CanHappen e l → IsSound (step e l)
  step-IsSound enters m = enter_round-IsSound l m v
  step-IsSound locks m = lock_buffers-IsSound (rests_lem m)
  step-IsSound wakes m = swap_buffers-IsSound (rests_lem m)
  step-IsSound writes m = write_out-IsSound m
  step-IsSound stops m = stop-IsSound l v
  step-IsSound (appends line) m = append-IsSound line l v

started-IsSound : IsSound started
started-IsSound = record {
  current = refl;
  next = inr refl;
  full = λ h. cc h;
  round = (refl, refl, refl);
  fine = refl;
}

pub reachable-IsSound : {l : AsyncLogging} → Reachable l → IsSound l
reachable-IsSound fresh = started-IsSound
reachable-IsSound (stepped {l} e r m) = step-IsSound l (reachable-IsSound r) e m

-- However the threads and the calls of `append` and `stop` interleave, the current buffer is never
-- null, no assert of `threadFunc` fails, and no null pointer to a buffer is used;
-- outside of a round the two spare buffers are there and empty, and nothing is left to write.
pub asserts_hold :
    (l : AsyncLogging)
    → Reachable l
    → (l.faulty ≡ false)
      × (is_some l.current_buffer ≡ true)
      × Round l.phase l.new_buffer1 l.new_buffer2 l.buffers_to_write
asserts_hold l r = let v = reachable-IsSound r in (v.fine, v.current, v.round)
