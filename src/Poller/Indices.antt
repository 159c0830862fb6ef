-- ===== src/Poller/Indices.antt =====
-- The indices of the channels of net/poller/PollPoller.cc against its array.
use cu_ber.Prelude.{
  ℕ, ◌<◌, ◌≡◌, ◌≢◌, inl, inr, sym, ap, ◌∙◌, arith, true, false, none, some, [], ◌∷◌, ◌++◌, length,
  get_elem?, length-append, pos, put, put_same, put_other, same_or_not, same_value, get_lt,
  get-append_front, get-append_last,
}
use cu_ber.Poller.{PollFd, Poller, owner, new_channel, update_at}

-- Each entry of the array is that of a channel which keeps its index, and each channel has one.
pub record IsConsistent (p : Poller) : Type 0 where
  pub slots :
      (i : ℕ) (x : PollFd)
      → get_elem? p.pollfds i ≡ some x
      → (p.channels (owner x.fd) ≡ true) × (p.index (owner x.fd) ≡ some i)
  pub owned :
      (fd : ℕ)
      → p.channels fd ≡ true
      → (i : ℕ) × (x : PollFd) × (p.index fd ≡ some i)
        × (get_elem? p.pollfds i ≡ some x)
        × (owner x.fd ≡ fd)

-- Two channels do not share an entry.
pub apart :
    (p : Poller) (fd : ℕ) (x : PollFd) {i j : ℕ}
    → IsConsistent p
    → get_elem? p.pollfds j ≡ some x
    → p.index fd ≡ some i
    → i ≢ j
    → owner x.fd ≢ fd
apart p fd x {i} {j} w at e n same = n (same_value e (sym (ap p.index same) ∙ (w.slots j x at).1))

pub new_channel-IsConsistent :
    (fd : ℕ) (p : Poller) → IsConsistent p → p.channels fd ≡ false → IsConsistent (new_channel fd p)
unfolding new_channel
new_channel-IsConsistent fd p w off = record {
  slots = λ i x at.
      let (c, e) = w.slots i x at in
      (c, put_other fd none p.index (owner x.fd) (λ s. cc (ap p.channels s, c, off)) ∙ e);
  owned = λ f on.
      let (i, x, e, at, o) = w.owned f on in
      (i, x, put_other fd none p.index f (λ s. cc (ap p.channels s, on, off)) ∙ e, at, o);
}

-- A channel that is new goes to the end.
pub added-IsConsistent :
    (fd events : ℕ) (p : Poller)
    → IsConsistent p
    → p.channels fd ≡ false
    → IsConsistent (update_at fd events none p)
unfolding update_at
added-IsConsistent fd events p w off = record { slots = slots'; owned = owned' }
  where
    new : PollFd
    new = record { fd = pos fd; events = events }

    old_slot :
        (i : ℕ) (x : PollFd)
        → get_elem? p.pollfds i ≡ some x
        → (put fd true p.channels (owner x.fd) ≡ true)
          × (put fd (some (length p.pollfds)) p.index (owner x.fd) ≡ some i)
    old_slot i x at =
        let (c, e) = w.slots i x at in
        let other : owner x.fd ≢ fd = λ s. cc (ap p.channels s, c, off) in
        (
          put_other fd true p.channels (owner x.fd) other ∙ c,
          put_other fd (some (length p.pollfds)) p.index (owner x.fd) other ∙ e,
        )

    slots' :
        (i : ℕ) (x : PollFd)
        → get_elem? (p.pollfds ++ new ∷ []) i ≡ some x
        → (put fd true p.channels (owner x.fd) ≡ true)
          × (put fd (some (length p.pollfds)) p.index (owner x.fd) ≡ some i)
    slots' i x at = elim (same_or_not i (length p.pollfds)) [
      | inl last ↦
          let it : new ≡ x =
            same_value (get-append_last p.pollfds new)
              (sym (ap (get_elem? (p.pollfds ++ new ∷ [])) last) ∙ at) in
          let who : owner x.fd ≡ fd = sym (ap (λ (y : PollFd). owner y.fd) it) in
          (
            put_same fd true p.channels (owner x.fd) who,
            put_same fd (some (length p.pollfds)) p.index (owner x.fd) who ∙ ap some (sym last),
          )
      | inr front ↦
          let low : i < length p.pollfds = within i (get_lt (p.pollfds ++ new ∷ []) i at) front in
          old_slot i x (sym (get-append_front p.pollfds new i low) ∙ at)
    ]
      where
        within :
            (i : ℕ)
            → i < length (p.pollfds ++ new ∷ [])
            → i ≢ length p.pollfds
            → i < length p.pollfds
        within i h n = ground (arith, h, n, length-append p.pollfds (new ∷ []))

    owned' :
        (f : ℕ)
        → put fd true p.channels f ≡ true
        → (i : ℕ) × (x : PollFd) × (put fd (some (length p.pollfds)) p.index f ≡ some i)
          × (get_elem? (p.pollfds ++ new ∷ []) i ≡ some x)
          × (owner x.fd ≡ f)
    owned' f on = elim (same_or_not f fd) [
      | inl s ↦ (
        length p.pollfds,
        new,
        put_same fd (some (length p.pollfds)) p.index f s,
        get-append_last p.pollfds new,
        sym s,
      )
      | inr n ↦
          let (i, x, e, at, o) = w.owned f (sym (put_other fd true p.channels f n) ∙ on) in
          (
            i,
            x,
            put_other fd (some (length p.pollfds)) p.index f n ∙ e,
            get-append_front p.pollfds new i (get_lt p.pollfds i at) ∙ at,
            o,
          )
    ]
