-- ===== src/Poller/Removal.antt =====
-- `removeChannel` of net/poller/PollPoller.cc, which moves the last entry of the array to the place
-- that becomes free.
use cu_ber.Prelude.{
  ℕ, ◌-◌, ◌<◌, ◌≡◌, ◌≢◌, inl, inr, refl, sym, ap, ◌∙◌, arith, true, false, Option, none, some, List,
  ◌==◌, length, take, get_elem?, Bool-cases, dec_lt, put, put_same, put_other, same_or_not,
  same_value, set_at, get_lt, get_some, get-set_at, get-set_at_other, get-take, get-take-none,
}
use cu_ber.Poller.{PollFd, Poller, owner, swap_out, remove_at, remove_from, remove_channel}
use cu_ber.Poller.Indices.{IsConsistent, apart}

-- What stands in a shortened array stood in front of its end.
front_of :
    {A : Type 0} (n j : ℕ) (xs : List A) {x : A}
    → get_elem? (take n xs) j ≡ some x
    → (j < n) × (get_elem? xs j ≡ some x)
front_of n j xs {x} e = elim (dec_lt j n) [
  | yes h ↦ (h, sym (get-take n j xs h) ∙ e)
  | no h ↦ cc (get-take-none n j xs (omega arith), e)
]

module _ (fd i : ℕ) (p : Poller) (w : IsConsistent p) (on : p.channels fd ≡ true)
    (at : p.index fd ≡ some i) where
  abbrev last : ℕ
  last = length p.pollfds - 1

  low : i < length p.pollfds
  low =
      let (j, x, e, there, o) = w.owned fd on in inside (get_lt p.pollfds j there) (same_value e at)
    where
      inside : {j : ℕ} → j < length p.pollfds → j ≡ i → i < length p.pollfds
      inside h e = omega (arith, h, e)

  -- The entry at the index belongs to the channel.
  owner_at : (j : ℕ) (x : PollFd) → get_elem? p.pollfds j ≡ some x → i ≡ j → owner x.fd ≡ fd
  owner_at j x there s =
      let (k, z, e, at_k, o) = w.owned fd on in
      let same : z ≡ x = same_value at_k (ap (get_elem? p.pollfds) (same_value e at ∙ s) ∙ there) in
      sym (ap (λ (v : PollFd). owner v.fd) same) ∙ o

  not_gone : (f : ℕ) → put fd false p.channels f ≡ true → (f ≢ fd) × (p.channels f ≡ true)
  not_gone f c = elim (same_or_not f fd) [
    | inl s ↦ cc (put_same fd false p.channels f s, c)
    | inr n ↦ (n, sym (put_other fd false p.channels f n) ∙ c)
  ]

  -- The channel of the last entry.
  popped-IsConsistent :
      i ≡ last
      → IsConsistent
          (record p { pollfds = take last p.pollfds; channels = put fd false p.channels })
  popped-IsConsistent end = record {
    slots = λ j x e.
        let (h, there) = front_of last j p.pollfds e in
        let (c, k) = w.slots j x there in
        (
          put_other fd false p.channels (owner x.fd) (apart p fd x w there at (not_last j h)) ∙ c,
          k,
        );
    owned = λ f c.
        let (n, c') = not_gone f c in
        let (j, x, e, there, o) = w.owned f c' in
        (
          j,
          x,
          e,
          get-take last j p.pollfds
                (below j (get_lt p.pollfds j there) (λ s. n (sym o ∙ owner_at j x there s)))
              ∙ there,
          o,
        );
  }
    where
      not_last : (j : ℕ) → j < last → i ≢ j
      not_last j h s = absurd (omega (arith, h, s, end))

      below : (j : ℕ) → j < length p.pollfds → i ≢ j → j < last
      below j h n = ground (arith, h, n, end)

  -- The channel of another entry, which the last one replaces.
  module _ (a : PollFd) (at_last : get_elem? p.pollfds last ≡ some a) (inner : i ≢ last) where
    below_last : i < last
    below_last = ground (arith, low, inner)

    abbrev swapped : List PollFd
    swapped = take last (set_at i a p.pollfds)

    get-swapped : get_elem? swapped i ≡ some a
    get-swapped = get-take last i (set_at i a p.pollfds) below_last ∙ get-set_at i a p.pollfds low

    get-swapped_other : (j : ℕ) → j < last → i ≢ j → get_elem? swapped j ≡ get_elem? p.pollfds j
    get-swapped_other j h n =
        get-take last j (set_at i a p.pollfds) h ∙ get-set_at_other i j a p.pollfds n

    a_stays : owner a.fd ≢ fd
    a_stays = apart p fd a w at_last at inner

    swapped-slots :
        (j : ℕ) (x : PollFd)
        → get_elem? swapped j ≡ some x
        → (put fd false p.channels (owner x.fd) ≡ true)
          × (put (owner a.fd) (some i) p.index (owner x.fd) ≡ some j)
    swapped-slots j x e =
        let (h, _) = front_of last j (set_at i a p.pollfds) e in
        elim (same_or_not i j) [
          | inl s ↦
              let it : a ≡ x = same_value get-swapped (ap (get_elem? swapped) s ∙ e) in
              let who : owner x.fd ≡ owner a.fd = sym (ap (λ (z : PollFd). owner z.fd) it) in
              (
                ap (put fd false p.channels) who
                    ∙ put_other fd false p.channels (owner a.fd) a_stays
                    ∙ (w.slots last a at_last).0,
                put_same (owner a.fd) (some i) p.index (owner x.fd) who ∙ ap some s,
              )
          | inr n ↦
              let there : get_elem? p.pollfds j ≡ some x = sym (get-swapped_other j h n) ∙ e in
              let (c, k) = w.slots j x there in
              (
                put_other fd false p.channels (owner x.fd) (apart p fd x w there at n) ∙ c,
                put_other (owner a.fd) (some i) p.index (owner x.fd) (
                      apart p (owner a.fd) x w there (w.slots last a at_last).1
                        (λ s. absurd (omega (arith, h, s))))
                    ∙ k,
              )
        ]

    swapped-owned :
        (f : ℕ)
        → put fd false p.channels f ≡ true
        → (j : ℕ) × (x : PollFd) × (put (owner a.fd) (some i) p.index f ≡ some j)
          × (get_elem? swapped j ≡ some x)
          × (owner x.fd ≡ f)
    swapped-owned f c =
        let (n, c') = not_gone f c in
        elim (same_or_not f (owner a.fd)) [
          | inl s ↦ (i, a, put_same (owner a.fd) (some i) p.index f s, get-swapped, sym s)
          | inr m ↦
              let (j, x, e, there, o) = w.owned f c' in
              (
                j,
                x,
                put_other (owner a.fd) (some i) p.index f m ∙ e,
                get-swapped_other j (before j x there o m) (λ s. n (sym o ∙ owner_at j x there s))
                    ∙ there,
                o,
              )
        ]
      where
        before :
            (j : ℕ) (x : PollFd)
            → get_elem? p.pollfds j ≡ some x
            → owner x.fd ≡ f
            → f ≢ owner a.fd
            → j < last
        before j x there o m = elim (same_or_not j last) [
          | inl s ↦
              let it : x ≡ a = same_value there (ap (get_elem? p.pollfds) s ∙ at_last) in
              absurd (m (sym o ∙ ap (λ (z : PollFd). owner z.fd) it))
          | inr n ↦ ground (arith, get_lt p.pollfds j there, n)
        ]

pub remove_channel-IsConsistent :
    (fd : ℕ) (p : Poller)
    → IsConsistent p
    → p.channels fd ≡ true
    → IsConsistent (remove_channel fd p)
unfolding remove_channel remove_from remove_at swap_out
remove_channel-IsConsistent fd p w on =
    let (i, x, at, there, o) = w.owned fd on in
    let (a, at_last) =
      get_some p.pollfds (length p.pollfds - 1) (omega (arith, get_lt p.pollfds i there)) in
    go i a at at_last (p.index fd) (get_elem? p.pollfds (length p.pollfds - 1)) refl refl
  where
    go :
        (i : ℕ) (a : PollFd)
        → p.index fd ≡ some i
        → get_elem? p.pollfds (length p.pollfds - 1) ≡ some a
        → (o : Option ℕ) (q : Option PollFd) → p.index fd ≡ o
        → get_elem? p.pollfds (length p.pollfds - 1) ≡ q
        → IsConsistent (remove_from fd o p)
    go i a at at_last none q e g = cc
    go i a at at_last (some k) q e g = elim (Bool-cases (k == length p.pollfds - 1)) [
      | inl end ↦ rw (at_last, end) (popped-IsConsistent fd k p w on e (ground (arith, end)))
      | inr inner ↦
          let n : k ≢ length p.pollfds - 1 = λ s. ground (arith, inner, s) in
          rw (at_last, inner)
            (record {
              slots = swapped-slots fd k p w on e a at_last n;
              owned = swapped-owned fd k p w on e a at_last n;
            })
    ]
