-- ===== src/Poller/Changes.antt =====
-- Updates and removals of channels in net/poller/PollPoller.cc keep the indices right.
use cu_ber.Prelude.{
  ℕ, ◌<◌, ◌≡◌, ◌⊎◌, inl, inr, refl, sym, ap, ◌∙◌, arith, Bool, true, false, Option, none, some,
  ◌==◌, if◌then◌else◌, length, get_elem?, Bool-cases, pos, negsuc, same_or_not, same_value, set_at,
  get_lt, get-set_at, get-set_at_other,
}
use cu_ber.Poller.{PollFd, Poller, owner, update_at, update_channel}
use cu_ber.Poller.Indices.{IsConsistent, added-IsConsistent}

-- An entry that stays with its channel.
kept-IsConsistent :
    (fd i : ℕ) (y : PollFd) (p : Poller)
    → IsConsistent p
    → p.channels fd ≡ true
    → p.index fd ≡ some i
    → owner y.fd ≡ fd
    → IsConsistent (record p { pollfds = set_at i y p.pollfds })
kept-IsConsistent fd i y p w on at who = record { slots = slots'; owned = owned' }
  where
    low : i < length p.pollfds
    low =
        let (j, x, e, there, o) = w.owned fd on in
        inside (get_lt p.pollfds j there) (same_value e at)
      where
        inside : {j : ℕ} → j < length p.pollfds → j ≡ i → i < length p.pollfds
        inside h e = omega (arith, h, e)

    slots' :
        (j : ℕ) (x : PollFd)
        → get_elem? (set_at i y p.pollfds) j ≡ some x
        → (p.channels (owner x.fd) ≡ true) × (p.index (owner x.fd) ≡ some j)
    slots' j x e = elim (same_or_not i j) [
      | inl s ↦
          let it : y ≡ x =
            same_value (get-set_at i y p.pollfds low)
              (ap (get_elem? (set_at i y p.pollfds)) s ∙ e) in
          let who' : owner x.fd ≡ fd = sym (ap (λ (z : PollFd). owner z.fd) it) ∙ who in
          (ap p.channels who' ∙ on, ap p.index who' ∙ at ∙ ap some s)
      | inr n ↦ w.slots j x (sym (get-set_at_other i j y p.pollfds n) ∙ e)
    ]

    owned' :
        (f : ℕ)
        → p.channels f ≡ true
        → (j : ℕ) × (x : PollFd) × (p.index f ≡ some j)
          × (get_elem? (set_at i y p.pollfds) j ≡ some x)
          × (owner x.fd ≡ f)
    owned' f c = elim (same_or_not f fd) [
      | inl s ↦ (i, y, ap p.index s ∙ at, get-set_at i y p.pollfds low, who ∙ sym s)
      | inr n ↦
          let (j, x, e, there, o) = w.owned f c in
          (
            j,
            x,
            e,
            get-set_at_other i j y p.pollfds (λ s. n (sym o ∙ owner_at j x there s)) ∙ there,
            o,
          )
    ]
      where
        owner_at : (j : ℕ) (x : PollFd) → get_elem? p.pollfds j ≡ some x → i ≡ j → owner x.fd ≡ fd
        owner_at j x there s =
            let (k, z, e, at_k, o) = w.owned fd on in
            let same : z ≡ x =
              same_value at_k (ap (get_elem? p.pollfds) (same_value e at ∙ s) ∙ there) in
            sym (ap (λ (v : PollFd). owner v.fd) same) ∙ o

pub update_channel-IsConsistent :
    (fd events : ℕ) (p : Poller)
    → IsConsistent p
    → (p.channels fd ≡ true) ⊎ (p.index fd ≡ none)
    → IsConsistent (update_channel fd events p)
unfolding update_channel update_at
update_channel-IsConsistent fd events p w known = go (p.index fd) refl
  where
    new : p.index fd ≡ none → p.channels fd ≡ false
    new e = elim (Bool-cases (p.channels fd)) [
      | inl on ↦ let (j, x, k, there, o) = w.owned fd on in cc
      | inr off ↦ off
    ]

    entry : Bool → PollFd
    entry t = record { fd = if t then negsuc fd else pos fd; events = events }

    entry_owner : (t : Bool) → owner (if t then negsuc fd else pos fd) ≡ fd
    entry_owner true = refl
    entry_owner false = refl

    go : (o : Option ℕ) → p.index fd ≡ o → IsConsistent (update_at fd events o p)
    go none e = added-IsConsistent fd events p w (new e)
    go (some i) e = elim known [
      | inl on ↦ kept-IsConsistent fd i (entry (events == 0)) p w on e (entry_owner (events == 0))
      | inr off ↦ cc
    ]
