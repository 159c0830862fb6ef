-- ===== src/Poller/Reached.antt =====
-- The pollers of net/poller/PollPoller.cc that can come about.
use cu_ber.Prelude.{ℕ, ◌≡◌, ◌⊎◌, true, false, none}
use cu_ber.Poller.{Poller, new_poller, new_channel, update_channel, remove_channel}
use cu_ber.Poller.Indices.{IsConsistent, new_channel-IsConsistent}
use cu_ber.Poller.Changes.{update_channel-IsConsistent}
use cu_ber.Poller.Removal.{remove_channel-IsConsistent}

-- A channel object is made for a descriptor, a channel is updated, a channel is removed.
pub data Event : Type 0 where
  makes removes : ℕ → Event
  updates : ℕ → ℕ → Event

abbrev pub step : Event → Poller → Poller
step (makes fd) p = new_channel fd p
step (removes fd) p = remove_channel fd p
step (updates fd events) p = update_channel fd events p

-- The `assert`s: a channel with an index is in the map, and a channel is removed that is there.
abbrev pub CanHappen : Event → Poller → Type 0
CanHappen (makes fd) p = p.channels fd ≡ false
CanHappen (removes fd) p = p.channels fd ≡ true
CanHappen (updates fd events) p = (p.channels fd ≡ true) ⊎ (p.index fd ≡ none)

pub data Reachable : Poller → Type 0 where
  fresh : Reachable new_poller
  stepped : {p : Poller} (e : Event) → Reachable p → CanHappen e p → Reachable (step e p)

step-IsConsistent :
    (e : Event) (p : Poller) → IsConsistent p → CanHappen e p → IsConsistent (step e p)
step-IsConsistent (makes fd) p w m = new_channel-IsConsistent fd p w m
step-IsConsistent (removes fd) p w m = remove_channel-IsConsistent fd p w m
step-IsConsistent (updates fd events) p w m = update_channel-IsConsistent fd events p w m

-- In every order of updates and removals that the `assert`s allow, each entry of the array belongs to a
-- channel in the map that keeps the entry's index, and each channel in the map has an entry of its own
-- at its index: the move of the last entry into the place of a removed one leaves no index astray.
pub reachable-IsConsistent : {p : Poller} → Reachable p → IsConsistent p
reachable-IsConsistent fresh = record { slots = λ i x e. cc; owned = λ fd e. cc }
reachable-IsConsistent (stepped {p} e r m) = step-IsConsistent e p (reachable-IsConsistent r) m
