-- ===== src/Poller.antt =====
-- net/poller/PollPoller.h and PollPoller.cc, with net/Poller.h: the array that poll(2) gets, and the
-- indices into it that the channels keep.
pub mod Indices
pub mod Changes
pub mod Removal
pub mod Reached
mod Tests
use cu_ber.Prelude.{
  ℕ, zero, suc, ◌+◌, ◌-◌, Bool, true, false, Option, none, some, List, [], ◌∷◌, ◌++◌, ◌==◌,
  if◌then◌else◌, length, take, get_elem?, ℤ, pos, negsuc, put, put_same, put_other, same_or_not,
  same_value, set_at, get_lt, get_some, length-set_at, get-set_at, get-set_at_other, get-take,
  get-take-none, get-append_front, get-append_last,
}

-- `struct pollfd`. The descriptor `-fd - 1` of a channel that wants no events is `negsuc fd`.
pub record PollFd : Type 0 where
  pub fd : ℤ
  pub events : ℕ

-- `pollfds_`, which descriptors are in `channels_`, and the `index_` of the channel of a descriptor,
-- where `none` is -1.
pub record Poller : Type 0 where
  pub pollfds : List PollFd
  pub channels : ℕ → Bool
  pub index : ℕ → Option ℕ

abbrev pub new_poller : Poller
new_poller = record { pollfds = []; channels = λ fd. false; index = λ fd. none }

-- The channel that an entry belongs to: `channelAtEnd`.
abbrev pub owner : ℤ → ℕ
owner (pos fd) = fd
owner (negsuc fd) = fd

-- A channel object that is made for a descriptor has the index -1.
pub new_channel : ℕ → Poller → Poller
new_channel fd p = record p { index = put fd none p.index }

pub update_at : ℕ → ℕ → Option ℕ → Poller → Poller
update_at fd events none p = record {
  pollfds = p.pollfds ++ record { fd = pos fd; events = events } ∷ [];
  channels = put fd true p.channels;
  index = put fd (some (length p.pollfds)) p.index;
}
update_at fd events (some i) p = record p {
  pollfds =
      set_at i (record { fd = if events == 0 then negsuc fd else pos fd; events = events })
        p.pollfds;
}

-- `updateChannel`
pub update_channel : ℕ → ℕ → Poller → Poller
unfolding update_at
update_channel fd events p = update_at fd events (p.index fd) p

-- `iter_swap` with the last element, and `pop_back`.
pub swap_out : ℕ → PollFd → List PollFd → List PollFd
swap_out i at_end xs = take (length xs - 1) (set_at i at_end xs)

pub remove_at : ℕ → ℕ → Option PollFd → Poller → Poller
unfolding swap_out
remove_at fd i none p = record p { channels = put fd false p.channels }
remove_at fd i (some at_end) p =
    if i == length p.pollfds - 1
    then record p {
      pollfds = take (length p.pollfds - 1) p.pollfds;
      channels = put fd false p.channels;
    }
    else record {
      pollfds = swap_out i at_end p.pollfds;
      channels = put fd false p.channels;
      index = put (owner at_end.fd) (some i) p.index;
    }

pub remove_from : ℕ → Option ℕ → Poller → Poller
unfolding remove_at
remove_from fd none p = p
remove_from fd (some i) p = remove_at fd i (get_elem? p.pollfds (length p.pollfds - 1)) p

-- `removeChannel`, whose `assert`s exclude a channel without an index.
pub remove_channel : ℕ → Poller → Poller
unfolding remove_from
remove_channel fd p = remove_from fd (p.index fd) p
