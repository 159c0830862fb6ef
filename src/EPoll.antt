-- ===== src/EPoll.antt =====
-- net/poller/EPollPoller.h and EPollPoller.cc, with the events of net/Channel.h: the channels of a
-- loop, and the set of descriptors that the kernel watches for it.
pub mod Watch
pub mod Updates
pub mod Watching
mod Tests
use cu_ber.Prelude.{
  ℕ, suc, ◌+◌, ◌*◌, ◌≡◌, Bool, true, false, not, ◌&&◌, Option, none, some, List, [], ◌∷◌, ◌==◌,
  if◌then◌else◌, length, put,
}

pub data Operation : Type 0 where
  ctl_add ctl_mod ctl_del : Operation

-- What the code relies on of epoll(7): an instance keeps a set of descriptors with their events;
-- `epoll_ctl` adds one that is not in it, and changes or deletes one that is. `none` is -1.
pub record Epoll : Type 1 where
  pub Kernel : Type 0
  pub created : Kernel
  pub interest : Kernel → ℕ → Option ℕ
  pub ctl : Operation → ℕ → ℕ → Kernel → Option Kernel
  pub created_lem : (fd : ℕ) → interest created fd ≡ none
  pub add_lem :
      (fd events : ℕ) (k : Kernel)
      → interest k fd ≡ none
      → (k' : Kernel) × (ctl ctl_add fd events k ≡ some k')
        × ((j : ℕ) → interest k' j ≡ put fd (some events) (interest k) j)
  pub mod_lem :
      (fd events old : ℕ) (k : Kernel)
      → interest k fd ≡ some old
      → (k' : Kernel) × (ctl ctl_mod fd events k ≡ some k')
        × ((j : ℕ) → interest k' j ≡ put fd (some events) (interest k) j)
  pub del_lem :
      (fd events old : ℕ) (k : Kernel)
      → interest k fd ≡ some old
      → (k' : Kernel) × (ctl ctl_del fd events k ≡ some k')
        × ((j : ℕ) → interest k' j ≡ put fd none (interest k) j)

-- `events_` of a channel: `kReadEvent` and `kWriteEvent` are set and cleared as a whole.
pub record Events : Type 0 where
  pub reading : Bool
  pub writing : Bool

abbrev pub no_events : Events
no_events = record { reading = false; writing = false }

abbrev pub is_none_event : Events → Bool
is_none_event e = not e.reading && not e.writing

-- `POLLIN | POLLPRI` and `POLLOUT`
abbrev pub bits : Events → ℕ
bits e = (if e.reading then 3 else 0) + (if e.writing then 4 else 0)

-- `kNew`, `kAdded` and `kDeleted`
pub data Index : Type 0 where
  new_index added_index deleted_index : Index

module _ (e : Epoll) where
  open e use {Kernel, created, ctl}

  -- Which descriptors are in `channels_`, the fields of the channel of each descriptor, the length
  -- of `events_`, the aborts of `LOG_SYSFATAL` and the complaints of `LOG_SYSERR`.
  pub record EPollPoller : Type 0 where
    pub kernel : Kernel
    pub channels : ℕ → Bool
    pub index : ℕ → Index
    pub events : ℕ → Events
    pub revents : ℕ → ℕ
    pub room : ℕ
    pub aborted : Bool
    pub complaints : ℕ

  abbrev pub init_event_list_size : ℕ
  init_event_list_size = 16

  abbrev pub new_poller : EPollPoller
  new_poller = record {
    kernel = created;
    channels = λ fd. false;
    index = λ fd. new_index;
    events = λ fd. no_events;
    revents = λ fd. 0;
    room = init_event_list_size;
    aborted = false;
    complaints = 0;
  }

  abbrev pub refused : Operation → EPollPoller → EPollPoller
  refused ctl_add p = record p { aborted = true }
  refused ctl_mod p = record p { aborted = true }
  refused ctl_del p = record p { complaints = suc p.complaints }

  abbrev pub answered : Operation → Option Kernel → EPollPoller → EPollPoller
  answered op none p = refused op p
  answered op (some k) p = record p { kernel = k }

  -- `update`
  pub update : Operation → ℕ → EPollPoller → EPollPoller
  update op fd p = answered op (ctl op fd (bits (p.events fd)) p.kernel) p

  pub update_at : Index → ℕ → EPollPoller → EPollPoller
  update_at new_index fd p =
      update ctl_add fd
        (record p { channels = put fd true p.channels; index = put fd added_index p.index })
  update_at deleted_index fd p = update ctl_add fd (record p { index = put fd added_index p.index })
  update_at added_index fd p =
      if is_none_event (p.events fd)
      then record (update ctl_del fd p) { index = put fd deleted_index (update ctl_del fd p).index }
      else update ctl_mod fd p

  -- `updateChannel`
  pub update_channel : ℕ → EPollPoller → EPollPoller
  unfolding update_at update
  update_channel fd p = update_at (p.index fd) fd p

  abbrev pub erase : ℕ → EPollPoller → EPollPoller
  erase fd p = record p { channels = put fd false p.channels }

  pub remove_at : Index → ℕ → EPollPoller → EPollPoller
  remove_at added_index fd p =
      let p' = update ctl_del fd (erase fd p) in record p' { index = put fd new_index p'.index }
  remove_at _ fd p = record (erase fd p) { index = put fd new_index p.index }

  -- `removeChannel`
  pub remove_channel : ℕ → EPollPoller → EPollPoller
  unfolding remove_at update
  remove_channel fd p = remove_at (p.index fd) fd p

  -- A new channel object.
  pub new_channel : ℕ → EPollPoller → EPollPoller
  new_channel fd p = record p {
    index = put fd new_index p.index;
    events = put fd no_events p.events;
    revents = put fd 0 p.revents;
  }

  abbrev pub set_events : ℕ → Events → EPollPoller → EPollPoller
  set_events fd ev p = record p { events = put fd ev p.events }

  pub enable_reading : ℕ → EPollPoller → EPollPoller
  unfolding update_channel
  enable_reading fd p =
      update_channel fd (set_events fd (record (p.events fd) { reading = true }) p)

  pub disable_reading : ℕ → EPollPoller → EPollPoller
  unfolding update_channel
  disable_reading fd p =
      update_channel fd (set_events fd (record (p.events fd) { reading = false }) p)

  pub enable_writing : ℕ → EPollPoller → EPollPoller
  unfolding update_channel
  enable_writing fd p =
      update_channel fd (set_events fd (record (p.events fd) { writing = true }) p)

  pub disable_writing : ℕ → EPollPoller → EPollPoller
  unfolding update_channel
  disable_writing fd p =
      update_channel fd (set_events fd (record (p.events fd) { writing = false }) p)

  pub disable_all : ℕ → EPollPoller → EPollPoller
  unfolding update_channel
  disable_all fd p = update_channel fd (set_events fd no_events p)

  -- `fillActiveChannels`: the descriptors that are ready, with their events.
  pub fill_active_channels : List (ℕ × ℕ) → EPollPoller → EPollPoller
  fill_active_channels [] p = p
  fill_active_channels ((fd, revents) ∷ ready) p =
      fill_active_channels ready (record p { revents = put fd revents p.revents })

  -- `poll`: the room for the answers of `epoll_wait` doubles when it was used up.
  pub poll : List (ℕ × ℕ) → EPollPoller → EPollPoller
  unfolding fill_active_channels
  poll ready p =
      let p' = fill_active_channels ready p in
      if length ready == p.room then record p' { room = p.room * 2 } else p'
