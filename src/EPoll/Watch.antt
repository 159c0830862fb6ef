-- ===== src/EPoll/Watch.antt =====
-- The calls that channels make of net/poller/EPollPoller.cc, and the map that they stand for.
use cu_ber.Prelude.{
  ℕ, ◌≡◌, Bool, true, false, Option, none, some, List, [], ◌∷◌, if◌then◌else◌, put,
}
use cu_ber.EPoll.{
  Epoll, Events, no_events, is_none_event, bits, Index, new_index, added_index, deleted_index,
  EPollPoller, remove_channel, new_channel, enable_reading, disable_reading, enable_writing,
  disable_writing, disable_all, poll,
}

-- The calls of the channels, and the return of a poll.
pub data Call : Type 0 where
  makes removes : ℕ → Call
  reads_on reads_off writes_on writes_off all_off : ℕ → Call
  polls : List (ℕ × ℕ) → Call

-- The events that each channel wants, and those that are watched.
pub record Watch : Type 0 where
  pub wants : ℕ → Events
  pub watched : ℕ → Option ℕ

abbrev pub nothing : Watch
nothing = record { wants = λ fd. no_events; watched = λ fd. none }

-- A channel that is not watched is watched with what it wants, be it nothing; one that is watched and
-- wants nothing more is not watched any longer.
abbrev pub watch : Option ℕ → Events → Option ℕ
watch none ev = some (bits ev)
watch (some old) ev = if is_none_event ev then none else some (bits ev)

abbrev pub changed : ℕ → Events → Watch → Watch
changed fd ev w = record {
  wants = put fd ev w.wants;
  watched = put fd (watch (w.watched fd) ev) w.watched;
}

abbrev pub watched_after : Call → Watch → Watch
watched_after (makes fd) w = record w { wants = put fd no_events w.wants }
watched_after (removes fd) w = record w { watched = put fd none w.watched }
watched_after (reads_on fd) w = changed fd (record (w.wants fd) { reading = true }) w
watched_after (reads_off fd) w = changed fd (record (w.wants fd) { reading = false }) w
watched_after (writes_on fd) w = changed fd (record (w.wants fd) { writing = true }) w
watched_after (writes_off fd) w = changed fd (record (w.wants fd) { writing = false }) w
watched_after (all_off fd) w = changed fd no_events w
watched_after (polls ready) w = w

unfoldable pub all_watched : List Call → Watch → Watch
all_watched [] w = w
all_watched (c ∷ cs) w = all_watched cs (watched_after c w)

abbrev pub is_added : Index → Bool
is_added new_index = false
is_added added_index = true
is_added deleted_index = false

abbrev pub is_known : Index → Bool
is_known new_index = false
is_known added_index = true
is_known deleted_index = true

abbrev pub is_some : Option ℕ → Bool
is_some none = false
is_some (some x) = true

module _ (e : Epoll) where
  abbrev pub call : Call → EPollPoller e → EPollPoller e
  call (makes fd) p = new_channel e fd p
  call (removes fd) p = remove_channel e fd p
  call (reads_on fd) p = enable_reading e fd p
  call (reads_off fd) p = disable_reading e fd p
  call (writes_on fd) p = enable_writing e fd p
  call (writes_off fd) p = disable_writing e fd p
  call (all_off fd) p = disable_all e fd p
  call (polls ready) p = poll e ready p

  unfoldable pub run_calls : List Call → EPollPoller e → EPollPoller e
  run_calls [] p = p
  run_calls (c ∷ cs) p = run_calls cs (call c p)

  -- A descriptor has one channel at a time; the `assert`s of `Channel::remove` and `removeChannel`.
  abbrev pub CanCall : Call → EPollPoller e → Type 0
  CanCall (makes fd) p = p.channels fd ≡ false
  CanCall (removes fd) p = (p.channels fd ≡ true) × (is_none_event (p.events fd) ≡ true)
  CanCall _ p = Unit {0}

  abbrev pub CanCallAll : List Call → EPollPoller e → Type 0
  CanCallAll [] p = Unit {0}
  CanCallAll (c ∷ cs) p = CanCall c p × CanCallAll cs (call c p)
