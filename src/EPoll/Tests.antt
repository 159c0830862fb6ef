-- ===== src/EPoll/Tests.antt =====
-- Runs of net/poller/EPollPoller.cc on a kernel that is a map, and its theorem there.
use cu_ber.Prelude.{ℕ, ◌≡◌, refl, arith, false, Option, none, some, List, [], ◌∷◌, put}
use cu_ber.EPoll.{
  Epoll, Operation, ctl_add, ctl_mod, ctl_del, new_poller, update, update_at, update_channel,
  remove_channel, remove_at, new_channel, enable_reading, enable_writing, disable_all, poll,
  fill_active_channels,
}
use cu_ber.EPoll.Watch.{
  Call, makes, removes, reads_on, writes_on, all_off, polls, run_calls, all_watched, nothing,
  CanCallAll, is_known,
}
use cu_ber.EPoll.Watching.{run_calls-all_watched}

abbrev Interests : Type 0
Interests = ℕ → Option ℕ

abbrev on_free : ℕ → ℕ → Option ℕ → Interests → Option Interests
on_free fd events none k = some (put fd (some events) k)
on_free fd events (some old) k = none

abbrev on_used : ℕ → Option ℕ → Option ℕ → Interests → Option Interests
on_used fd after none k = none
on_used fd after (some old) k = some (put fd after k)

abbrev ctl : Operation → ℕ → ℕ → Interests → Option Interests
ctl ctl_add fd events k = on_free fd events (k fd) k
ctl ctl_mod fd events k = on_used fd (some events) (k fd) k
ctl ctl_del fd events k = on_used fd none (k fd) k

used :
    (fd old : ℕ) (after : Option ℕ) (k : Interests)
    → k fd ≡ some old
    → (k' : Interests) × (on_used fd after (k fd) k ≡ some k') × ((j : ℕ) → k' j ≡ put fd after k j)
used fd old after k e = (put fd after k, rw e, λ j. refl)

free :
    (fd events : ℕ) (k : Interests)
    → k fd ≡ none
    → (k' : Interests) × (on_free fd events (k fd) k ≡ some k')
      × ((j : ℕ) → k' j ≡ put fd (some events) k j)
free fd events k e = (put fd (some events) k, rw e, λ j. refl)

abbrev map_epoll : Epoll
map_epoll = record {
  Kernel = Interests;
  created = λ fd. none;
  interest = λ k fd. k fd;
  ctl = ctl;
  created_lem = λ fd. refl;
  add_lem = λ fd events k e. free fd events k e;
  mod_lem = λ fd events old k e. used fd old (some events) k e;
  del_lem = λ fd events old k e. used fd old none k e;
}

abbrev some_calls : List Call
some_calls =
    makes 5
    ∷ reads_on 5
    ∷ makes 7
    ∷ writes_on 7
    ∷ polls ((5, 1) ∷ [])
    ∷ writes_on 5
    ∷ all_off 7
    ∷ removes 7
    ∷ makes 7
    ∷ reads_on 7
    ∷ []

some_calls-CanCallAll : CanCallAll map_epoll some_calls (new_poller map_epoll)
unfolding new_channel enable_reading enable_writing disable_all update_channel update_at update
    remove_channel remove_at poll fill_active_channels
some_calls-CanCallAll = ground arith

watched_run : (all_watched some_calls nothing).watched 5 ≡ some 7
unfolding all_watched
watched_run = refl

-- A channel that wants nothing and is told so again is watched again, for no events.
all_off_twice :
    (all_watched (makes 5 ∷ reads_on 5 ∷ all_off 5 ∷ all_off 5 ∷ []) nothing).watched 5 ≡ some 0
unfolding all_watched
all_off_twice = refl

run_calls-all_watched_example :
    let p = run_calls map_epoll some_calls (new_poller map_epoll) in
    ((fd : ℕ) → p.kernel fd ≡ (all_watched some_calls nothing).watched fd)
    × ((fd : ℕ) → p.channels fd ≡ is_known (p.index fd))
    × (p.aborted ≡ false)
    × (p.complaints ≡ 0)
run_calls-all_watched_example = run_calls-all_watched map_epoll some_calls some_calls-CanCallAll
