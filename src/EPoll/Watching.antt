-- ===== src/EPoll/Watching.antt =====
-- What net/poller/EPollPoller.cc promises to the channels: the kernel watches the descriptors that
-- a simple map says, and no call of `epoll_ctl` is refused.
use cu_ber.Prelude.{ℕ, ◌≡◌, refl, subst, true, false, List, [], ◌∷◌}
use cu_ber.EPoll.{
  Epoll, Events, no_events, EPollPoller, new_poller, update_channel, set_events, enable_reading,
  disable_reading, enable_writing, disable_writing, disable_all,
}
use cu_ber.EPoll.Watch.{
  Call, makes, removes, reads_on, reads_off, writes_on, writes_off, all_off, polls, Watch, nothing,
  changed, watched_after, all_watched, is_known, call, run_calls, CanCall, CanCallAll,
}
use cu_ber.EPoll.Updates.{
  Agrees, new_channel-Agrees, remove_channel-Agrees, update_channel-Agrees, poll-Agrees,
}

module _ (e : Epoll) where
  -- A change of what a channel wants, from what it wanted.
  altered-Agrees :
      (fd : ℕ) (alter : Events → Events) {p : EPollPoller e} {w : Watch}
      → Agrees e p w
      → Agrees e
          (update_channel e fd (set_events e fd (alter (p.events fd)) p))
          (changed fd (alter (w.wants fd)) w)
  altered-Agrees fd alter {p} {w} v =
      subst
        (λ ev.
          Agrees e (update_channel e fd (set_events e fd (alter (p.events fd)) p))
            (changed fd (alter ev) w))
        (v.wanted fd) (update_channel-Agrees e fd (alter (p.events fd)) v)

  call-Agrees :
      (c : Call) {p : EPollPoller e} {w : Watch}
      → Agrees e p w
      → CanCall e c p
      → Agrees e (call e c p) (watched_after c w)
  unfolding enable_reading disable_reading enable_writing disable_writing disable_all
  call-Agrees (makes fd) v free = new_channel-Agrees e fd v free
  call-Agrees (removes fd) v (on, quiet) = remove_channel-Agrees e fd v on
  call-Agrees (reads_on fd) v m = altered-Agrees fd (λ ev. record ev { reading = true }) v
  call-Agrees (reads_off fd) v m = altered-Agrees fd (λ ev. record ev { reading = false }) v
  call-Agrees (writes_on fd) v m = altered-Agrees fd (λ ev. record ev { writing = true }) v
  call-Agrees (writes_off fd) v m = altered-Agrees fd (λ ev. record ev { writing = false }) v
  call-Agrees (all_off fd) v m = update_channel-Agrees e fd no_events v
  call-Agrees (polls ready) v m = poll-Agrees e ready v

  run_calls-Agrees :
      (cs : List Call) {p : EPollPoller e} {w : Watch}
      → Agrees e p w
      → CanCallAll e cs p
      → Agrees e (run_calls e cs p) (all_watched cs w)
  unfolding run_calls all_watched
  run_calls-Agrees [] v m = v
  run_calls-Agrees (c ∷ cs) v (m, ms) = run_calls-Agrees cs (call-Agrees c v m) ms

  -- The poller refines a map from descriptors to events. However its channels are made, changed and
  -- removed, if a descriptor has one channel at a time and only quiet channels of the map are removed,
  -- the kernel watches just what the map says, no call of `epoll_ctl` is refused, and the channels in
  -- the poller's map are those whose index is not that of a new one.
  pub run_calls-all_watched :
      (cs : List Call)
      → CanCallAll e cs (new_poller e)
      → let p = run_calls e cs (new_poller e) in
        ((fd : ℕ) → e.interest p.kernel fd ≡ (all_watched cs nothing).watched fd)
        × ((fd : ℕ) → p.channels fd ≡ is_known (p.index fd))
        × (p.aborted ≡ false)
        × (p.complaints ≡ 0)
  run_calls-all_watched cs m =
      let v =
        run_calls-Agrees cs {p = new_poller e} {w = nothing}
          (record {
            interests = e.created_lem;
            wanted = λ fd. refl;
            added = λ fd. refl;
            known = λ fd. refl;
            never_aborted = refl;
            never_complained = refl;
          })
          m in
      (v.interests, v.known, v.never_aborted, v.never_complained)
