-- ===== src/EPoll/Updates.antt =====
-- Each call of net/poller/EPollPoller.cc does to the kernel what it does to the map.
use cu_ber.Prelude.{
  ℕ, ◌≡◌, refl, sym, ap, ◌∙◌, arith, Bool, true, false, Option, none, some, List, [], ◌∷◌, ◌==◌,
  if◌then◌else◌, put, Bool-cases, Option-cases, inl, inr, put_same, length,
}
use cu_ber.EPoll.{
  Epoll, ctl_add, ctl_mod, ctl_del, Events, is_none_event, bits, Index, new_index, added_index,
  deleted_index, EPollPoller, update, update_at, update_channel, remove_at, remove_channel,
  new_channel, set_events, poll, fill_active_channels,
}
use cu_ber.EPoll.Watch.{
  makes, removes, Watch, watch, changed, watched_after, is_added, is_known, is_some,
}

module _ (e : Epoll) where
  -- The poller does what is promised; `added_index` says that the kernel watches the descriptor.
  pub record Agrees (p : EPollPoller e) (w : Watch) : Type 0 where
    pub interests : (fd : ℕ) → e.interest p.kernel fd ≡ w.watched fd
    pub wanted : (fd : ℕ) → p.events fd ≡ w.wants fd
    pub added : (fd : ℕ) → is_added (p.index fd) ≡ is_some (w.watched fd)
    pub known : (fd : ℕ) → p.channels fd ≡ is_known (p.index fd)
    pub never_aborted : p.aborted ≡ false
    pub never_complained : p.complaints ≡ 0

  module _ (fd : ℕ) (ev : Events) {p : EPollPoller e} {w : Watch} (v : Agrees p w) where
    abbrev told : EPollPoller e
    told = set_events e fd ev p

    unwatched : is_added (p.index fd) ≡ false → e.interest p.kernel fd ≡ none
    unwatched off = v.interests fd ∙ empty (w.watched fd) (v.added fd ∙ refl)
      where
        empty : (o : Option ℕ) → is_added (p.index fd) ≡ is_some o → o ≡ none
        empty none h = refl
        empty (some x) h = cc (off, h)

    already :
        is_added (p.index fd) ≡ true
        → (old : ℕ) × (e.interest p.kernel fd ≡ some old) × (w.watched fd ≡ some old)
    already on = elim (Option-cases (w.watched fd)) [
      | inl empty ↦ ground (arith, v.added fd, on, empty)
      | inr (old, at) ↦ (old, v.interests fd ∙ at, at)
    ]

    told_events : told.events fd ≡ ev
    told_events = put_same fd ev p.events fd refl

    -- A change of the map of what is watched that the kernel has made.
    abbrev Made : Option ℕ → e.Kernel → Type 0
    Made o k = (j : ℕ) → e.interest k j ≡ put fd o (e.interest p.kernel) j

    watched_interests :
        (o : Option ℕ) (k : e.Kernel)
        → Made o k
        → watch (w.watched fd) ev ≡ o
        → (j : ℕ) → e.interest k j ≡ (changed fd ev w).watched j
    watched_interests o k made same j = ground (arith, made j, same, v.interests j)

    added-Agrees :
        (channels : ℕ → Bool)
        → is_added (p.index fd) ≡ false
        → ((j : ℕ) → channels j ≡ put fd true p.channels j)
        → Agrees
            (update e ctl_add fd
              (record told { channels = channels; index = put fd added_index p.index }))
            (changed fd ev w)
    unfolding update
    added-Agrees channels off cs =
        let free = unwatched off in
        let (k, ok, after) = e.add_lem fd (bits (told.events fd)) p.kernel free in
        let same : watch (w.watched fd) ev ≡ some (bits (told.events fd)) =
          ap (λ o. watch o ev) (sym (v.interests fd) ∙ free)
          ∙ ap (λ x. some (bits x)) (sym told_events) in
        rw ok (record {
          interests = watched_interests (some (bits (told.events fd))) k after same;
          wanted = λ j. ground (arith, v.wanted j);
          added = λ j. ground (arith, v.added j, same);
          known = λ j. ground (arith, v.known j, cs j);
          never_aborted = v.never_aborted;
          never_complained = v.never_complained;
        })

    modified-Agrees :
        is_added (p.index fd) ≡ true
        → is_none_event ev ≡ false
        → Agrees (update e ctl_mod fd told) (changed fd ev w)
    unfolding update
    modified-Agrees on some_event =
        let (old, there, here) = already on in
        let (k, ok, after) = e.mod_lem fd (bits (told.events fd)) old p.kernel there in
        let same : watch (w.watched fd) ev ≡ some (bits (told.events fd)) =
          ap (λ o. watch o ev) here
          ∙ ap (λ (b : Bool). if b then none else some (bits ev)) some_event
          ∙ ap (λ x. some (bits x)) (sym told_events) in
        rw ok (record {
          interests = watched_interests (some (bits (told.events fd))) k after same;
          wanted = λ j. ground (arith, v.wanted j);
          added = λ j. ground (arith, v.added j, v.added fd, same, on);
          known = v.known;
          never_aborted = v.never_aborted;
          never_complained = v.never_complained;
        })

    deleted-Agrees :
        is_added (p.index fd) ≡ true
        → is_none_event ev ≡ true
        → Agrees
            (record (update e ctl_del fd told) {
              index = put fd deleted_index (update e ctl_del fd told).index;
            })
            (changed fd ev w)
    unfolding update
    deleted-Agrees on no_event =
        let (old, there, here) = already on in
        let (k, ok, after) = e.del_lem fd (bits (told.events fd)) old p.kernel there in
        let same : watch (w.watched fd) ev ≡ none =
          ap (λ o. watch o ev) here
          ∙ ap (λ (b : Bool). if b then none else some (bits ev)) no_event in
        rw ok (record {
          interests = watched_interests none k after same;
          wanted = λ j. ground (arith, v.wanted j);
          added = λ j. ground (arith, v.added j, same);
          known = λ j. ground (arith, v.known j, v.known fd, on);
          never_aborted = v.never_aborted;
          never_complained = v.never_complained;
        })

    pub update_channel-Agrees : Agrees (update_channel e fd told) (changed fd ev w)
    unfolding update_channel
    update_channel-Agrees = go (p.index fd) refl
      where
        go : (i : Index) → p.index fd ≡ i → Agrees (update_at e i fd told) (changed fd ev w)
        go new_index is = added-Agrees (put fd true p.channels) (ap is_added is) (λ j. refl)
        go deleted_index is =
            added-Agrees p.channels (ap is_added is) (λ j. ground (arith, v.known fd, is))
        go added_index is = elim (Bool-cases (is_none_event ev)) [
          | inl no_event ↦
              rw (ap is_none_event told_events ∙ no_event)
                (deleted-Agrees (ap is_added is) no_event)
          | inr some_event ↦
              rw (ap is_none_event told_events ∙ some_event)
                (modified-Agrees (ap is_added is) some_event)
        ]

  pub remove_channel-Agrees :
      (fd : ℕ) {p : EPollPoller e} {w : Watch}
      → Agrees p w
      → p.channels fd ≡ true
      → Agrees (remove_channel e fd p) (watched_after (removes fd) w)
  unfolding remove_channel remove_at update
  remove_channel-Agrees fd {p} {w} v on = go (p.index fd) refl
    where
      forgotten :
          (i : Index)
          → p.index fd ≡ i
          → is_added i ≡ false
          → Agrees
              (record p { channels = put fd false p.channels; index = put fd new_index p.index })
              (watched_after (removes fd) w)
      forgotten i is off = record {
        interests = λ j. ground (arith, v.interests j, v.added fd, is, off);
        wanted = v.wanted;
        added = λ j. ground (arith, v.added j);
        known = λ j. ground (arith, v.known j);
        never_aborted = v.never_aborted;
        never_complained = v.never_complained;
      }

      go : (i : Index) → p.index fd ≡ i → Agrees (remove_at e i fd p) (watched_after (removes fd) w)
      go new_index is = forgotten new_index is refl
      go deleted_index is = forgotten deleted_index is refl
      go added_index is =
          let (old, there, here) = already fd (p.events fd) v (ap is_added is) in
          let (k, ok, after) = e.del_lem fd (bits (p.events fd)) old p.kernel there in
          rw ok (record {
            interests = λ j. ground (arith, after j, v.interests j);
            wanted = v.wanted;
            added = λ j. ground (arith, v.added j);
            known = λ j. ground (arith, v.known j);
            never_aborted = v.never_aborted;
            never_complained = v.never_complained;
          })

  fill-Agrees :
      (ready : List (ℕ × ℕ)) {p : EPollPoller e} {w : Watch}
      → Agrees p w
      → Agrees (fill_active_channels e ready p) w
  unfolding fill_active_channels
  fill-Agrees [] v = v
  fill-Agrees ((fd, revents) ∷ ready) {p} v =
      fill-Agrees ready {p = record p { revents = put fd revents p.revents }} (record {
        interests = v.interests;
        wanted = v.wanted;
        added = v.added;
        known = v.known;
        never_aborted = v.never_aborted;
        never_complained = v.never_complained;
      })

  pub poll-Agrees :
      (ready : List (ℕ × ℕ)) {p : EPollPoller e} {w : Watch}
      → Agrees p w
      → Agrees (poll e ready p) w
  unfolding poll
  poll-Agrees ready {p} v =
      let f = fill-Agrees ready v in
      elim (Bool-cases (length ready == p.room)) [
        | inl full ↦ rw full (record {
          interests = f.interests;
          wanted = f.wanted;
          added = f.added;
          known = f.known;
          never_aborted = f.never_aborted;
          never_complained = f.never_complained;
        })
        | inr room ↦ rw room f
      ]

  pub new_channel-Agrees :
      (fd : ℕ) {p : EPollPoller e} {w : Watch}
      → Agrees p w
      → p.channels fd ≡ false
      → Agrees (new_channel e fd p) (watched_after (makes fd) w)
  unfolding new_channel
  new_channel-Agrees fd {p} v free = record {
    interests = v.interests;
    wanted = λ j. ground (arith, v.wanted j);
    added = λ j. ground (arith, v.added j, v.known j, free);
    known = λ j. ground (arith, v.known j, free);
    never_aborted = v.never_aborted;
    never_complained = v.never_complained;
  }
