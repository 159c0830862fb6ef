-- ===== src/Poller/Tests.antt =====
-- Three channels in the array of net/poller/PollPoller.cc, of which the first is removed.
use cu_ber.Prelude.{◌≡◌, refl, inr, [], ◌∷◌, some, pos, set_at}
use cu_ber.Poller.{
  Poller, update_channel, update_at, remove_channel, remove_from, remove_at, swap_out,
}
use cu_ber.Poller.Indices.{IsConsistent}
use cu_ber.Poller.Reached.{
  Reachable, fresh, stepped, updates, removes, step, reachable-IsConsistent,
}
use cu_ber.Poller.{new_poller}

abbrev three : Poller
three = step (updates 9 4) (step (updates 8 1) (step (updates 7 1) new_poller))

abbrev two : Poller
two = step (removes 7) three

removed_run :
    (two.pollfds ≡ record { fd = pos 9; events = 4 } ∷ record { fd = pos 8; events = 1 } ∷ [])
    × (two.index 9 ≡ some 0)
unfolding update_channel update_at remove_channel remove_from remove_at swap_out set_at
removed_run = (refl, refl)

two-Reachable : Reachable two
unfolding update_channel update_at
two-Reachable =
    stepped (removes 7)
      (stepped (updates 9 4)
        (stepped (updates 8 1) (stepped (updates 7 1) fresh (inr refl)) (inr refl)) (inr refl))
      refl

reachable-IsConsistent_example : IsConsistent two
reachable-IsConsistent_example = reachable-IsConsistent two-Reachable
