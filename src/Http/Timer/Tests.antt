-- ===== src/Http/Timer/Tests.antt =====
-- Runs of `onTimer` of http/HttpTimer.cpp, and its theorem at a concrete list.
use cu_ber.Prelude.{◌≡◌, refl, arith, true, [], ◌∷◌, none, some, codes}
use cu_ber.Http.Timer.{Client, Connections, on_timer, age_of}
use cu_ber.Http.Timer.Expiry.{silent, on_timer-IsOrdered}

abbrev old : Client
old = record { name = codes "old"; last_receive_time = 1; is_connected = true }

abbrev new : Client
new = record { name = codes "new"; last_receive_time = 9000000; is_connected = true }

abbrev ordered : Connections
ordered = some old ∷ none ∷ some new ∷ []

-- A young connection in front keeps the others from being looked at.
hidden_run : (on_timer 9000001 5 (some new ∷ some old ∷ [])).1 ≡ []
unfolding on_timer age_of
hidden_run = refl

on_timer-IsOrdered_example : (on_timer 9000001 5 ordered).1 ≡ silent 9000001 5 ordered
on_timer-IsOrdered_example =
    on_timer-IsOrdered 0 9000001 5 ordered
      (omega arith, omega arith, (omega arith, omega arith, tt))
