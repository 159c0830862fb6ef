-- ===== src/Http/Timer/Expiry.antt =====
-- Which connections `HttpTimer::onTimer` of http/HttpTimer.cpp times out.
use cu_ber.Prelude.{
  ℕ, ◌-◌, ◌*◌, ◌≤◌, ◌≡◌, refl, arith, Bytes, List, [], ◌∷◌, none, some, ltb, ◌&&◌, if◌then◌else◌,
}
use cu_ber.Http.Timer.{Connections, age_of, on_timer}

-- The connections that have been silent for longer than the limit and are still connected.
abbrev pub silent : ℕ → ℕ → Connections → List Bytes
silent now limit [] = []
silent now limit (none ∷ cs) = silent now limit cs
silent now limit (some c ∷ cs) =
    if ltb (limit * 1000000) (now - c.last_receive_time) && c.is_connected
    then c.name ∷ silent now limit cs
    else silent now limit cs

-- The live connections are in the order of their last receipt, which is at a time and later, and not
-- ahead of the clock.
abbrev pub IsOrdered : ℕ → ℕ → Connections → Type 0
IsOrdered since now [] = Unit {0}
IsOrdered since now (none ∷ cs) = IsOrdered since now cs
IsOrdered since now (some c ∷ cs) =
    (since ≤ c.last_receive_time)
    × (c.last_receive_time ≤ now)
    × IsOrdered c.last_receive_time now cs

-- Behind a young connection all are young.
silent-IsOrdered :
    (since now limit : ℕ) (cs : Connections)
    → IsOrdered since now cs
    → now - since ≤ limit * 1000000
    → silent now limit cs ≡ []
silent-IsOrdered since now limit [] o h = refl
silent-IsOrdered since now limit (none ∷ cs) o h = silent-IsOrdered since now limit cs o h
silent-IsOrdered since now limit (some c ∷ cs) (late, past, o) h =
    ground (arith, silent-IsOrdered c.last_receive_time now limit cs o)

-- If the list is in the order of the last receipts, `onTimer` times out exactly the connections that
-- have been silent for longer than the limit, although it stops at the first that has not.
pub on_timer-IsOrdered :
    (since now limit : ℕ) (cs : Connections)
    → IsOrdered since now cs
    → (on_timer now limit cs).1 ≡ silent now limit cs
unfolding on_timer age_of
on_timer-IsOrdered since now limit [] o = refl
on_timer-IsOrdered since now limit (none ∷ cs) o = on_timer-IsOrdered since now limit cs o
on_timer-IsOrdered since now limit (some c ∷ cs) (late, past, o) = ground (
  arith,
  on_timer-IsOrdered c.last_receive_time now limit cs o,
  silent-IsOrdered c.last_receive_time now limit cs o,
)
