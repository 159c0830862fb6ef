-- ===== src/Connection/Racing.antt =====
-- `forceClose`, `forceCloseWithDelay` and `shutdown` of net/TcpConnection.cc test the state and then
-- change it, without a lock: in another thread than that of the loop, anything may come between.
use cu_ber.Prelude.{
  ℕ, suc, ◌+◌, ◌-◌, ◌≤◌, ◌<◌, ◌≡◌, refl, arith, Bool, false, if◌then◌else◌, Bool-cases, inl, inr,
}
use cu_ber.Connection.{
  Connection, is_connected, is_disconnected, is_open, new_connection, shut, close_soon, close_later,
}
use cu_ber.Connection.Steps.{Event, step, CanHappen}
use cu_ber.Connection.Closing.{closes, Once, step-Once}

-- A connection with the numbers of threads that have found it open, or connected, and have not yet
-- changed its state. `late` counts those that changed the state of a connection that was closed by then.
pub record Race : Type 0 where
  pub conn : Connection
  pub closers : ℕ
  pub delayed_closers : ℕ
  pub shutters : ℕ
  pub late : ℕ

-- `happens` is what Steps says, with the calls in the thread of the loop.
pub data RaceEvent : Type 0 where
  happens : Event → RaceEvent
  tests_close sets_close tests_delayed sets_delayed tests_shutdown sets_shutdown : RaceEvent

abbrev pub one_if : Bool → ℕ
one_if b = if b then 1 else 0

-- The state is changed, whatever it is now.
abbrev pub change : (Connection → Connection) → Race → Race
change f r = record r { conn = f r.conn; late = r.late + one_if (is_disconnected r.conn.state) }

abbrev pub race_step : RaceEvent → Race → Race
race_step (happens e) r = record r { conn = step e r.conn }
race_step tests_close r = record r { closers = r.closers + one_if (is_open r.conn.state) }
race_step sets_close r = change close_soon (record r { closers = r.closers - 1 })
race_step tests_delayed r = record r {
  delayed_closers = r.delayed_closers + one_if (is_open r.conn.state);
}
race_step sets_delayed r = change close_later (record r { delayed_closers = r.delayed_closers - 1 })
race_step tests_shutdown r = record r { shutters = r.shutters + one_if (is_connected r.conn.state) }
race_step sets_shutdown r = change (shut false) (record r { shutters = r.shutters - 1 })

abbrev pub CanRace : RaceEvent → Race → Type 0
CanRace (happens e) r = CanHappen e r.conn
CanRace tests_close r = Unit {0}
CanRace sets_close r = 0 < r.closers
CanRace tests_delayed r = Unit {0}
CanRace sets_delayed r = 0 < r.delayed_closers
CanRace tests_shutdown r = Unit {0}
CanRace sets_shutdown r = 0 < r.shutters

abbrev pub new_race : ℕ → Bool → Bool → Race
new_race now complete high = record {
  conn = new_connection now complete high;
  closers = 0;
  delayed_closers = 0;
  shutters = 0;
  late = 0;
}

pub data Raced : Race → Type 0 where
  begins : (now : ℕ) (complete high : Bool) → Raced (new_race now complete high)
  goes_on : {r : Race} (e : RaceEvent) → Raced r → CanRace e r → Raced (race_step e r)

-- What is set late may close once more.
change-Once :
    (late : ℕ) (c d : Connection)
    → closes d.calls ≡ closes c.calls
    → Once late c
    → Once (late + one_if (is_disconnected c.state)) d
change-Once late c d same (one, none) = elim (Bool-cases (is_disconnected c.state)) [
  | inl down ↦ rw down (omega (arith, same, one), λ e. omega (arith, same, one))
  | inr up ↦ rw up (omega (arith, same, one), λ e. omega (arith, same, none up))
]

race_step-Once :
    (e : RaceEvent) (r : Race)
    → CanRace e r
    → Once r.late r.conn
    → Once (race_step e r).late (race_step e r).conn
unfolding shut
race_step-Once (happens e) r m o = step-Once r.late e r.conn o m
race_step-Once tests_close r m o = o
race_step-Once sets_close r m o = change-Once r.late r.conn (close_soon r.conn) refl o
race_step-Once tests_delayed r m o = o
race_step-Once sets_delayed r m o = change-Once r.late r.conn (close_later r.conn) refl o
race_step-Once tests_shutdown r m o = o
race_step-Once sets_shutdown r m o = change-Once r.late r.conn (shut false r.conn) refl o

Raced-Once : {r : Race} → Raced r → Once r.late r.conn
Raced-Once (begins now complete high) = (omega arith, λ e. omega arith)
Raced-Once (goes_on {r} e s m) = race_step-Once e r m (Raced-Once s)

-- In every order of events that the asserts allow, and however other threads are stopped between their
-- test of the state and their change of it, the close callback is called at most once more than a
-- thread has changed the state of a connection that was closed since its test: so at most once where
-- that never happens.
pub closes_once_unless_late : {r : Race} → Raced r → closes r.conn.calls ≤ suc r.late
closes_once_unless_late r = (Raced-Once r).0
