-- ===== src/Http/Timer.antt =====
-- http/HttpTimer.h and HttpTimer.cpp: the list of connections that is looked through once a second
-- for those that have been silent too long. A time stamp is its count of microseconds.
pub mod Expiry
mod Tests
use cu_ber.Prelude.{
  ℕ, ◌-◌, ◌*◌, Bytes, Bool, true, false, List, [], ◌∷◌, ◌++◌, Option, none, some, ltb,
  if◌then◌else◌, ℤ, pos, negsuc,
}

-- What the timer sees of a connection that it holds by a weak pointer.
pub record Client : Type 0 where
  pub name : Bytes
  pub last_receive_time : ℕ
  pub is_connected : Bool

-- A pointer to a connection that is gone gives nothing.
abbrev pub Connections : Type 0
Connections = List (Option Client)

-- What `onTimer` does with one connection.
pub data Age : Type 0 where
  expired jumped young : Age

-- `timeDifference` against the limit in seconds; a time of receipt that lies ahead is a jump of the
-- clock.
unfoldable pub age_of : ℕ → ℕ → Client → Age
age_of now limit c =
    if ltb (limit * 1000000) (now - c.last_receive_time)
    then expired
    else if ltb now c.last_receive_time
    then jumped
    else young

-- `onTimer`: the list that is left and the connections that the timeout callback was called for. Gone
-- connections leave the list up to the first young one, at which the loop ends. The callback shuts the
-- connection down, so that it is no longer connected.
pub on_timer : ℕ → ℕ → Connections → Connections × List Bytes
unfolding age_of
on_timer now limit [] = ([], [])
on_timer now limit (none ∷ cs) = on_timer now limit cs
on_timer now limit (some c ∷ cs) =
    let (rest, told) = on_timer now limit cs in
    elim (age_of now limit c) [
      | young ↦ (some c ∷ cs, [])
      | jumped ↦ (some (record c { last_receive_time = now }) ∷ rest, told)
      | expired ↦
          if c.is_connected
          then (some (record c { is_connected = false }) ∷ rest, c.name ∷ told)
          else (some c ∷ rest, told)
    ]

-- A new connection goes to the end of the list.
abbrev pub add_http_connection : Client → Connections → Connections
add_http_connection c cs = cs ++ some c ∷ []
