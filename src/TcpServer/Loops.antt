-- ===== src/TcpServer/Loops.antt =====
-- Every connection of net/TcpServer.cc gets a loop of net/EventLoopThreadPool.cc.
use cu_ber.Prelude.{
  ℕ, ◌<◌, ◌≡◌, refl, ap, arith, Bool, true, false, List, [], ◌∷◌, ◌++◌, if◌then◌else◌, length,
  Option, none, some, get_some,
}
use cu_ber.TcpServer.{
  EventLoopThreadPool, TcpServer, get_next_loop, new_connection, remove_connection,
  remove_connection_in_loop,
}
use cu_ber.TcpServer.Steps.{Event, comes, closes, removes, step, Reachable, fresh, stepped}

-- The loops of the pool are there for every connection.
abbrev pub is_placed : Option ℕ → Bool
is_placed none = false
is_placed (some l) = true

abbrev pub all_placed : List (ℕ × Option ℕ) → Bool
all_placed [] = true
all_placed ((id, l) ∷ ms) = if is_placed l then all_placed ms else false

record IsPlaced (s : TcpServer) : Type 0 where
  placed : all_placed s.made ≡ true
  in_range : 0 < length s.thread_pool.loops → s.thread_pool.next < length s.thread_pool.loops

all_placed_last :
    (m : ℕ × Option ℕ) (ms : List (ℕ × Option ℕ))
    → is_placed m.1 ≡ true
    → all_placed ms ≡ true
    → all_placed (ms ++ m ∷ []) ≡ true
all_placed_last (id, l) [] h k = ground (arith, h)
all_placed_last (id, l) ((j, k) ∷ ms) h g = ground (arith, h, g, all_placed_last (id, l) ms h)

abbrev InRange : EventLoopThreadPool → Type 0
InRange p = 0 < length p.loops → p.next < length p.loops

abbrev pool : ℕ → ℕ → List ℕ → EventLoopThreadPool
pool base next loops = record { base_loop = base; loops = loops; next = next }

next_placed :
    (base next : ℕ) (loops : List ℕ)
    → let p = pool base next loops in
      InRange p → (is_placed (get_next_loop p).0 ≡ true) × InRange (get_next_loop p).1
unfolding get_next_loop
next_placed base next [] h = (refl, h)
next_placed base next (l ∷ ls) h =
    let (x, found) = get_some (l ∷ ls) next (h (omega arith)) in
    (ap is_placed found, λ k. ground arith)

new_connection-IsPlaced : (s : TcpServer) → IsPlaced s → IsPlaced (new_connection s)
unfolding new_connection
new_connection-IsPlaced s v =
    let p = s.thread_pool in
    let (found, in_range) = next_placed p.base_loop p.next p.loops v.in_range in
    record {
      placed = all_placed_last (s.next_conn_id, (get_next_loop p).0) s.made found v.placed;
      in_range = in_range;
    }

step-IsPlaced : (e : Event) (s : TcpServer) → IsPlaced s → IsPlaced (step e s)
unfolding remove_connection remove_connection_in_loop
step-IsPlaced comes s v = new_connection-IsPlaced s v
step-IsPlaced (closes id) s v = record { placed = v.placed; in_range = v.in_range }
step-IsPlaced (removes id) s v = record { placed = v.placed; in_range = v.in_range }

reachable-IsPlaced : {s : TcpServer} → Reachable s → IsPlaced s
reachable-IsPlaced (fresh name ip_port base loops) = record { placed = refl; in_range = λ h. h }
reachable-IsPlaced (stepped {s} e r m) = step-IsPlaced e s (reachable-IsPlaced r)

-- Every connection gets a loop: the index of the next one is never out of range.
pub connections_are_placed : (s : TcpServer) → Reachable s → all_placed s.made ≡ true
connections_are_placed s r = placed
  where
    open (reachable-IsPlaced r) use {placed}
