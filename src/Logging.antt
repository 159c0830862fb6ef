-- ===== src/Logging.antt =====
-- base/AsyncLogging.h and AsyncLogging.cc, with the `FixedBuffer` of base/LogStream.h: the threads that
-- log fill buffers, and a thread of its own writes the full ones to a file.
pub mod Steps
pub mod Texts
pub mod Pointers
pub mod Rounds
pub mod Order
mod Tests
use cu_ber.Prelude.{
  ℕ, ◌+◌, ◌-◌, ◌*◌, Bool, true, false, not, Option, none, some, List, [], ◌∷◌, ◌++◌, map, length,
  take, drop, Bytes, ltb, if◌then◌else◌,
}

-- `kLargeBuffer`
abbrev pub large_buffer : ℕ
large_buffer = 4000 * 1000

-- The bytes of a `FixedBuffer` up to `cur_`.
abbrev pub FixedBuffer : Type 0
FixedBuffer = Bytes

pub avail : ℕ → FixedBuffer → ℕ
avail size b = size - length b

-- `FixedBuffer::append`
pub append_bytes : ℕ → Bytes → FixedBuffer → FixedBuffer
unfolding avail
append_bytes size line b = if ltb (length line) (avail size b) then b ++ line else b

-- What `threadFunc` does with the text of a buffer: it is written to the file or dropped, behind a
-- message with the number of buffers.
pub data Piece : Type 0 where
  written dropped : Bytes → Piece
  notice : ℕ → Piece

-- Where `threadFunc` is: at the test of its loop, before it locks the mutex, in `waitForSeconds`, which
-- unlocks it, behind the locked block, or over.
pub data Phase : Type 0 where
  at_top locking waiting writing ended : Phase

-- A `unique_ptr` to a buffer is an Option. `given` is the text of the lines that were appended and fit
-- into a buffer; `faulty` is set by an `assert` that fails and by the use of a null pointer.
pub record AsyncLogging : Type 0 where
  pub running : Bool
  pub current_buffer : Option FixedBuffer
  pub next_buffer : Option FixedBuffer
  pub buffers : List FixedBuffer
  pub new_buffer1 : Option FixedBuffer
  pub new_buffer2 : Option FixedBuffer
  pub buffers_to_write : List FixedBuffer
  pub phase : Phase
  pub output : List Piece
  pub given : Bytes
  pub faulty : Bool

-- The state behind `start`, when the thread has counted down the latch.
abbrev pub started : AsyncLogging
started = record {
  running = true;
  current_buffer = some [];
  next_buffer = some [];
  buffers = [];
  new_buffer1 = some [];
  new_buffer2 = some [];
  buffers_to_write = [];
  phase = at_top;
  output = [];
  given = [];
  faulty = false;
}

abbrev pub fault : AsyncLogging → AsyncLogging
fault l = record l { faulty = true }

-- What a call of `append` adds to `given`.
abbrev pub give : Bytes → AsyncLogging → AsyncLogging
give line l = if ltb (length line) large_buffer then record l { given = l.given ++ line } else l

pub next_or_new : Option FixedBuffer → FixedBuffer
next_or_new none = []
next_or_new (some b) = b

pub append_to : Option FixedBuffer → Bytes → AsyncLogging → AsyncLogging
unfolding avail append_bytes next_or_new
append_to none line l = fault l
append_to (some b) line l =
    if ltb (length line) (avail large_buffer b)
    then record l { current_buffer = some (append_bytes large_buffer line b) }
    else record l {
      buffers = l.buffers ++ b ∷ [];
      current_buffer = some (append_bytes large_buffer line (next_or_new l.next_buffer));
      next_buffer = none;
    }

-- `append`
pub append : Bytes → AsyncLogging → AsyncLogging
unfolding append_to
append line l = give line (append_to l.current_buffer line l)

-- `stop`, up to the wait for the thread.
pub stop : AsyncLogging → AsyncLogging
stop l = record l { running = false }

abbrev pub is_empty_buffer : Option FixedBuffer → Bool
is_empty_buffer none = false
is_empty_buffer (some []) = true
is_empty_buffer (some (x ∷ xs)) = false

abbrev pub is_empty : List FixedBuffer → Bool
is_empty [] = true
is_empty (b ∷ bs) = false

abbrev pub check : Bool → AsyncLogging → AsyncLogging
check true l = l
check false l = fault l

-- The test of the loop, and the asserts behind it.
pub enter_round : AsyncLogging → AsyncLogging
enter_round l =
    if l.running
    then record (check (is_empty_buffer l.new_buffer1)
        (check (is_empty_buffer l.new_buffer2) (check (is_empty l.buffers_to_write) l))) {
          phase = locking;
        }
    else record l { phase = ended }

-- A null pointer in `buffers_` would be used when it is written.
pub push_current : Option FixedBuffer → AsyncLogging → AsyncLogging
push_current none l = fault l
push_current (some b) l = record l { buffers = l.buffers ++ b ∷ [] }

pub give_next : Option FixedBuffer → AsyncLogging → AsyncLogging
give_next none l = record l { next_buffer = l.new_buffer2; new_buffer2 = none }
give_next (some b) l = l

-- The end of the locked block.
pub swap_buffers : AsyncLogging → AsyncLogging
unfolding push_current give_next
swap_buffers l =
    let l' = push_current l.current_buffer l in
    give_next l'.next_buffer (record l' {
      current_buffer = l'.new_buffer1;
      new_buffer1 = none;
      buffers_to_write = l'.buffers;
      buffers = l'.buffers_to_write;
      phase = writing;
    })

-- The locked block up to `waitForSeconds`.
pub lock_buffers : AsyncLogging → AsyncLogging
unfolding swap_buffers
lock_buffers l = if is_empty l.buffers then record l { phase = waiting } else swap_buffers l

-- The text of a round goes to the file, and what is over 25 buffers is dropped.
pub write_pieces : List FixedBuffer → List Piece
write_pieces bs =
    if ltb 25 (length bs)
    then notice (length bs - 2) ∷ map written (take 2 bs) ++ map dropped (drop 2 bs)
    else map written bs

-- What is left of `buffersToWrite` behind `erase` and `resize`.
pub kept : List FixedBuffer → List FixedBuffer
kept bs = take 2 bs

-- A buffer is taken from the back of `buffersToWrite`, by the first to ask, and reset.
pub refill : Option FixedBuffer → List FixedBuffer → Option FixedBuffer × List FixedBuffer
refill (some b) bs = (some b, bs)
refill none [] = (none, [])
refill none (b ∷ []) = (some [], [])
refill none (b ∷ c ∷ bs) = let (r, cs) = refill none (c ∷ bs) in (r, b ∷ cs)

-- The assert in front of `refill`.
abbrev pub check_refill : Option FixedBuffer → List FixedBuffer → AsyncLogging → AsyncLogging
check_refill (some b) bs l = l
check_refill none bs l = check (not (is_empty bs)) l

pub write_round :
    Option FixedBuffer → Option FixedBuffer → List FixedBuffer → AsyncLogging → AsyncLogging
unfolding write_pieces kept refill
write_round new1 new2 bs l =
    let (new1', left1) = refill new1 (kept bs) in
    let (new2', left2) = refill new2 left1 in
    record (check_refill new1 (kept bs) (check_refill new2 left1 (check (not (is_empty bs)) l))) {
      output = l.output ++ write_pieces bs;
      new_buffer1 = new1';
      new_buffer2 = new2';
      buffers_to_write = [];
      phase = at_top;
    }

-- The round of `threadFunc` behind the locked block.
pub write_out : AsyncLogging → AsyncLogging
unfolding write_round
write_out l = write_round l.new_buffer1 l.new_buffer2 l.buffers_to_write l
