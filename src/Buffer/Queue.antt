-- ===== src/Buffer/Queue.antt =====
-- What net/Buffer.h promises to its clients: a queue of bytes with two ends, whatever the vector
-- and the indices do.
use native.Mathlib.Nat.{le_refl}
use cu_ber.Prelude.{
  ℕ, ◌-◌, ◌≤◌, ◌≡◌, refl, sym, ap, ap₂, ◌∙◌, arith, Bytes, List, [], ◌∷◌, ◌++◌, length, take, drop,
  take-take, take_all, drop_all,
}
use cu_ber.Buffer.{
  Buffer, init, content, readable_bytes, prependable_bytes, read_capacity, got, failed, retrieve,
  retrieve_all, retrieve_as_string, retrieve_all_as_string, append, prepend, ensure_writable_bytes,
  shrink, unwrite, read_fd, to_network, from_network, append_int, peek_int, read_int, prepend_int,
}
use cu_ber.Buffer.Content.{
  IsValid, init_lem, retrieve_lem, append_lem, prepend_lem, ensure_lem, shrink_lem, length-content,
}
use cu_ber.Buffer.Reading.{read_fd_lem}
use cu_ber.Buffer.Integers.{length-to_network}

-- The calls of a client. The integers come with their size in bytes.
pub data Call : Type 0 where
  appends prepends reads : Bytes → Call
  retrieves retrieves_string reserves shrinks unwrites peeks_int reads_int : ℕ → Call
  appends_int prepends_int : ℕ → ℕ → Call
  retrieves_all retrieves_all_string fails_to_read : Call

pub data Answer : Type 0 where
  nothing : Answer
  text : Bytes → Answer
  number : ℕ → Answer

abbrev with_text : Bytes × Buffer → Buffer × Answer
with_text (s, b) = (b, text s)

abbrev with_number : ℕ × Buffer → Buffer × Answer
with_number (x, b) = (b, number x)

-- The call on the buffer.
abbrev pub call : Call → Buffer → Buffer × Answer
call (appends bytes) b = (append bytes b, nothing)
call (prepends bytes) b = (prepend bytes b, nothing)
call (reads bytes) b = (read_fd (got bytes) b, nothing)
call fails_to_read b = (read_fd (failed 11) b, nothing)
call (retrieves n) b = (retrieve n b, nothing)
call (retrieves_string n) b = with_text (retrieve_as_string n b)
call (reserves n) b = (ensure_writable_bytes n b, nothing)
call (shrinks n) b = (shrink n b, nothing)
call (unwrites n) b = (unwrite n b, nothing)
call (peeks_int size) b = (b, number (peek_int size b))
call (reads_int size) b = with_number (read_int size b)
call (appends_int size x) b = (append_int size x b, nothing)
call (prepends_int size x) b = (prepend_int size x b, nothing)
call retrieves_all b = (retrieve_all b, nothing)
call retrieves_all_string b = with_text (retrieve_all_as_string b)

-- The call on a queue of bytes.
abbrev pub promised : Call → Bytes → Bytes × Answer
promised (appends bytes) q = (q ++ bytes, nothing)
promised (prepends bytes) q = (bytes ++ q, nothing)
promised (reads bytes) q = (q ++ bytes, nothing)
promised fails_to_read q = (q, nothing)
promised (retrieves n) q = (drop n q, nothing)
promised (retrieves_string n) q = (drop n q, text (take n q))
promised (reserves n) q = (q, nothing)
promised (shrinks n) q = (q, nothing)
promised (unwrites n) q = (take (length q - n) q, nothing)
promised (peeks_int size) q = (q, number (from_network 0 (take size q)))
promised (reads_int size) q = (drop size q, number (from_network 0 (take size q)))
promised (appends_int size x) q = (q ++ to_network size x, nothing)
promised (prepends_int size x) q = (to_network size x ++ q, nothing)
promised retrieves_all q = ([], nothing)
promised retrieves_all_string q = ([], text q)

-- The `assert`s of the calls, and what `readv` can have read.
abbrev pub CanCall : Call → Buffer → Type 0
CanCall (prepends bytes) b = length bytes ≤ prependable_bytes b
CanCall (reads bytes) b = length bytes ≤ read_capacity b
CanCall (retrieves n) b = n ≤ readable_bytes b
CanCall (retrieves_string n) b = n ≤ readable_bytes b
CanCall (unwrites n) b = n ≤ readable_bytes b
CanCall (peeks_int size) b = size ≤ readable_bytes b
CanCall (reads_int size) b = size ≤ readable_bytes b
CanCall (prepends_int size x) b = size ≤ prependable_bytes b
CanCall _ b = Unit {0}

-- A call does what is promised, and leaves a valid buffer.
abbrev Keeps : Call → Buffer → Type 0
Keeps c b =
    IsValid (call c b).0
    × (content (call c b).0 ≡ (promised c (content b)).0)
    × ((call c b).1 ≡ (promised c (content b)).1)

unwrite_lem :
    (n : ℕ) {b : Buffer}
    → IsValid b
    → n ≤ readable_bytes b
    → IsValid (unwrite n b) × (content (unwrite n b) ≡ take (length (content b) - n) (content b))
unfolding unwrite
unwrite_lem n {b} v h =
    let fewer : length (content b) - n ≡ b.writer_index - n - b.reader_index =
      omega (arith, length-content v) in
    (
      omega arith,
      unfold content in
          take-take (b.writer_index - n - b.reader_index) (b.writer_index - b.reader_index)
            (drop b.reader_index b.buffer) (omega arith)
          ∙ ap (λ k. take k (content b)) (sym fewer),
    )

peek_lem :
    (n : ℕ) (b : Buffer) → n ≤ readable_bytes b → peek_int n b ≡ from_network 0 (take n (content b))
unfolding peek_int content
peek_lem n b h =
    ap (from_network 0) (take-take n (readable_bytes b) (drop b.reader_index b.buffer) h)

string_lem :
    (n : ℕ) (b : Buffer) → n ≤ readable_bytes b → (retrieve_as_string n b).0 ≡ take n (content b)
unfolding retrieve_as_string content
string_lem n b h = take-take n (readable_bytes b) (drop b.reader_index b.buffer) h

call-Keeps : (c : Call) (b : Buffer) → IsValid b → CanCall c b → Keeps c b
unfolding append_int prepend_int read_int read_fd retrieve_all_as_string
call-Keeps (appends bytes) b v h = let (w, e) = append_lem bytes v in (w, e, refl)
call-Keeps (prepends bytes) b v h = let (w, e) = prepend_lem bytes v h in (w, e, refl)
call-Keeps (reads bytes) b v h = let (w, e, _) = read_fd_lem bytes v h in (w, e, refl)
call-Keeps fails_to_read b v h = (v, refl, refl)
call-Keeps (retrieves n) b v h = let (w, e) = retrieve_lem n v in (w, e, refl)
call-Keeps (retrieves_string n) b v h =
    let (w, e) = retrieve_lem n v in
    (unfold retrieve_as_string in w, unfold retrieve_as_string in e, ap text (string_lem n b h))
call-Keeps (reserves n) b v h = let (w, e, _) = ensure_lem n v in (w, e, refl)
call-Keeps (shrinks n) b v h = let (w, e) = shrink_lem n v in (w, e, refl)
call-Keeps (unwrites n) b v h = let (w, e) = unwrite_lem n v h in (w, e, refl)
call-Keeps (peeks_int size) b v h = (v, refl, ap number (peek_lem size b h))
call-Keeps (reads_int size) b v h =
    let (w, e) = retrieve_lem size v in (w, e, ap number (peek_lem size b h))
call-Keeps (appends_int size x) b v h =
    let (w, e) = append_lem (to_network size x) v in (w, e, refl)
call-Keeps (prepends_int size x) b v h =
    let (w, e) = prepend_lem (to_network size x) v (omega (arith, length-to_network size x)) in
    (w, e, refl)
call-Keeps retrieves_all b v h =
    (unfold retrieve_all in omega arith, unfold retrieve_all content in refl, refl)
call-Keeps retrieves_all_string b v h =
    let (w, e) = retrieve_lem (readable_bytes b) v in
    let size = length-content v in
    (
      unfold retrieve_as_string in w,
      unfold retrieve_as_string in
          e ∙ drop_all (readable_bytes b) (content b) (omega (arith, size)),
      ap text (
          string_lem (readable_bytes b) b (le_refl _)
          ∙ take_all (readable_bytes b) (content b) (omega (arith, size))),
    )

-- The calls one after the other, with all that they answer.
pub calls : List Call → Buffer → Buffer × List Answer
calls [] b = (b, [])
calls (c ∷ cs) b =
    let (b', a) = call c b in let (last, answers) = calls cs b' in (last, a ∷ answers)

unfoldable pub all_promised : List Call → Bytes → Bytes × List Answer
all_promised [] q = (q, [])
all_promised (c ∷ cs) q =
    let (q', a) = promised c q in let (last, answers) = all_promised cs q' in (last, a ∷ answers)

-- Each call is made where its `assert` holds.
abbrev pub CanCallAll : List Call → Buffer → Type 0
CanCallAll [] b = Unit {0}
CanCallAll (c ∷ cs) b = CanCall c b × CanCallAll cs (call c b).0

calls_lem :
    (cs : List Call) (b : Buffer)
    → IsValid b
    → CanCallAll cs b
    → IsValid (calls cs b).0
      × (content (calls cs b).0 ≡ (all_promised cs (content b)).0)
      × ((calls cs b).1 ≡ (all_promised cs (content b)).1)
unfolding calls all_promised
calls_lem [] b v h = (v, refl, refl)
calls_lem (c ∷ cs) b v (h, hs) =
    let (w, e, a) = call-Keeps c b v h in
    let (w', e', all) = calls_lem cs (call c b).0 w hs in
    (
      w',
      e' ∙ ap (λ q. (all_promised cs q).0) e,
      ap₂ (λ x xs. x ∷ xs) a (all ∙ ap (λ q. (all_promised cs q).1) e),
    )

-- However a client calls a new buffer, if each call is made where its assert holds and readv reads no
-- more than its vectors hold, every answer and the content at the end are those of a queue of bytes that
-- starts empty: appends and reads go to its back, prepends to its front, retrieves come off the front
-- and unwrites off the back, integers travel as their bytes, and moving, growing and shrinking change
-- nothing.
pub calls-all_promised :
    (size : ℕ) (cs : List Call)
    → CanCallAll cs (init size)
    → (content (calls cs (init size)).0 ≡ (all_promised cs []).0)
      × ((calls cs (init size)).1 ≡ (all_promised cs []).1)
calls-all_promised size cs h =
    let (v, empty, _) = init_lem size in
    let (_, e, a) = calls_lem cs (init size) v h in
    (e ∙ ap (λ q. (all_promised cs q).0) empty, a ∙ ap (λ q. (all_promised cs q).1) empty)
