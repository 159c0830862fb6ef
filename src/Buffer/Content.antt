-- ===== src/Buffer/Content.antt =====
-- The operations of net/Buffer.h seen on the content of the buffer.
use cu_ber.Prelude.{
  ℕ, ◌+◌, ◌-◌, ◌≤◌, ◌<◌, ◌≡◌, refl, sym, ap, ◌∙◌, arith, Bytes, [], ◌++◌, length, take, drop,
  replicate, take-take, write_at, length-append, length-take, length-drop, length-replicate,
  length-write_at, take-append, take-append_le, drop-append_le, drop-drop, drop-take,
  take-drop-split, take-append-drop, drop_all, drop-append, drop-write_at, append_assoc,
}
use cu_ber.Buffer.{
  Buffer, cheap_prepend, initial_size, init, content, readable_bytes, writable_bytes,
  prependable_bytes, retrieve, retrieve_all, make_space, ensure_writable_bytes, has_written,
  copy_in, append, prepend, shrink, retrieve_as_string,
}

-- The indices are in order and inside the vector, which has room for the prependable bytes.
pub record IsValid (b : Buffer) : Type 0 where
  pub readable : b.reader_index ≤ b.writer_index
  pub writable : b.writer_index ≤ length b.buffer
  pub front : cheap_prepend ≤ length b.buffer

zeros : (n : ℕ) → length (replicate {A = ℕ} n 0) ≡ n
zeros n = length-replicate n 0

-- A new buffer is valid and empty, with the room that was asked for.
pub init_lem : (n : ℕ) → IsValid (init n) × (content (init n) ≡ []) × (writable_bytes (init n) ≡ n)
unfolding init content
init_lem n = (omega (arith, zeros (8 + n)), refl, omega (arith, zeros (8 + n)))

pub length-content : {b : Buffer} → IsValid b → length (content b) ≡ readable_bytes b
unfolding content
length-content {b} v = omega (
  arith,
  length-take (b.writer_index - b.reader_index) (drop b.reader_index b.buffer),
  length-drop b.reader_index b.buffer,
)

content_empty : (b : Buffer) → b.writer_index ≡ b.reader_index → content b ≡ []
unfolding content
content_empty b e =
    let e' : b.writer_index - b.reader_index ≡ 0 = omega arith in
    ap (λ n. take n (drop b.reader_index b.buffer)) e'

retrieve_some :
    (n : ℕ) (b : Buffer)
    → n < readable_bytes b
    → content (record b { reader_index = b.reader_index + n }) ≡ drop n (content b)
unfolding content
retrieve_some n b h =
    ap (take (b.writer_index - (b.reader_index + n)))
      (sym (drop-drop b.reader_index n (b.reader_index + n) b.buffer refl))
    ∙ sym (
        drop-take n (b.writer_index - (b.reader_index + n)) (b.writer_index - b.reader_index)
          (drop b.reader_index b.buffer) (omega arith))

-- On a valid buffer `retrieve` takes bytes off the front, all of them if it is asked for more than
-- there are, and the buffer stays valid.
pub retrieve_lem :
    (n : ℕ) {b : Buffer}
    → IsValid b
    → IsValid (retrieve n b) × (content (retrieve n b) ≡ drop n (content b))
unfolding retrieve retrieve_all
retrieve_lem n {b} v = ground (
  arith,
  retrieve_some n b,
  length-content v,
  drop_all n (content b),
  content_empty (record b { reader_index = 8; writer_index = 8 }),
)

grown :
    (b : Buffer) (zeros : Bytes)
    → IsValid b
    → content (record b { buffer = b.buffer ++ zeros }) ≡ content b
unfolding content
grown b zeros v = rw (drop-append_le b.reader_index b.buffer zeros (omega arith)) (
    take-append_le (b.writer_index - b.reader_index) (drop b.reader_index b.buffer) zeros
      (omega (arith, length-drop b.reader_index b.buffer)))

moved :
    (b : Buffer) (n : ℕ)
    → IsValid b
    → n ≡ readable_bytes b
    → cheap_prepend + n ≤ length b.buffer
    → content (record {
      buffer = write_at cheap_prepend (content b) b.buffer;
      reader_index = cheap_prepend;
      writer_index = cheap_prepend + n;
    })
      ≡ content b
unfolding content
moved b n v e h =
    let k : cheap_prepend + n - cheap_prepend ≡ n = omega arith in
    rw (k, drop-write_at 8 (content b) b.buffer (omega arith))
      (take-append n (content b) (drop (8 + length (content b)) b.buffer)
        (omega (arith, length-content v)))

-- `makeSpace`, called where the room is short, makes room for `n` bytes and moves none of the
-- content.
make_space_lem :
    (n : ℕ) {b : Buffer}
    → IsValid b
    → writable_bytes b < n
    → IsValid (make_space n b)
      × (content (make_space n b) ≡ content b)
      × (n ≤ writable_bytes (make_space n b))
unfolding make_space
make_space_lem n {b} v h = ground (
  arith,
  grown b (replicate (b.writer_index + n - length b.buffer) 0) v,
  length-append b.buffer (replicate (b.writer_index + n - length b.buffer) 0),
  zeros (b.writer_index + n - length b.buffer),
  moved b (readable_bytes b) v refl,
  length-content v,
  length-write_at 8 (content b) b.buffer,
)

-- The content before and after a copy of bytes behind it.
pub commit_lem :
    (bytes : Bytes) {b : Buffer}
    → IsValid b
    → length bytes ≤ writable_bytes b
    → IsValid (has_written (length bytes) (copy_in bytes b))
      × (content (has_written (length bytes) (copy_in bytes b)) ≡ content b ++ bytes)
unfolding has_written copy_in content
commit_lem bytes {b} v h = (
  omega (arith, length-write_at b.writer_index bytes b.buffer (omega arith)),
  rw
      (
        drop-append_le b.reader_index (take b.writer_index b.buffer)
            (bytes ++ drop (b.writer_index + length bytes) b.buffer)
            (omega (arith, length-take b.writer_index b.buffer)),
        drop-take b.reader_index (b.writer_index - b.reader_index) b.writer_index b.buffer
            (omega arith),
        ← append_assoc,
      )
      (take-append (b.writer_index + length bytes - b.reader_index) (content b ++ bytes)
        (drop (b.writer_index + length bytes) b.buffer)
        (omega (arith, length-append (content b) bytes, length-content v))),
)

-- `ensureWritableBytes` leaves the room that was asked for in a valid buffer, with the same content.
pub ensure_lem :
    (n : ℕ) {b : Buffer}
    → IsValid b
    → IsValid (ensure_writable_bytes n b)
      × (content (ensure_writable_bytes n b) ≡ content b)
      × (n ≤ writable_bytes (ensure_writable_bytes n b))
unfolding ensure_writable_bytes
ensure_lem n {b} v = ground (arith, make_space_lem n v)

-- `append` puts the bytes behind the content of a valid buffer, whatever the room was, and the buffer
-- stays valid.
pub append_lem :
    (bytes : Bytes) {b : Buffer}
    → IsValid b
    → IsValid (append bytes b) × (content (append bytes b) ≡ content b ++ bytes)
unfolding append
append_lem bytes {b} v =
    let (v', same, room) = ensure_lem (length bytes) v in
    let (v'', joined) = commit_lem bytes v' room in (v'', joined ∙ ap (λ c. c ++ bytes) same)

-- `prepend` puts the bytes in front of the content of a valid buffer, if the prependable bytes hold
-- them, and the buffer stays valid.
pub prepend_lem :
    (bytes : Bytes) {b : Buffer}
    → IsValid b
    → length bytes ≤ prependable_bytes b
    → IsValid (prepend bytes b) × (content (prepend bytes b) ≡ bytes ++ content b)
unfolding prepend content
prepend_lem bytes {b} v h =
    let start = b.reader_index - length bytes in
    let back : start + length bytes ≡ b.reader_index = omega arith in
    let n = b.writer_index - b.reader_index in
    (
      omega (arith, length-write_at start bytes b.buffer (omega arith)),
      rw (drop-write_at start bytes b.buffer (omega arith), back)
          (sym (
              take-drop-split (length bytes) n (b.writer_index - start)
                (bytes ++ drop b.reader_index b.buffer) (omega arith))
            ∙ rw (
              take-append (length bytes) bytes (drop b.reader_index b.buffer) refl,
              drop-append (length bytes) bytes (drop b.reader_index b.buffer) refl,
            )),
    )

-- `shrink` keeps the content of a valid buffer, and the buffer stays valid.
pub shrink_lem :
    (reserve : ℕ) {b : Buffer}
    → IsValid b
    → IsValid (shrink reserve b) × (content (shrink reserve b) ≡ content b)
unfolding shrink
shrink_lem reserve {b} v =
    let (v0, empty, _) = init_lem initial_size in
    let (v1, same, _) = ensure_lem (readable_bytes b + reserve) v0 in
    let (v2, joined) = append_lem (content b) v1 in
    (v2, joined ∙ ap (λ c. c ++ content b) (same ∙ empty))

-- If a valid buffer holds that many bytes, `retrieveAsString(len)` returns the first `len` of them, the
-- others stay, and the buffer stays valid.
pub retrieve_as_string_lem :
    (len : ℕ) {b : Buffer}
    → IsValid b
    → len ≤ readable_bytes b
    → let (s, b') = retrieve_as_string len b in
      (s ++ content b' ≡ content b) × (length s ≡ len) × IsValid b'
unfolding retrieve_as_string
retrieve_as_string_lem len {b} v h =
    let (v', rest) = retrieve_lem len v in
    let front : take len (drop b.reader_index b.buffer) ≡ take len (content b) =
      unfold content in take-take len (readable_bytes b) (drop b.reader_index b.buffer) h in
    (
      rw (rest, front) (take-append-drop len (content b)),
      omega (
        arith,
        length-take len (drop b.reader_index b.buffer),
        length-drop b.reader_index b.buffer,
      ),
      v',
    )

-- A valid buffer with a known content.
abbrev pub Holds : Buffer → Bytes → Type 0
Holds b bytes = IsValid b × (content b ≡ bytes)

pub append-Holds : (x : Bytes) {b : Buffer} {c : Bytes} → Holds b c → Holds (append x b) (c ++ x)
append-Holds x (v, e) = let (v', e') = append_lem x v in (v', e' ∙ ap (λ d. d ++ x) e)

pub Holds-eq : {b : Buffer} {c d : Bytes} → Holds b c → c ≡ d → Holds b d
Holds-eq (v, e) p = (v, e ∙ p)
