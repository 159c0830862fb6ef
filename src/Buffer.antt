-- ===== src/Buffer.antt =====
-- net/Buffer.h and net/Buffer.cc: the byte buffer of a connection. `vector<char>` is a list of
-- bytes, and an index is a number; the sizes stay below those of an address space, so no index
-- wraps. What an `assert` demands is a hypothesis of the theorems.
pub mod Content
pub mod Reading
pub mod Integers
pub mod Search
pub mod Queue
mod Tests
use cu_ber.Prelude.{
  ℕ, zero, suc, ◌+◌, ◌-◌, ◌*◌, ◌/◌, ◌%◌, Bytes, List, [], ◌∷◌, ◌++◌, Option, none, some, ltb, leb,
  ◌==◌, ◌&&◌, if◌then◌else◌, length, take, drop, replicate, write_at,
}

pub record Buffer : Type 0 where
  pub buffer : Bytes
  pub reader_index : ℕ
  pub writer_index : ℕ

abbrev pub cheap_prepend : ℕ
cheap_prepend = 8

abbrev pub initial_size : ℕ
initial_size = 1024

-- A new vector is filled with zeros.
unfoldable pub init : ℕ → Buffer
init n = record {
  buffer = replicate (cheap_prepend + n) 0;
  reader_index = cheap_prepend;
  writer_index = cheap_prepend;
}

abbrev pub readable_bytes : Buffer → ℕ
readable_bytes b = b.writer_index - b.reader_index

abbrev pub writable_bytes : Buffer → ℕ
writable_bytes b = length b.buffer - b.writer_index

abbrev pub prependable_bytes : Buffer → ℕ
prependable_bytes b = b.reader_index

-- The range from `peek()` to `beginWrite()`: what a reader of the buffer sees.
unfoldable pub content : Buffer → Bytes
content b = take (b.writer_index - b.reader_index) (drop b.reader_index b.buffer)

-- `std::search` for "\r\n": the offset of its first occurrence.
unfoldable pub search_crlf : Bytes → Option ℕ
search_crlf [] = none
search_crlf (x ∷ []) = none
search_crlf (x ∷ y ∷ r) =
    let rest = search_crlf (y ∷ r) in
    if x == 13 && y == 10 then some 0 else elim rest [ none ↦ none | some i ↦ some (suc i) ]

-- `findCRLF()`: a pointer is its distance from `peek()`.
unfoldable pub find_crlf : Buffer → Option ℕ
find_crlf b = search_crlf (content b)

-- `findEOL()`: `memchr` for '\n'.
search_eol : Bytes → Option ℕ
search_eol [] = none
search_eol (x ∷ r) =
    let rest = search_eol r in
    if x == 10 then some 0 else elim rest [ none ↦ none | some i ↦ some (suc i) ]

pub find_eol : Buffer → Option ℕ
unfolding search_eol
find_eol b = search_eol (content b)

unfoldable pub retrieve_all : Buffer → Buffer
retrieve_all b = record b { reader_index = cheap_prepend; writer_index = cheap_prepend }

unfoldable pub retrieve : ℕ → Buffer → Buffer
retrieve len b =
    if ltb len (readable_bytes b)
    then record b { reader_index = b.reader_index + len }
    else retrieve_all b

-- `retrieveUntil(peek() + offset)`
unfoldable pub retrieve_until : ℕ → Buffer → Buffer
retrieve_until offset b = retrieve offset b

pub retrieve_as_string : ℕ → Buffer → Bytes × Buffer
retrieve_as_string len b = (take len (drop b.reader_index b.buffer), retrieve len b)

pub retrieve_all_as_string : Buffer → Bytes × Buffer
retrieve_all_as_string b = retrieve_as_string (readable_bytes b) b

-- `vector::resize` to a size that is not smaller fills up with zeros.
resize : ℕ → Bytes → Bytes
resize n xs = xs ++ replicate (n - length xs) 0

-- The move of the readable bytes to the front is a copy to lower addresses, which `std::copy` allows.
pub make_space : ℕ → Buffer → Buffer
unfolding resize
make_space len b =
    if ltb (writable_bytes b + prependable_bytes b) (len + cheap_prepend)
    then record b { buffer = resize (b.writer_index + len) b.buffer }
    else record b {
      buffer = write_at cheap_prepend (content b) b.buffer;
      reader_index = cheap_prepend;
      writer_index = cheap_prepend + readable_bytes b;
    }

unfoldable pub ensure_writable_bytes : ℕ → Buffer → Buffer
ensure_writable_bytes len b = if ltb (writable_bytes b) len then make_space len b else b

unfoldable pub has_written : ℕ → Buffer → Buffer
has_written len b = record b { writer_index = b.writer_index + len }

pub unwrite : ℕ → Buffer → Buffer
unwrite len b = record b { writer_index = b.writer_index - len }

-- `std::copy(data, data + len, beginWrite())`
unfoldable pub copy_in : Bytes → Buffer → Buffer
copy_in bytes b = record b { buffer = write_at b.writer_index bytes b.buffer }

unfoldable pub append : Bytes → Buffer → Buffer
append bytes b = has_written (length bytes) (copy_in bytes (ensure_writable_bytes (length bytes) b))

pub prepend : Bytes → Buffer → Buffer
prepend bytes b =
    let start = b.reader_index - length bytes in
    record b { reader_index = start; buffer = write_at start bytes b.buffer }

-- A new buffer takes the content over; `swap` hands it to the caller's buffer.
pub shrink : ℕ → Buffer → Buffer
shrink reserve b =
    append (content b) (ensure_writable_bytes (readable_bytes b + reserve) (init initial_size))

-- What `readv` says: bytes that fill the vectors in order, or an error number.
pub data ReadResult : Type 0 where
  got : Bytes → ReadResult
  failed : ℕ → ReadResult

abbrev pub extra_size : ℕ
extra_size = 65536

-- The room in the vectors that are handed to `readv`.
pub read_capacity : Buffer → ℕ
read_capacity b =
    if ltb (writable_bytes b) extra_size then writable_bytes b + extra_size else writable_bytes b

pub read_fd : ReadResult → Buffer → Buffer
read_fd (failed errno) b = b
read_fd (got bytes) b =
    let writable = writable_bytes b in
    if leb (length bytes) writable
    then has_written (length bytes) (copy_in bytes b)
    else append (drop writable bytes)
        (record (copy_in (take writable bytes) b) { writer_index = length b.buffer })

-- `hostToNetwork` and the copy of its result: the bytes of a word of `n` bytes, the highest first.
pub to_network : ℕ → ℕ → Bytes
to_network zero x = []
to_network (suc n) x = to_network n (x / 256) ++ (x % 256) ∷ []

-- `networkToHost` of the bytes that `memcpy` reads.
pub from_network : ℕ → Bytes → ℕ
from_network acc [] = acc
from_network acc (x ∷ xs) = from_network (acc * 256 + x) xs

-- `appendInt8` to `appendInt64`, at the sizes 1, 2, 4 and 8. A signed argument is its bit pattern.
pub append_int : ℕ → ℕ → Buffer → Buffer
append_int size x b = append (to_network size x) b

pub peek_int : ℕ → Buffer → ℕ
peek_int size b = from_network 0 (take size (drop b.reader_index b.buffer))

pub read_int : ℕ → Buffer → ℕ × Buffer
read_int size b = (peek_int size b, retrieve size b)

pub prepend_int : ℕ → ℕ → Buffer → Buffer
prepend_int size x b = prepend (to_network size x) b
