-- ===== src/Buffer/Tests.antt =====
-- Runs of the buffer of net/Buffer.h, and its theorems at concrete buffers.
use cu_ber.Prelude.{
  ◌≤◌, ◌≡◌, refl, arith, [], ◌∷◌, ◌++◌, List, length, drop, replicate, codes, some,
}
use cu_ber.Buffer.{
  Buffer, content, writable_bytes, append, retrieve, prepend, make_space, ensure_writable_bytes,
  has_written, copy_in, read_fd, read_capacity, got, extra_size, retrieve_as_string, shrink,
  append_int, read_int, prepend_int, init, unwrite, to_network, find_crlf, search_crlf, find_eol,
}
use cu_ber.Buffer.Content.{IsValid, append_lem}
use cu_ber.Buffer.Queue.{
  Call, appends, prepends, reads, retrieves, retrieves_string, shrinks, unwrites, appends_int,
  retrieves_all_string, nothing, text, calls, all_promised, CanCallAll, calls-all_promised,
}
use cu_ber.Buffer.Reading.{read_fd_lem}
use cu_ber.Buffer.Search.{search_crlf-Found, Found}
use cu_ber.Buffer.Integers.{read_int-append_int, read_int-prepend_int}

-- "cd" stands behind two bytes that have been read; four bytes of room are left.
abbrev used : Buffer
used = record {
  buffer = replicate 8 0 ++ codes "abcd" ++ replicate 4 0;
  reader_index = 10;
  writer_index = 12;
}

abbrev empty : Buffer
empty = record { buffer = replicate 16 0; reader_index = 8; writer_index = 8 }

used-IsValid : IsValid used
used-IsValid = omega arith

empty-IsValid : IsValid empty
empty-IsValid = omega arith

content-used : content used ≡ codes "cd"
unfolding content
content-used = refl

-- Six bytes do not fit behind the content, but they fit once it has moved to the front.
append_moves :
    append (codes "efghij") used
    ≡ record { buffer = replicate 8 0 ++ codes "cdefghij"; reader_index = 8; writer_index = 16 }
unfolding append has_written copy_in ensure_writable_bytes make_space content
append_moves = refl

find_crlf_run : find_crlf (append (codes "a" ++ 13 ∷ 10 ∷ codes "b") empty) ≡ some 1
unfolding find_crlf search_crlf append has_written copy_in ensure_writable_bytes content
find_crlf_run = refl

find_eol_run : find_eol (append (codes "ab" ++ 10 ∷ []) empty) ≡ some 2
unfolding find_eol append has_written copy_in ensure_writable_bytes content
find_eol_run = refl

append_lem_example :
    IsValid (append (codes "efghij") used)
    × (content (append (codes "efghij") used) ≡ content used ++ codes "efghij")
append_lem_example = append_lem (codes "efghij") used-IsValid

read_fd_lem_example :
    IsValid (read_fd (got (codes "efghij")) used)
    × (content (read_fd (got (codes "efghij")) used) ≡ content used ++ codes "efghij")
    × (length (drop (writable_bytes used) (codes "efghij")) ≤ extra_size)
unfolding read_capacity
read_fd_lem_example = read_fd_lem (codes "efghij") used-IsValid (omega arith)

read_int-append_int_example :
    let (y, b') = read_int 4 (append (codes "z") (append_int 4 70000 empty)) in
    (y ≡ 70000) × (content b' ≡ codes "z") × IsValid b'
unfolding content
read_int-append_int_example =
    read_int-append_int 4 70000 (codes "z") empty-IsValid refl (omega arith)

read_int-prepend_int_example :
    let (y, b') = read_int 2 (prepend_int 2 300 used) in
    (y ≡ 300) × (content b' ≡ content used) × IsValid b'
read_int-prepend_int_example = read_int-prepend_int 2 300 used-IsValid (omega arith) (omega arith)

search_crlf-Found_example :
    Found (codes "ab" ++ 13 ∷ 10 ∷ codes "c") (search_crlf (codes "ab" ++ 13 ∷ 10 ∷ codes "c"))
search_crlf-Found_example = search_crlf-Found (codes "ab" ++ 13 ∷ 10 ∷ codes "c")

abbrev some_calls : List Call
some_calls =
    appends (codes "abcdef")
    ∷ retrieves 2
    ∷ appends_int 2 300
    ∷ prepends (codes "xy")
    ∷ retrieves_string 3
    ∷ shrinks 1
    ∷ unwrites 1
    ∷ reads (codes "gh")
    ∷ retrieves_all_string
    ∷ []

some_calls-CanCallAll : CanCallAll some_calls (init 4)
unfolding init append has_written copy_in ensure_writable_bytes make_space content retrieve
    retrieve_as_string append_int to_network prepend shrink unwrite read_capacity
some_calls-CanCallAll = omega arith

promised_run :
    (all_promised some_calls []).1
    ≡ nothing
      ∷ nothing
      ∷ nothing
      ∷ nothing
      ∷ text (codes "xyc")
      ∷ nothing
      ∷ nothing
      ∷ nothing
      ∷ text (codes "def" ++ 1 ∷ codes "gh")
      ∷ []
unfolding all_promised to_network
promised_run = refl

calls-all_promised_example :
    (content (calls some_calls (init 4)).0 ≡ (all_promised some_calls []).0)
    × ((calls some_calls (init 4)).1 ≡ (all_promised some_calls []).1)
calls-all_promised_example = calls-all_promised 4 some_calls some_calls-CanCallAll
