-- ===== src/Buffer/Reading.antt =====
-- `readFd` of net/Buffer.cc, which may go over the writable bytes.
use cu_ber.Prelude.{
  ◌+◌, ◌≤◌, ◌≡◌, ap, ◌∙◌, arith, inl, inr, Bytes, ◌++◌, length, take, drop, subst, length-take,
  length-drop, take-append-drop, append_assoc, Bool-cases, leb,
}
use cu_ber.Buffer.{
  Buffer, content, writable_bytes, has_written, copy_in, read_fd, read_capacity, got, extra_size,
}
use cu_ber.Buffer.Content.{IsValid, append_lem, commit_lem}

-- The first part of a read that fills the writable bytes.
fill_lem :
    (bytes : Bytes) {b : Buffer}
    → IsValid b
    → length bytes ≡ writable_bytes b
    → IsValid (record (copy_in bytes b) { writer_index = length b.buffer })
      × (content (record (copy_in bytes b) { writer_index = length b.buffer }) ≡ content b ++ bytes)
fill_lem bytes {b} v h =
    let end : b.writer_index + length bytes ≡ length b.buffer = omega arith in
    subst
      (λ n.
        IsValid (record (copy_in bytes b) { writer_index = n })
        × (content (record (copy_in bytes b) { writer_index = n }) ≡ content b ++ bytes))
      end (unfold has_written copy_in in commit_lem bytes v (omega arith))

-- On a valid buffer `readFd` puts what the system read behind the content, whether or not it went
-- over the writable bytes, if no more was read than the vectors hold; the buffer stays valid, and what
-- went over fits the array on the stack.
pub read_fd_lem :
    (bytes : Bytes) {b : Buffer}
    → IsValid b
    → length bytes ≤ read_capacity b
    → IsValid (read_fd (got bytes) b)
      × (content (read_fd (got bytes) b) ≡ content b ++ bytes)
      × (length (drop (writable_bytes b) bytes) ≤ extra_size)
unfolding read_fd read_capacity
read_fd_lem bytes {b} v h = elim (Bool-cases (leb (length bytes) (writable_bytes b))) [
  | inl fits ↦
      let (v', joined) = commit_lem bytes v (ground arith) in
      rw fits (v', joined, ground (arith, length-drop (writable_bytes b) bytes))
  | inr over ↦
      let w = writable_bytes b in
      let (v1, first) = fill_lem (take w bytes) v (ground (arith, length-take w bytes)) in
      let (v2, joined) = append_lem (drop w bytes) v1 in
      rw over (
        v2,
        joined ∙ ap (λ c. c ++ drop w bytes) first ∙ rw (append_assoc, take-append-drop w bytes),
        ground (arith, length-drop w bytes),
      )
]
