-- ===== src/Buffer/Integers.antt =====
-- The integers of net/Buffer.h: `appendInt64` and its kin, in network byte order.
use native.Mathlib.Nat.{pow-suc}
use cu_ber.Prelude.{
  ℕ, zero, suc, ◌+◌, ◌*◌, ◌/◌, ◌%◌, ◌^◌, ◌≤◌, ◌<◌, ◌≡◌, refl, sym, ap, ◌∙◌, arith, Bytes, [], ◌∷◌,
  ◌++◌, length, take, drop, length-append, take-append, drop-append, take-take,
}
use cu_ber.Buffer.{
  Buffer, content, readable_bytes, prependable_bytes, to_network, from_network, append_int,
  peek_int, read_int, prepend_int, append,
}
use cu_ber.Buffer.Content.{IsValid, append_lem, prepend_lem, retrieve_lem, length-content}

pub length-to_network : (n x : ℕ) → length (to_network n x) ≡ n
unfolding to_network
length-to_network zero x = refl
length-to_network (suc n) x =
    omega (
      arith,
      length-append (to_network n (x / 256)) ((x % 256) ∷ []),
      length-to_network n (x / 256),
    )

from_network_last :
    (acc x : ℕ) (xs : Bytes) → from_network acc (xs ++ x ∷ []) ≡ from_network acc xs * 256 + x
unfolding from_network
from_network_last acc x [] = refl
from_network_last acc x (y ∷ ys) = from_network_last (acc * 256 + y) x ys

-- A word that fits its size comes back from its bytes.
pub from_network-to_network : (n x : ℕ) → x < 256 ^ n → from_network 0 (to_network n x) ≡ x
unfolding to_network
from_network-to_network zero x h = unfold from_network in omega arith
from_network-to_network (suc n) x h =
    let small : x / 256 < 256 ^ n = omega (arith, pow-suc 256 n) in
    let last = from_network_last 0 (x % 256) (to_network n (x / 256)) in
    omega (arith, last, from_network-to_network n (x / 256) small)

peek_front :
    (n x : ℕ) (rest : Bytes) (b : Buffer)
    → IsValid b
    → content b ≡ to_network n x ++ rest
    → x < 256 ^ n
    → peek_int n b ≡ x
unfolding peek_int
peek_front n x rest b v e h =
    let size = length-to_network n x in
    let room : n ≤ readable_bytes b =
      omega (arith, length-content v, ap length e, length-append (to_network n x) rest) in
    let part : take n (drop b.reader_index b.buffer) ≡ take n (content b) =
      unfold content in take-take n (readable_bytes b) (drop b.reader_index b.buffer) room in
    let front : take n (drop b.reader_index b.buffer) ≡ to_network n x =
      part ∙ ap (take n) e ∙ take-append n (to_network n x) rest (sym size) in
    ap (from_network 0) front ∙ from_network-to_network n x h

-- A word of `n` bytes that `appendInt` put into a valid buffer without content, `readInt` takes out
-- again, and leaves just the bytes that were appended behind it in a valid buffer.
pub read_int-append_int :
    (n x : ℕ) (rest : Bytes) {b : Buffer}
    → IsValid b
    → content b ≡ []
    → x < 256 ^ n
    → let (y, b') = read_int n (append rest (append_int n x b)) in
      (y ≡ x) × (content b' ≡ rest) × IsValid b'
unfolding read_int append_int
read_int-append_int n x rest {b} v e h =
    let (v1, e1) = append_lem (to_network n x) v in
    let (v2, e2) = append_lem rest v1 in
    let (v3, e3) = retrieve_lem n v2 in
    let all : content (append rest (append (to_network n x) b)) ≡ to_network n x ++ rest =
      e2 ∙ ap (λ c. c ++ rest) (e1 ∙ ap (λ c. c ++ to_network n x) e) in
    (
      peek_front n x rest _ v2 all h,
      e3 ∙ ap (drop n) all ∙ drop-append n (to_network n x) rest (sym (length-to_network n x)),
      v3,
    )

-- If the prependable bytes of a valid buffer hold a word of `n` bytes, `readInt` takes off what
-- `prependInt` put in front: the content is as before, and the buffer is valid.
pub read_int-prepend_int :
    (n x : ℕ) {b : Buffer}
    → IsValid b
    → n ≤ prependable_bytes b
    → x < 256 ^ n
    → let (y, b') = read_int n (prepend_int n x b) in
      (y ≡ x) × (content b' ≡ content b) × IsValid b'
unfolding read_int prepend_int
read_int-prepend_int n x {b} v room h =
    let (v1, e1) = prepend_lem (to_network n x) v (omega (arith, length-to_network n x)) in
    let (v2, e2) = retrieve_lem n v1 in
    (
      peek_front n x (content b) _ v1 e1 h,
      e2
          ∙ ap (drop n) e1
          ∙ drop-append n (to_network n x) (content b) (sym (length-to_network n x)),
      v2,
    )
