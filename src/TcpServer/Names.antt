-- ===== src/TcpServer/Names.antt =====
-- Two connections of net/TcpServer.cc never have the same name.
use cu_ber.Prelude.{
  ℕ, ◌≡◌, refl, sym, ap, ◌∙◌, arith, ◌++◌, Bytes, ◌==◌, show_nat_inj, eq_bytes, eq_bytes_iff,
  length, drop, drop-append,
}
use cu_ber.TcpServer.{conn_name}

same_end : (xs ys zs : Bytes) → xs ++ ys ≡ xs ++ zs → ys ≡ zs
same_end xs ys zs e =
    sym (drop-append (length xs) xs ys refl)
    ∙ ap (drop (length xs)) e
    ∙ drop-append (length xs) xs zs refl

conn_name_inj : (n p : Bytes) (i j : ℕ) → conn_name n p i ≡ conn_name n p j → i ≡ j
unfolding conn_name
conn_name_inj n p i j e =
    show_nat_inj i j (ap (drop 1) (same_end p _ _ (ap (drop 1) (same_end n _ _ e))))

pub same_name : (n p : Bytes) (i j : ℕ) → eq_bytes (conn_name n p i) (conn_name n p j) ≡ (i == j)
same_name n p i j = ground (
  arith,
  eq_bytes_iff (conn_name n p i) (conn_name n p j),
  conn_name_inj n p i j,
  ap (conn_name n p),
)
