-- ===== src/Logging/Texts.antt =====
-- The text in the buffers of base/AsyncLogging.cc and in what its thread has dealt with.
use cu_ber.Prelude.{
  ◌≡◌, refl, sym, ap, ◌∙◌, Option, none, some, List, [], ◌∷◌, ◌++◌, map, length, take, drop, Bytes,
  ltb, Bool-cases, inl, inr, append_assoc, append-nil, take-append-drop,
}
use cu_ber.Logging.{FixedBuffer, Piece, written, dropped, notice, write_pieces}

unfoldable pub texts : List FixedBuffer → Bytes
texts [] = []
texts (b ∷ bs) = b ++ texts bs

abbrev pub text : Option FixedBuffer → Bytes
text none = []
text (some b) = b

abbrev pub piece_text : Piece → Bytes
piece_text (written b) = b
piece_text (dropped b) = b
piece_text (notice n) = []

unfoldable pub all_text : List Piece → Bytes
all_text [] = []
all_text (p ∷ ps) = piece_text p ++ all_text ps

pub texts-append : (bs cs : List FixedBuffer) → texts (bs ++ cs) ≡ texts bs ++ texts cs
unfolding texts
texts-append [] cs = refl
texts-append (b ∷ bs) cs = simp (texts-append bs cs, append_assoc)

pub texts_last : (bs : List FixedBuffer) (b : FixedBuffer) → texts (bs ++ b ∷ []) ≡ texts bs ++ b
unfolding texts
texts_last bs b = texts-append bs (b ∷ []) ∙ ap (λ t. texts bs ++ t) (append-nil b)

pub all_text-append : (ps qs : List Piece) → all_text (ps ++ qs) ≡ all_text ps ++ all_text qs
unfolding all_text
all_text-append [] qs = refl
all_text-append (p ∷ ps) qs = simp (all_text-append ps qs, append_assoc)

written_lem : (bs : List FixedBuffer) → all_text (map written bs) ≡ texts bs
unfolding all_text texts
written_lem [] = refl
written_lem (b ∷ bs) = ap (λ t. b ++ t) (written_lem bs)

dropped_lem : (bs : List FixedBuffer) → all_text (map dropped bs) ≡ texts bs
unfolding all_text texts
dropped_lem [] = refl
dropped_lem (b ∷ bs) = ap (λ t. b ++ t) (dropped_lem bs)

-- A round deals with the text of all its buffers, in order.
pub all_text-write_pieces : (bs : List FixedBuffer) → all_text (write_pieces bs) ≡ texts bs
unfolding write_pieces all_text
all_text-write_pieces bs = elim (Bool-cases (ltb 25 (length bs))) [
  | inl many ↦ rw many (
      all_text-append (map written (take 2 bs)) (map dropped (drop 2 bs))
      ∙ rw (written_lem (take 2 bs), dropped_lem (drop 2 bs))
          (sym (texts-append (take 2 bs) (drop 2 bs)) ∙ ap texts (take-append-drop 2 bs)))
  | inr few ↦ rw few (written_lem bs)
]
