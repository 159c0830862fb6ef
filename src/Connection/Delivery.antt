-- ===== src/Connection/Delivery.antt =====
-- What net/TcpConnection.cc makes of the bytes that it is given to send, through all the orders of
-- events.
use cu_ber.Prelude.{
  ◌+◌, ◌≡◌, refl, sym, ap, subst, ◌∙◌, arith, Bytes, Bool, true, false, [], ◌∷◌, ◌++◌, ◌&&◌,
  if◌then◌else◌, length, take, drop, leb, ltb, Bool-cases, inl, inr, append-nil, append_assoc,
  take_all, take-append-drop,
}
use cu_ber.Buffer.{Buffer, content, readable_bytes, append}
use cu_ber.Buffer.Content.{IsValid, append_lem, length-content}
use cu_ber.Connection.{
  Connection, Written, wrote, refused, WriteError, is_fault, is_disconnected, keep_rest,
  write_directly, send_in_loop,
}
use cu_ber.Connection.Steps.{MayAnswer, kept_of, is_idle, kept}

-- What has been given is what the kernel took and what waits, in this order. Until the connection is
-- down, bytes wait only while the channel is asked to write, and the writing side has no end before
-- that is over.
pub record Flows (out : Buffer) (wire : Bytes) (writing down shut : Bool) (sent : Bytes)
    : Type 0 where
  pub valid : IsValid out
  pub flow : wire ++ content out ≡ sent
  pub busy : writing ≡ false → down ≡ false → readable_bytes out ≡ 0
  pub over : shut ≡ true → down ≡ false → writing ≡ false

abbrev pub IsSound : Connection → Bytes → Type 0
IsSound c sent =
    Flows c.output_buffer c.wire c.channel.is_writing (is_disconnected c.state) c.write_shut sent

pub branch-IsSound :
    (t : Bool) (c d : Connection) (s x y : Bytes)
    → (t ≡ true → IsSound c (s ++ x))
    → (t ≡ false → IsSound d (s ++ y))
    → IsSound (if t then c else d) (s ++ (if t then x else y))
branch-IsSound true c d s x y f g = f refl
branch-IsSound false c d s x y f g = g refl

pub either-IsSound :
    (t : Bool) (c d : Connection) (s : Bytes)
    → (t ≡ true → IsSound c s)
    → (t ≡ false → IsSound d s)
    → IsSound (if t then c else d) s
either-IsSound true c d s f g = f refl
either-IsSound false c d s f g = g refl

pub same-IsSound : (c : Connection) {s t : Bytes} → IsSound c s → s ≡ t → IsSound c t
same-IsSound c w e = subst (IsSound c) e w

pub content_none : {b : Buffer} → IsValid b → readable_bytes b ≡ 0 → content b ≡ []
content_none {b} v e = empty (content b) (length-content v ∙ e)
  where
    empty : (xs : Bytes) → length xs ≡ 0 → xs ≡ []
    empty [] h = refl
    empty (x ∷ xs) h = absurd (omega arith)

-- Bytes that the kernel takes while nothing waits.
taken-IsSound :
    (x : Bytes) (c : Connection) {s : Bytes}
    → IsSound c s
    → readable_bytes c.output_buffer ≡ 0
    → IsSound (record c { wire = c.wire ++ x }) (s ++ x)
taken-IsSound x c {s} w none = record {
  valid = w.valid;
  flow =
      ap (λ t. (c.wire ++ x) ++ t) (content_none w.valid none)
      ∙ append-nil (c.wire ++ x)
      ∙ ap (λ t. t ++ x)
          (sym (append-nil c.wire)
            ∙ ap (λ t. c.wire ++ t) (sym (content_none w.valid none))
            ∙ w.flow);
  busy = w.busy;
  over = w.over;
}

keep_rest-IsSound :
    (bytes : Bytes) (c : Connection) {s : Bytes}
    → IsSound c s
    → c.write_shut ≡ false
    → IsSound (keep_rest bytes c) (s ++ bytes)
unfolding keep_rest
keep_rest-IsSound [] c w unshut = same-IsSound c w (sym (append-nil _))
keep_rest-IsSound (x ∷ xs) c {s} w unshut =
    elim (Bool-cases (
      leb c.high_water_mark (readable_bytes c.output_buffer + length (x ∷ xs))
      && (ltb (readable_bytes c.output_buffer) c.high_water_mark && c.has_high_water))) [
        | inl high ↦ rw high waits
        | inr low ↦ rw low waits
      ]
  where
    waits :
        Flows
          (append (x ∷ xs) c.output_buffer)
          c.wire
          true
          (is_disconnected c.state)
          c.write_shut
          (s ++ x ∷ xs)
    waits =
        let (v, joined) = append_lem (x ∷ xs) w.valid in
        record {
          valid = v;
          flow =
              ap (λ t. c.wire ++ t) joined
              ∙ sym (append_assoc c.wire _ _)
              ∙ ap (λ t. t ++ x ∷ xs) w.flow;
          busy = λ e. ground arith;
          over = λ e. ground arith;
        }

-- What `write` may do at the end of the writing side, said of a connection that is up.
write_directly-IsSound :
    (w : Written) (bytes : Bytes) (c : Connection) {s : Bytes}
    → IsSound c s
    → MayAnswer w (length bytes) c.write_shut
    → readable_bytes c.output_buffer ≡ 0
    → IsSound (write_directly w bytes c) (s ++ kept_of w bytes true)
unfolding write_directly
write_directly-IsSound (wrote n) bytes c {s} f (low, unshut) none =
    elim (Bool-cases (leb (length bytes) n)) [
      | inl all ↦
          let whole : take n bytes ≡ bytes = take_all n bytes (ground arith) in
          rw all (
            either-IsSound c.has_write_complete _ _ (s ++ bytes)
              (λ e.
                same-IsSound (record c { wire = c.wire ++ take n bytes }) taken
                  (ap (λ t. s ++ t) whole))
              (λ e.
                same-IsSound (record c { wire = c.wire ++ take n bytes }) taken
                  (ap (λ t. s ++ t) whole)))
      | inr part ↦ rw part (
          same-IsSound (keep_rest (drop n bytes) (record c { wire = c.wire ++ take n bytes }))
            (keep_rest-IsSound (drop n bytes) (record c { wire = c.wire ++ take n bytes }) taken
              unshut)
            (append_assoc s _ _ ∙ ap (λ t. s ++ t) (take-append-drop n bytes)))
    ]
  where
    taken : IsSound (record c { wire = c.wire ++ take n bytes }) (s ++ take n bytes)
    taken = taken-IsSound (take n bytes) c f none
write_directly-IsSound (refused e) bytes c {s} f m none = elim (Bool-cases (is_fault e)) [
  | inl fault ↦ rw (fault) (same-IsSound c f (sym (append-nil s)))
  | inr later ↦ rw (later) (keep_rest-IsSound bytes c f (unshut e c.write_shut later m))
]
  where
    unshut :
        (e : WriteError) (shut : Bool)
        → is_fault e ≡ false
        → MayAnswer (refused e) (length bytes) shut
        → shut ≡ false
    unshut e false l m = refl
    unshut e true l m = cc (ap is_fault m)

pub send_in_loop-IsSound :
    (w : Written) (bytes : Bytes) (c : Connection) {s : Bytes}
    → IsSound c s
    → MayAnswer w (length bytes) c.write_shut
    → IsSound (send_in_loop w bytes c) (s ++ kept w bytes c)
unfolding send_in_loop
send_in_loop-IsSound w bytes c {s} f m =
    branch-IsSound (is_disconnected c.state) _ _ s _ _
      (λ down. same-IsSound c f (sym (append-nil s)))
      (λ up. elim (Bool-cases (is_idle c)) [
        | inl idle ↦ rw idle (write_directly-IsSound w bytes c f m (ground (arith, idle)))
        | inr busy ↦ rw busy (queued w up busy m)
      ])
  where
    writes : is_disconnected c.state ≡ false → is_idle c ≡ false → c.channel.is_writing ≡ true
    writes up busy = elim (Bool-cases c.channel.is_writing) [
      | inl on ↦ on
      | inr off ↦ ground (arith, busy, f.busy off up)
    ]

    unshut : is_disconnected c.state ≡ false → is_idle c ≡ false → c.write_shut ≡ false
    unshut up busy = elim (Bool-cases c.write_shut) [
      | inl shut ↦ cc (writes up busy, f.over shut up)
      | inr fine ↦ fine
    ]

    queued :
        (w : Written)
        → is_disconnected c.state ≡ false
        → is_idle c ≡ false
        → MayAnswer w (length bytes) c.write_shut
        → IsSound (keep_rest bytes c) (s ++ kept_of w bytes false)
    queued (wrote n) up busy m = keep_rest-IsSound bytes c f (unshut up busy)
    queued (refused e) up busy m = keep_rest-IsSound bytes c f (unshut up busy)
