-- ===== src/WebSocket/Message.antt =====
-- What readFrame, readPayload and ReadText of internal/transport/websocket/conn.go let through.
use kokekokkor.Common.{
  ℕ, zero, suc, ◌+◌, ◌/◌, ◌%◌, ◌^◌, ◌≤◌, ◌<◌, ◌≡◌, refl, ap, sym, subst, ◌∙◌, Bool, true, false,
  not, ◌&&◌, ◌||◌, Option, none, some, List, [], ◌∷◌, ◌++◌, length, length-append, Result, ok, err,
  >>=-eq-ok, ltb, leb, leb→le, ltb-false, ◌==◌, ℕ_eq, if◌then◌else◌, if_both, Bool-cases,
  Option-cases, Result-cases, arith, ◌⊎◌, inl, inr,
}
use kokekokkor.WebSocket.{
  Frame, Conn, WsError, header_bytes, or_eof, read_length, read_payload, read_body, read_frame,
  mask_of, write_frame, write_masked, op_ping, op_pong, op_close, op_binary, op_text,
  op_continuation, message_too_large, binary_message, text_during_fragments,
  unexpected_continuation, unsupported_opcode, append_payload, Round, goes_on, ends, take_data,
  answer_ping, handle_frame, read_loop, read_text, write_text,
}
use kokekokkor.WebSocket.RoundTrip.{IsWhole, read_frame-write_frame}
use kokekokkor.WebSocket.Masking.{Mask, length-apply_mask}
use kokekokkor.WebSocket.Wire.{read_full, read_full-length}

or_eof_lem :
    (n : ℕ) (input : List ℕ) (r : List ℕ × List ℕ)
    → or_eof (read_full n input) ≡ ok r
    → (length r.0 ≡ n) × (length r.1 + n ≡ length input)
or_eof_lem n input r e = elim (Option-cases (read_full n input)) [
  | inl nothing ↦ ground (arith, e, nothing)
  | inr (q, full) ↦
      let same : q ≡ r = ground (arith, e, full) in
      read_full-length n input r.0 r.1 (full ∙ ap some same)
]

length-read_payload :
    (masked : Bool) (size : ℕ) (input : List ℕ) (r : List ℕ × List ℕ)
    → read_payload masked size input ≡ ok r
    → (length r.0 ≡ size) × (length r.1 + size ≤ length input)
unfolding read_payload
length-read_payload true size input r e =
    let (k, drawn, then_) = >>=-eq-ok (or_eof (read_full 4 input)) _ e in
    let (p, taken, last) = >>=-eq-ok (or_eof (read_full size k.1)) _ then_ in
    let short = or_eof_lem 4 input k drawn in
    let long = or_eof_lem size k.1 p taken in
    ground (arith, last, short, long, length-apply_mask (mask_of k.0) p.0)
length-read_payload false size input r e =
    let long = or_eof_lem size input r e in omega (arith, long)

length-read_length :
    (short : ℕ) (input : List ℕ) (r : ℕ × List ℕ)
    → read_length short input ≡ ok r
    → length r.1 ≤ length input
unfolding read_length
length-read_length short input r e = elim (Bool-cases (short == 126)) [
  | inl two ↦ elim (Result-cases (or_eof (read_full 2 input))) [
    | inl (q, full) ↦ let fits = or_eof_lem 2 input q full in ground (arith, e, two, full, fits)
    | inr (_, eof) ↦ ground (arith, e, two, eof)
  ]
  | inr other ↦ elim (Bool-cases (short == 127)) [
    | inl eight ↦ elim (Result-cases (or_eof (read_full 8 input))) [
      | inl (q, full) ↦
          let fits = or_eof_lem 8 input q full in ground (arith, e, other, eight, full, fits)
      | inr (_, eof) ↦ ground (arith, e, other, eight, eof)
    ]
    | inr same ↦ ground (arith, e, other, same)
  ]
]

-- A frame that readFrame accepts.
abbrev pub IsAccepted : ℕ → Frame → Type 0
IsAccepted max_bytes f =
    (f.opcode < 16) × (length f.payload ≤ max_bytes) × IsWhole f.fin f.opcode (length f.payload)

control-IsWhole :
    (fin : Bool) (opcode size : ℕ)
    → (leb 0x8 opcode && (not fin || ltb 125 size)) ≡ false
    → IsWhole fin opcode size
control-IsWhole true opcode size h control = ground (arith, h, control)
control-IsWhole false opcode size h control = ground (arith, h, control)

read_body_inv :
    (client : Bool) (max_bytes b0 b1 : ℕ) (input : List ℕ) (r : Frame × List ℕ)
    → read_body client max_bytes b0 b1 input ≡ ok r
    → IsAccepted max_bytes r.0 × (length r.1 ≤ length input)
unfolding read_body
read_body_inv client max_bytes b0 b1 input r e =
    elim (Result-cases (read_length (b1 % 128) input)) [
      | inl (l, read) ↦ elim (Result-cases (read_payload (b1 / 128 % 2 == 1) l.0 l.1)) [
        | inl (p, paid) ↦
            let facts : ((leb 0x8 (b0 % 16) && (not (b0 / 128 % 2 == 1) || ltb 125 l.0)) ≡ false)
                × (ltb max_bytes l.0 ≡ false)
                × (record { fin = b0 / 128 % 2 == 1; opcode = b0 % 16; payload = p.0 } ≡ r.0)
                × (p.1 ≡ r.1) =
              ground (arith, e, read, paid) in
            let (control, small, same, last) = facts in
            let (sized, taken) = length-read_payload (b1 / 128 % 2 == 1) l.0 l.1 p paid in
            let shorter = length-read_length (b1 % 128) input l read in
            let fits = ltb-false max_bytes l.0 small in
            let whole = control-IsWhole (b0 / 128 % 2 == 1) (b0 % 16) l.0 control in
            let sized_whole = subst (IsWhole (b0 / 128 % 2 == 1) (b0 % 16)) (sym sized) whole in
            (
              subst (IsAccepted max_bytes) same
                  (omega arith, omega (arith, sized, fits), sized_whole),
              subst (λ i. length i ≤ length input) last (omega (arith, taken, shorter)),
            )
        | inr (_, bad) ↦ ground (arith, e, read, bad)
      ]
      | inr (_, bad) ↦ ground (arith, e, bad)
    ]

-- An accepted frame has an opcode of four bits, a payload within the limit, and is whole and short if
-- it is a control frame; two bytes at least were read for it.
pub read_frame-IsAccepted :
    (client : Bool) (max_bytes : ℕ) (input : List ℕ) (f : Frame) (rest : List ℕ)
    → read_frame client max_bytes input ≡ ok (f, rest)
    → IsAccepted max_bytes f × (length rest + 2 ≤ length input)
unfolding read_frame
read_frame-IsAccepted client max_bytes [] f rest e = ground (arith, e)
read_frame-IsAccepted client max_bytes (b0 ∷ []) f rest e = ground (arith, e)
read_frame-IsAccepted client max_bytes (b0 ∷ b1 ∷ input) f rest e =
    let (accepted, shorter) = read_body_inv client max_bytes b0 b1 input (f, rest) e in
    (accepted, omega (arith, shorter))

-- The parts of the connection that reading and answering keep.
abbrev pub IsKept : Conn → Conn → Type 0
IsKept c d = (d.input ≡ c.input) × (d.client ≡ c.client) × (d.max_bytes ≡ c.max_bytes)

write_masked-IsKept :
    (header payload : List ℕ) (c : Conn) (masks : List (Option Mask))
    → IsKept c (write_masked header payload c masks).1
unfolding write_masked
write_masked-IsKept header payload c [] = (refl, refl, refl)
write_masked-IsKept header payload c (none ∷ masks) = (refl, refl, refl)
write_masked-IsKept header payload c (some k ∷ masks) = (refl, refl, refl)

pub write_frame-IsKept :
    (fin : Bool) (opcode : ℕ) (payload : List ℕ) (c : Conn)
    → IsKept c (write_frame fin opcode payload c).1
unfolding write_frame
write_frame-IsKept fin opcode payload c =
    let masked =
      write_masked-IsKept (header_bytes fin opcode true (length payload)) payload c c.masks in
    ground (arith, masked)

-- What one round leads to: a buffer within the limit and the same connection, or an end whose message
-- is within the limit.
abbrev pub IsBoundedRound : ℕ → Conn → Round → Type 0
IsBoundedRound max_bytes c (goes_on message still d) = (length message ≤ max_bytes) × IsKept c d
IsBoundedRound max_bytes c (ends out d) =
    ((message : List ℕ) → out ≡ ok message → length message ≤ max_bytes) × IsKept c d

take_data-IsBoundedRound :
    (f : Frame) (message : List ℕ) (fragmented : Bool) (c : Conn)
    → IsBoundedRound c.max_bytes c (take_data f message fragmented c)
unfolding take_data append_payload
take_data-IsBoundedRound f message fragmented c =
    elim (Bool-cases (ltb c.max_bytes (length message + length f.payload))) [
      | inl long ↦
          let end : take_data f message fragmented c ≡ ends (err message_too_large) c =
            rw (take_data, append_payload, long) in
          subst (IsBoundedRound c.max_bytes c) (sym end) ((λ m e. ground (arith, e)), kept)
      | inr fits ↦
          let longer = message ++ f.payload in
          let bound : length longer ≤ c.max_bytes =
            omega (arith, length-append message f.payload, ltb-false _ _ fits) in
          let end : take_data f message fragmented c
              ≡ (if f.fin then ends (ok longer) c else goes_on longer true c) =
            rw (take_data, append_payload, fits) in
          subst (IsBoundedRound c.max_bytes c) (sym end) (
            if_both (IsBoundedRound c.max_bytes c) f.fin ((λ m e. ground (arith, e, bound)), kept)
              (bound, kept))
    ]
  where
    kept : IsKept c c
    kept = (refl, refl, refl)

answer_ping-IsBoundedRound :
    (message : List ℕ) (still : Bool) (payload : List ℕ) (c : Conn)
    → length message ≤ c.max_bytes
    → IsBoundedRound c.max_bytes c (answer_ping message still (write_frame true op_pong payload c))
unfolding answer_ping
answer_ping-IsBoundedRound message still payload c bound =
    let (out, d) = write_frame true op_pong payload c in
    let kept : IsKept c d = write_frame-IsKept true op_pong payload c in answered out d kept
  where
    answered :
        (out : Result WsError (Unit {0})) (d : Conn)
        → IsKept c d
        → IsBoundedRound c.max_bytes c (answer_ping message still (out, d))
    answered (ok _) d kept = (bound, kept)
    answered (err e) d kept = ((λ m e. ground (arith, e)), kept)

handle_frame-IsBoundedRound :
    (f : Frame) (message : List ℕ) (fragmented : Bool) (c : Conn)
    → length message ≤ c.max_bytes
    → IsBoundedRound c.max_bytes c (handle_frame f message fragmented c)
unfolding handle_frame
handle_frame-IsBoundedRound f message fragmented c bound =
    if_both P (f.opcode == op_ping)
      (answer_ping-IsBoundedRound message fragmented f.payload c bound)
      (if_both P (f.opcode == op_pong) (bound, kept)
        (if_both P (f.opcode == op_close)
          ((λ m e. ground (arith, e)), write_frame-IsKept true op_close f.payload c)
          (if_both P (f.opcode == op_binary) (fails binary_message) (
            if_both P (f.opcode == op_text)
              (if_both P fragmented (fails text_during_fragments) data_)
              (if_both P (f.opcode == op_continuation)
                (if_both P fragmented data_ (fails unexpected_continuation))
                (fails (unsupported_opcode f.opcode)))))))
  where
    P : Round → Type 0
    P = IsBoundedRound c.max_bytes c

    kept : IsKept c c
    kept = (refl, refl, refl)

    fails : (e : WsError) → P (ends (err e) c)
    fails e = ((λ m h. ground (arith, h)), kept)

    data_ : P (take_data f message fragmented c)
    data_ = take_data-IsBoundedRound f message fragmented c

Round-cases :
    (r : Round)
    → ((message : List ℕ) × (still : Bool) × (d : Conn) × (r ≡ goes_on message still d))
      ⊎ ((out : Result WsError (List ℕ)) × (d : Conn) × (r ≡ ends out d))
Round-cases (goes_on message still d) = inl (message, still, d, refl)
Round-cases (ends out d) = inr (out, d, refl)

-- With more fuel than bytes the loop ends, and what it returns is within the limit.
read_loop_lem :
    (fuel : ℕ) (message : List ℕ) (fragmented : Bool) (c : Conn)
    → length c.input < fuel
    → length message ≤ c.max_bytes
    → (out : Result WsError (List ℕ)) × (d : Conn) × (read_loop fuel message fragmented c
        ≡ some (out, d))
      × ((m : List ℕ) → out ≡ ok m → length m ≤ c.max_bytes)
unfolding read_loop
read_loop_lem zero message fragmented c h bound = absurd (omega arith)
read_loop_lem (suc fuel) message fragmented c h bound =
    elim (Result-cases (read_frame c.client c.max_bytes c.input)) [
      | inr (fault, bad) ↦ (err fault, c, rw (read_loop, bad), (λ m e. ground (arith, e)))
      | inl (r, good) ↦
          let shorter = (read_frame-IsAccepted c.client c.max_bytes c.input r.0 r.1 good).1 in
          let c1 = record c { input = r.1 } in
          let round = handle_frame-IsBoundedRound r.0 message fragmented c1 bound in
          elim (Round-cases (handle_frame r.0 message fragmented c1)) [
            | inl (longer, still, d, goes) ↦
                let (fits, (left, side, limit)) =
                  subst (IsBoundedRound c.max_bytes c1) goes round in
                let (out, last, runs, within) =
                  read_loop_lem fuel longer still d (omega (arith, ap length left, shorter))
                    (omega (arith, fits, limit)) in
                (
                  out,
                  last,
                  rw (read_loop, good, goes) runs,
                  (λ m e. omega (arith, within m e, limit)),
                )
            | inr (out, d, ended) ↦
                let (within, _) = subst (IsBoundedRound c.max_bytes c1) ended round in
                (out, d, rw (read_loop, good, ended), within)
          ]
    ]

-- ReadText ends on every input; a message that it returns is within the limit.
pub read_text-ends :
    (c : Conn)
    → (out : Result WsError (List ℕ)) × (d : Conn) × (read_text c ≡ some (out, d))
      × ((m : List ℕ) → out ≡ ok m → length m ≤ c.max_bytes)
unfolding read_text
read_text-ends c = read_loop_lem (suc (length c.input)) [] false c (omega arith) (omega arith)

text_round :
    (payload : List ℕ) (c : Conn)
    → length payload ≤ c.max_bytes
    → handle_frame (record { fin = true; opcode = op_text; payload = payload }) [] false c
      ≡ ends (ok payload) c
unfolding handle_frame take_data append_payload
text_round payload c fits =
    let small : ltb c.max_bytes (0 + length payload) ≡ false = ground (arith, fits) in
    ground (arith, small, fits)

-- What WriteText sends is what the other side's ReadText returns.
pub read_text-write_text :
    (payload rest : List ℕ) (c d reader : Conn)
    → length payload ≤ reader.max_bytes
    → length payload < 2 ^ 63
    → reader.client ≡ not c.client
    → write_text payload c ≡ (ok tt, d)
    → (bytes : List ℕ) × (d ≡ record c { output = c.output ++ bytes; masks = d.masks })
      × (read_text (record reader { input = bytes ++ rest })
          ≡ some (ok payload, record reader { input = rest }))
unfolding read_text write_text
read_text-write_text payload rest c d reader fits sized sides e =
    let sent : write_frame true op_text payload c ≡ (ok tt, d) = ground (arith, e) in
    let (bytes, put_, read) =
      read_frame-write_frame true op_text reader.max_bytes payload rest c d (omega arith)
        (λ control. absurd (omega (arith, leb→le 0x8 op_text control))) fits sized sent in
    let got = ap (λ b. read_frame b reader.max_bytes (bytes ++ rest)) sides ∙ read in
    (bytes, put_, rw (read_loop, got, text_round payload (record reader { input = rest }) fits))
