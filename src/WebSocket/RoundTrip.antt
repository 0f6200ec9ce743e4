-- ===== src/WebSocket/RoundTrip.antt =====
-- writeFrame and readFrame of internal/transport/websocket/conn.go against each other.
use mathlib.Core.List.{append_assoc}
use kokekokkor.Common.{
  ℕ, ◌+◌, ◌/◌, ◌%◌, ◌^◌, ◌≤◌, ◌<◌, ◌≡◌, refl, ap, sym, ◌∙◌, Bool, true, false, not, ◌&&◌, ◌||◌,
  Option, none, some, List, [], ◌∷◌, ◌++◌, length, ok, ltb, leb, ltb→lt, leb→le, ◌==◌, ℕ_eq,
  if◌then◌else◌, Bool-cases, arith, inl, inr,
}
use kokekokkor.WebSocket.{
  first_byte, Conn, read_length, read_payload, read_body, read_frame, length_bytes, header_bytes,
  masked_bytes, write_frame, write_masked,
}
use kokekokkor.WebSocket.Masking.{Mask, apply_mask, apply_mask_twice, length-apply_mask}
use kokekokkor.WebSocket.Wire.{
  read_full, be_bytes, read_full-append, length-be_bytes, be_value-be_bytes_two,
  be_value-be_bytes_eight,
}

abbrev bit_value : Bool → ℕ
bit_value b = if b then 1 else 0

-- `read_full n` of n bytes and a rest.
read_full-append_at :
    (n : ℕ) (bs rest : List ℕ) → length bs ≡ n → read_full n (bs ++ rest) ≡ some (bs, rest)
read_full-append_at n bs rest e =
    ap (λ k. read_full k (bs ++ rest)) (sym e) ∙ read_full-append bs rest

read_length_two :
    (size : ℕ) (rest : List ℕ)
    → size < 2 ^ 16
    → read_length 126 (be_bytes 2 size ++ rest) ≡ ok (size, rest)
unfolding read_length
read_length_two size rest h = rw (
  read_full-append_at 2 (be_bytes 2 size) rest (length-be_bytes 2 size),
  be_value-be_bytes_two size h,
)

read_length_eight :
    (size : ℕ) (rest : List ℕ)
    → size < 2 ^ 63
    → read_length 127 (be_bytes 8 size ++ rest) ≡ ok (size, rest)
unfolding read_length
read_length_eight size rest h =
    let z : size / 2 ^ 63 ≡ 0 = omega arith in
    rw (
      read_full-append_at 8 (be_bytes 8 size) rest (length-be_bytes 8 size),
      be_value-be_bytes_eight size (omega arith),
      z,
    )

read_length_short :
    (size : ℕ) (rest : List ℕ) → size < 126 → read_length size rest ≡ ok (size, rest)
unfolding read_length
read_length_short size rest h = ground arith

-- The length bytes are one byte, with the mask bit, and an extension that reads back as the size.
IsLength : Bool → ℕ → List ℕ → List ℕ → Type 0
IsLength masked size rest bytes =
    (b : ℕ) × (more : List ℕ) × (bytes ≡ b ∷ more)
    × ((b / 128 % 2 == 1) ≡ masked)
    × (read_length (b % 128) (more ++ rest) ≡ ok (size, rest))

short-IsLength :
    (masked : Bool) (size : ℕ) (rest : List ℕ)
    → size < 126
    → ltb size 126 ≡ true
    → IsLength masked size rest (length_bytes masked size)
unfolding IsLength length_bytes
short-IsLength true size rest k e =
    let same : (size % 128 + 128) % 128 ≡ size = omega arith in
    let bit : (size % 128 + 128) / 128 % 2 ≡ 1 = omega arith in
    (
      size % 128 + 128,
      [],
      ground (arith, e),
      rw bit,
      ap (λ n. read_length n rest) same ∙ read_length_short size rest k,
    )
short-IsLength false size rest k e =
    let same : size % 128 ≡ size = omega arith in
    let bit : size / 128 % 2 ≡ 0 = omega arith in
    (
      size,
      [],
      ground (arith, e),
      rw bit,
      ap (λ n. read_length n rest) same ∙ read_length_short size rest k,
    )

two-IsLength :
    (masked : Bool) (size : ℕ) (rest : List ℕ)
    → ltb size 126 ≡ false
    → leb size 0xffff ≡ true
    → IsLength masked size rest (length_bytes masked size)
unfolding IsLength length_bytes
two-IsLength true size rest e f =
    let bound = leb→le size 0xffff f in
    (254, be_bytes 2 size, ground (arith, e, f), refl, read_length_two size rest (omega arith))
two-IsLength false size rest e f =
    let bound = leb→le size 0xffff f in
    (126, be_bytes 2 size, ground (arith, e, f), refl, read_length_two size rest (omega arith))

eight-IsLength :
    (masked : Bool) (size : ℕ) (rest : List ℕ)
    → ltb size 126 ≡ false
    → leb size 0xffff ≡ false
    → size < 2 ^ 63
    → IsLength masked size rest (length_bytes masked size)
unfolding IsLength length_bytes
eight-IsLength true size rest e f h =
    (255, be_bytes 8 size, ground (arith, e, f), refl, read_length_eight size rest h)
eight-IsLength false size rest e f h =
    (127, be_bytes 8 size, ground (arith, e, f), refl, read_length_eight size rest h)

length_bytes-IsLength :
    (masked : Bool) (size : ℕ) (rest : List ℕ)
    → size < 2 ^ 63
    → IsLength masked size rest (length_bytes masked size)
length_bytes-IsLength masked size rest h = elim (Bool-cases (ltb size 126)) [
  | inl short ↦ short-IsLength masked size rest (ltb→lt size 126 short) short
  | inr long ↦ elim (Bool-cases (leb size 0xffff)) [
    | inl two ↦ two-IsLength masked size rest long two
    | inr eight ↦ eight-IsLength masked size rest long eight h
  ]
]

read_payload_plain :
    (payload rest : List ℕ)
    → read_payload false (length payload) (payload ++ rest) ≡ ok (payload, rest)
unfolding read_payload
read_payload_plain payload rest = rw (read_full-append payload rest)

read_payload_masked :
    (k : Mask) (payload rest : List ℕ)
    → read_payload true (length payload) (masked_bytes k payload ++ rest) ≡ ok (payload, rest)
unfolding read_payload masked_bytes
read_payload_masked k payload rest =
    let drawn = read_full-append (k.m0 ∷ k.m1 ∷ k.m2 ∷ k.m3 ∷ []) (apply_mask k payload ++ rest) in
    let sent =
      read_full-append_at (length payload) (apply_mask k payload) rest
        (length-apply_mask k payload) in
    rw (drawn, sent, apply_mask_twice k payload)

-- RFC 6455 wants control frames whole and short.
abbrev pub IsWhole : Bool → ℕ → ℕ → Type 0
IsWhole fin opcode size = leb 0x8 opcode ≡ true → (fin ≡ true) × (size ≤ 125)

control_check :
    (fin : Bool) (opcode size : ℕ)
    → IsWhole fin opcode size
    → (leb 0x8 opcode && (not fin || ltb 125 size)) ≡ false
control_check fin opcode size h = elim (Bool-cases (leb 0x8 opcode)) [
  | inl control ↦
      let (whole, short) = h control in
      let not_long : ltb 125 size ≡ false = ground (arith, short) in rw (control, whole, not_long)
  | inr small ↦ rw small
]

read_body_lem :
    (masked : Bool) (max_bytes b0 b1 size : ℕ) (fin : Bool) (opcode : ℕ)
    (input tail payload rest : List ℕ)
    → b0 / 16 % 8 ≡ 0
    → (b0 / 128 % 2 == 1) ≡ fin
    → b0 % 16 ≡ opcode
    → (b1 / 128 % 2 == 1) ≡ masked
    → read_length (b1 % 128) input ≡ ok (size, tail)
    → (leb 0x8 opcode && (not fin || ltb 125 size)) ≡ false
    → ltb max_bytes size ≡ false
    → read_payload masked size tail ≡ ok (payload, rest)
    → read_body (not masked) max_bytes b0 b1 input
      ≡ ok (record { fin = fin; opcode = opcode; payload = payload }, rest)
unfolding read_body
read_body_lem true max_bytes b0 b1 size fin opcode input tail payload rest r f o m l c x p =
    rw (r, m, l, f, o, c, x, p)
read_body_lem false max_bytes b0 b1 size fin opcode input tail payload rest r f o m l c x p =
    rw (r, m, l, f, o, c, x, p)

first_byte_lem :
    (fin : Bool) (opcode : ℕ)
    → opcode < 16
    → (first_byte fin opcode / 16 % 8 ≡ 0)
      × (first_byte fin opcode / 128 % 2 ≡ bit_value fin)
      × (first_byte fin opcode % 16 ≡ opcode)
first_byte_lem true opcode h = (omega arith, omega arith, omega arith)
first_byte_lem false opcode h = (omega arith, omega arith, omega arith)

bit_value_lem : (fin : Bool) → (bit_value fin == 1) ≡ fin
bit_value_lem true = refl
bit_value_lem false = refl

-- What was sent with the mask bit is read by the other side.
frame_lem :
    (masked fin : Bool) (opcode max_bytes : ℕ) (payload body rest : List ℕ)
    → opcode < 16
    → IsWhole fin opcode (length payload)
    → length payload ≤ max_bytes
    → length payload < 2 ^ 63
    → read_payload masked (length payload) (body ++ rest) ≡ ok (payload, rest)
    → read_frame
        (not masked)
        max_bytes
        ((header_bytes fin opcode masked (length payload) ++ body) ++ rest)
      ≡ ok (record { fin = fin; opcode = opcode; payload = payload }, rest)
unfolding read_frame header_bytes IsLength
frame_lem masked fin opcode max_bytes payload body rest small whole fits sized p =
    let (b, more, split, bit, reads) =
      length_bytes-IsLength masked (length payload) (body ++ rest) sized in
    let (rsv, high, low) = first_byte_lem fin opcode small in
    let shape : (length_bytes masked (length payload) ++ body) ++ rest
        ≡ b ∷ (more ++ (body ++ rest)) =
      ap (λ bytes. (bytes ++ body) ++ rest) split
      ∙ ap (λ bytes. b ∷ bytes) (append_assoc more body rest) in
    ap (λ bytes. read_frame (not masked) max_bytes (first_byte fin opcode ∷ bytes)) shape
    ∙ read_body_lem masked max_bytes (first_byte fin opcode) b (length payload) fin opcode
        (more ++ (body ++ rest)) (body ++ rest) payload rest rsv
        (ap (λ n. n == 1) high ∙ bit_value_lem fin) low bit reads
        (control_check fin opcode (length payload) whole) (ground (arith, fits)) p

write_masked_lem :
    (header payload : List ℕ) (c d : Conn) (masks : List (Option Mask))
    → write_masked header payload c masks ≡ (ok tt, d)
    → (k : Mask) × (d
        ≡ record c { output = c.output ++ (header ++ masked_bytes k payload); masks = d.masks })
unfolding write_masked
write_masked_lem header payload c d [] e = ground (arith, e)
write_masked_lem header payload c d (none ∷ masks) e = ground (arith, e)
write_masked_lem header payload c d (some k ∷ masks) e =
    let same = ap (λ r. r.1) e in
    let left : masks ≡ d.masks = ap (λ r. r.1.masks) e in
    (
      k,
      sym same
          ∙ ap
              (λ m. record c { output = c.output ++ (header ++ masked_bytes k payload); masks = m })
              left,
    )

-- The bytes that `write_frame` puts out read back as the frame at the other side.
pub read_frame-write_frame :
    (fin : Bool) (opcode max_bytes : ℕ) (payload rest : List ℕ) (c d : Conn)
    → opcode < 16
    → IsWhole fin opcode (length payload)
    → length payload ≤ max_bytes
    → length payload < 2 ^ 63
    → write_frame fin opcode payload c ≡ (ok tt, d)
    → (bytes : List ℕ) × (d ≡ record c { output = c.output ++ bytes; masks = d.masks })
      × (read_frame (not c.client) max_bytes (bytes ++ rest)
          ≡ ok (record { fin = fin; opcode = opcode; payload = payload }, rest))
unfolding write_frame write_masked
read_frame-write_frame fin opcode max_bytes payload rest c d small whole fits sized e =
    elim (Bool-cases c.client) [
      | inl client ↦
          let header = header_bytes fin opcode true (length payload) in
          let sent : write_masked header payload c c.masks ≡ (ok tt, d) =
            ground (arith, e, client) in
          let (k, same) = write_masked_lem header payload c d c.masks sent in
          (
            header ++ masked_bytes k payload,
            same,
            ap (λ b. read_frame (not b) max_bytes ((header ++ masked_bytes k payload) ++ rest))
                  client
                ∙ frame_lem true fin opcode max_bytes payload (masked_bytes k payload) rest small
                    whole fits sized (read_payload_masked k payload rest),
          )
      | inr server ↦
          let header = header_bytes fin opcode false (length payload) in
          let sent : record c { output = c.output ++ (header ++ payload) } ≡ d =
            ground (arith, e, server) in
          let left : c.masks ≡ d.masks = ap (λ x. x.masks) sent in
          (
            header ++ payload,
            sym sent
                ∙ ap (λ m. record c { output = c.output ++ (header ++ payload); masks = m }) left,
            ap (λ b. read_frame (not b) max_bytes ((header ++ payload) ++ rest)) server
                ∙ frame_lem false fin opcode max_bytes payload payload rest small whole fits sized
                    (read_payload_plain payload rest),
          )
    ]
