-- ===== src/WebSocket.antt =====
-- internal/transport/websocket/conn.go: frames and text messages.
-- A byte is a number below 256. The connection is what the code uses of it: the bytes that are left to
-- read, the bytes given to the buffered writer, flushed or not, and the masks that `crypto/rand` will
-- give, `none` for its failure. Reads end with EOF where the bytes do; deadlines and failed writes of
-- the network are left out.
-- Bit tests are written as arithmetic: `b & 0x80 != 0` is `b / 128 % 2 == 1` and so on.
pub mod Masking
pub mod Wire
pub mod RoundTrip
pub mod Message
mod Tests
use kokekokkor.Common.{
  ℕ, zero, suc, ◌+◌, ◌*◌, ◌/◌, ◌%◌, ◌^◌, Bool, true, false, not, ◌&&◌, ◌||◌, Option, none, some,
  List, [], ◌∷◌, ◌++◌, length, Result, ok, err, ◌>>=◌, ◌>>◌, ltb, leb, ◌==◌, ℕ_eq, if◌then◌else◌,
}
use Masking.{Mask, apply_mask}
use Wire.{read_full, be_value, be_bytes}

abbrev pub default_max_message_bytes : ℕ
default_max_message_bytes = 2 ^ 20

abbrev pub op_continuation : ℕ
op_continuation = 0x0

abbrev pub op_text : ℕ
op_text = 0x1

abbrev pub op_binary : ℕ
op_binary = 0x2

abbrev pub op_close : ℕ
op_close = 0x8

abbrev pub op_ping : ℕ
op_ping = 0x9

abbrev pub op_pong : ℕ
op_pong = 0xA

pub data WsError : Type 0 where
  eof closed : WsError
  rsv_bits server_frame_masked client_frame_unmasked : WsError
  invalid_length invalid_control frame_too_large : WsError
  binary_message text_during_fragments unexpected_continuation : WsError
  unsupported_opcode : ℕ → WsError
  message_too_large no_mask : WsError

pub record Frame : Type 0 where
  pub fin : Bool
  pub opcode : ℕ
  pub payload : List ℕ

pub record Conn : Type 0 where
  pub input : List ℕ
  pub output : List ℕ
  pub masks : List (Option Mask)
  pub client : Bool
  pub max_bytes : ℕ

unfoldable pub set_max_message_bytes : ℕ → Conn → Conn
set_max_message_bytes limit c = if ltb 0 limit then record c { max_bytes = limit } else c

abbrev or_eof {ℓ} : {A : Type ℓ} → Option A → Result WsError A
or_eof none = err eof
or_eof (some a) = ok a

-- The extended length, after the seven bits of the second byte.
unfoldable pub read_length : ℕ → List ℕ → Result WsError (ℕ × List ℕ)
read_length short input =
    if short == 126
    then (or_eof (read_full 2 input) >>= λ r. ok (be_value r.0, r.1))
    else if short == 127
    then (or_eof (read_full 8 input) >>= λ r.
        if be_value r.0 / 2 ^ 63 == 0 then ok (be_value r.0, r.1) else err invalid_length)
    else ok (short, input)

abbrev pub mask_of : List ℕ → Mask
mask_of (a ∷ b ∷ c ∷ d ∷ _) = record { m0 = a; m1 = b; m2 = c; m3 = d }
mask_of _ = record { m0 = 0; m1 = 0; m2 = 0; m3 = 0 }

unfoldable pub read_payload : Bool → ℕ → List ℕ → Result WsError (List ℕ × List ℕ)
read_payload true size input = or_eof (read_full 4 input) >>= λ r.
    or_eof (read_full size r.1) >>= λ p. ok (apply_mask (mask_of r.0) p.0, p.1)
read_payload false size input = or_eof (read_full size input)

-- The checks on the two header bytes, in the code's order, then the rest of the frame.
unfoldable pub read_body : Bool → ℕ → ℕ → ℕ → List ℕ → Result WsError (Frame × List ℕ)
read_body client max_bytes b0 b1 input =
    let fin = b0 / 128 % 2 == 1 in
    let opcode = b0 % 16 in
    let masked = b1 / 128 % 2 == 1 in
    if not (b0 / 16 % 8 == 0)
    then err rsv_bits
    else if client && masked
    then err server_frame_masked
    else if not client && not masked
    then err client_frame_unmasked
    else read_length (b1 % 128) input >>= λ l.
        if leb 0x8 opcode && (not fin || ltb 125 l.0)
        then err invalid_control
        else if ltb max_bytes l.0
        then err frame_too_large
        else read_payload masked l.0 l.1 >>= λ p.
            ok (record { fin = fin; opcode = opcode; payload = p.0 }, p.1)

unfoldable pub read_frame : Bool → ℕ → List ℕ → Result WsError (Frame × List ℕ)
read_frame client max_bytes [] = err eof
read_frame client max_bytes (b0 ∷ []) = err eof
read_frame client max_bytes (b0 ∷ b1 ∷ input) = read_body client max_bytes b0 b1 input

-- `b | 0x80` on a byte.
abbrev set_high_bit : ℕ → ℕ
set_high_bit b = b % 128 + 128

abbrev pub first_byte : Bool → ℕ → ℕ
first_byte fin opcode = if fin then set_high_bit opcode else opcode

abbrev mask_bit : Bool → ℕ → ℕ
mask_bit masked b = if masked then set_high_bit b else b

unfoldable pub length_bytes : Bool → ℕ → List ℕ
length_bytes masked size =
    if ltb size 126
    then mask_bit masked size ∷ []
    else if leb size 0xffff
    then mask_bit masked 126 ∷ be_bytes 2 size
    else mask_bit masked 127 ∷ be_bytes 8 size

unfoldable pub header_bytes : Bool → ℕ → Bool → ℕ → List ℕ
unfolding length_bytes
header_bytes fin opcode masked size = first_byte fin opcode ∷ length_bytes masked size

unfoldable pub masked_bytes : Mask → List ℕ → List ℕ
masked_bytes k payload = k.m0 ∷ k.m1 ∷ k.m2 ∷ k.m3 ∷ apply_mask k payload

abbrev pub put : List ℕ → Conn → Conn
put bytes c = record c { output = c.output ++ bytes }

-- A client draws a mask after the header; where that fails the header stays in the buffer.
unfoldable pub write_masked :
    List ℕ → List ℕ → Conn → List (Option Mask) → Result WsError (Unit {0}) × Conn
write_masked header payload c [] = (err no_mask, put header c)
write_masked header payload c (none ∷ masks) =
    (err no_mask, record c { output = c.output ++ header; masks = masks })
write_masked header payload c (some k ∷ masks) =
    (ok tt, record c { output = c.output ++ (header ++ masked_bytes k payload); masks = masks })

unfoldable pub write_frame : Bool → ℕ → List ℕ → Conn → Result WsError (Unit {0}) × Conn
unfolding write_masked header_bytes
write_frame fin opcode payload c =
    if c.client
    then write_masked (header_bytes fin opcode true (length payload)) payload c c.masks
    else (ok tt, put (header_bytes fin opcode false (length payload) ++ payload) c)

unfoldable pub append_payload : ℕ → List ℕ → List ℕ → Result WsError (List ℕ)
append_payload max_bytes message payload =
    if ltb max_bytes (length message + length payload)
    then err message_too_large
    else ok (message ++ payload)

-- What one round of `ReadText`'s loop does with a frame: go on with a new buffer, or end.
pub data Round : Type 0 where
  goes_on : List ℕ → Bool → Conn → Round
  ends : Result WsError (List ℕ) → Conn → Round

unfoldable pub take_data : Frame → List ℕ → Bool → Conn → Round
take_data f message fragmented c = elim (append_payload c.max_bytes message f.payload) [
  | err e ↦ ends (err e) c
  | ok longer ↦ if f.fin then ends (ok longer) c else goes_on longer true c
]

unfoldable pub answer_ping : List ℕ → Bool → Result WsError (Unit {0}) × Conn → Round
answer_ping message fragmented (ok _, c) = goes_on message fragmented c
answer_ping message fragmented (err e, c) = ends (err e) c

unfoldable pub handle_frame : Frame → List ℕ → Bool → Conn → Round
unfolding take_data answer_ping
handle_frame f message fragmented c =
    if f.opcode == op_ping
    then answer_ping message fragmented (write_frame true op_pong f.payload c)
    else if f.opcode == op_pong
    then goes_on message fragmented c
    else if f.opcode == op_close
    then ends (err closed) (write_frame true op_close f.payload c).1
    else if f.opcode == op_binary
    then ends (err binary_message) c
    else if f.opcode == op_text
    then (if fragmented
        then ends (err text_during_fragments) c
        else take_data f message fragmented c)
    else if f.opcode == op_continuation
    then (if fragmented
        then take_data f message fragmented c
        else ends (err unexpected_continuation) c)
    else ends (err (unsupported_opcode f.opcode)) c

-- The loop of `ReadText`. Each round that goes on has read a frame, of two bytes at least, so the
-- bytes that are left bound the rounds; `none` is fuel that ran out.
unfoldable pub read_loop : ℕ → List ℕ → Bool → Conn → Option (Result WsError (List ℕ) × Conn)
read_loop zero message fragmented c = none
read_loop (suc fuel) message fragmented c = elim (read_frame c.client c.max_bytes c.input) [
  | err e ↦ some (err e, c)
  | ok r ↦ elim (handle_frame r.0 message fragmented (record c { input = r.1 })) [
    | goes_on longer still next ↦ read_loop fuel longer still next
    | ends out last ↦ some (out, last)
  ]
]

unfoldable pub read_text : Conn → Option (Result WsError (List ℕ) × Conn)
unfolding read_loop
read_text c = read_loop (suc (length c.input)) [] false c

unfoldable pub write_text : List ℕ → Conn → Result WsError (Unit {0}) × Conn
write_text payload c =
    if ltb c.max_bytes (length payload)
    then (err message_too_large, c)
    else write_frame true op_text payload c
