-- ===== src/WebSocket/Tests.antt =====
-- Runs of conn.go's model: a masked client frame read by the server, a fragmented message with a ping.
use kokekokkor.Common.{
  ℕ, ◌+◌, ◌≤◌, ◌≡◌, refl, true, false, some, List, [], ◌∷◌, ◌++◌, length, Result, ok, err, arith,
}
use kokekokkor.WebSocket.{
  Conn, WsError, invalid_control, op_text, header_bytes, length_bytes, masked_bytes, read_length,
  read_payload, read_body, read_frame, write_frame, write_masked, append_payload, take_data,
  answer_ping, handle_frame, read_loop, read_text, write_text, default_max_message_bytes,
}
use kokekokkor.WebSocket.Masking.{Mask, apply_mask}
use kokekokkor.WebSocket.Wire.{read_full, be_from, be_value, be_bytes}
use kokekokkor.WebSocket.RoundTrip.{IsWhole, read_frame-write_frame}
use kokekokkor.WebSocket.Message.{
  IsAccepted, read_frame-IsAccepted, read_text-ends, read_text-write_text,
}

abbrev first_mask : Mask
first_mask = record { m0 = 1; m1 = 2; m2 = 3; m3 = 4 }

abbrev client_end : Conn
client_end = record {
  input = [];
  output = [];
  masks = some first_mask ∷ [];
  client = true;
  max_bytes = default_max_message_bytes;
}

abbrev server_end : Conn
server_end = record {
  input = [];
  output = [];
  masks = [];
  client = false;
  max_bytes = default_max_message_bytes;
}

abbrev greeting : List ℕ
greeting = 104 ∷ 105 ∷ []

abbrev greeting_sent : List ℕ
greeting_sent = 129 ∷ 130 ∷ 1 ∷ 2 ∷ 3 ∷ 4 ∷ 105 ∷ 107 ∷ []

abbrev after_greeting : Conn
after_greeting = record client_end { output = greeting_sent; masks = [] }

abbrev ping_sent : List ℕ
ping_sent = 137 ∷ 128 ∷ 0 ∷ 0 ∷ 0 ∷ 0 ∷ []

write_greeting : write_text greeting client_end ≡ (ok tt, after_greeting)
unfolding write_text write_frame write_masked header_bytes length_bytes masked_bytes apply_mask
    be_bytes
write_greeting = refl

read_greeting :
    read_frame false default_max_message_bytes greeting_sent
    ≡ ok (record { fin = true; opcode = op_text; payload = greeting }, [])
unfolding read_frame read_body read_length read_payload read_full apply_mask
read_greeting = refl

-- A text frame that goes on, a ping, and the last fragment: the ping is answered in between.
read_fragments :
    read_text (record server_end {
      input = 1 ∷ 129 ∷ 0 ∷ 0 ∷ 0 ∷ 0 ∷ 104 ∷ (ping_sent ++ (128 ∷ 129 ∷ 0 ∷ 0 ∷ 0 ∷ 0 ∷ 105 ∷ []));
    })
    ≡ some (ok greeting, record server_end { output = 138 ∷ 0 ∷ [] })
unfolding read_text read_loop handle_frame take_data answer_ping append_payload write_frame
    write_masked header_bytes length_bytes masked_bytes apply_mask be_bytes read_frame read_body
    read_length read_payload read_full
read_fragments = refl

-- A control frame of 126 bytes is refused before its payload is read.
long_ping :
    read_frame true default_max_message_bytes (137 ∷ 126 ∷ 0 ∷ 126 ∷ []) ≡ err invalid_control
unfolding read_frame read_body read_length read_payload read_full apply_mask be_value be_from
long_ping = refl

text-IsWhole : IsWhole true op_text (length greeting)
text-IsWhole control = (refl, omega arith)

read_frame-write_frame_example :
    (bytes : List ℕ) × (after_greeting
      ≡ record client_end { output = client_end.output ++ bytes; masks = [] })
    × (read_frame false 10 (bytes ++ (1 ∷ []))
        ≡ ok (record { fin = true; opcode = op_text; payload = greeting }, 1 ∷ []))
unfolding write_text
read_frame-write_frame_example =
    read_frame-write_frame true op_text 10 greeting (1 ∷ []) client_end after_greeting (omega arith)
      text-IsWhole (omega arith) (omega arith) write_greeting

read_frame-IsAccepted_example :
    IsAccepted default_max_message_bytes
      (record { fin = true; opcode = op_text; payload = greeting })
    × (length {A = ℕ} [] + 2 ≤ length greeting_sent)
read_frame-IsAccepted_example =
    read_frame-IsAccepted false default_max_message_bytes greeting_sent
      (record { fin = true; opcode = op_text; payload = greeting }) [] read_greeting

read_text-ends_example :
    (out : Result WsError (List ℕ)) × (d : Conn) × (read_text
        (record server_end { input = greeting_sent })
      ≡ some (out, d))
    × ((m : List ℕ) → out ≡ ok m → length m ≤ default_max_message_bytes)
read_text-ends_example = read_text-ends (record server_end { input = greeting_sent })

read_text-write_text_example :
    (bytes : List ℕ) × (after_greeting
      ≡ record client_end { output = client_end.output ++ bytes; masks = [] })
    × (read_text (record server_end { input = bytes ++ (137 ∷ []) })
        ≡ some (ok greeting, record server_end { input = 137 ∷ [] }))
read_text-write_text_example =
    read_text-write_text greeting (137 ∷ []) client_end after_greeting server_end (omega arith)
      (omega arith) refl write_greeting
