-- ===== src/Command/Codec.antt =====
-- The wire format of src/command.rs: `Command::encode`, `Command::decode` and `CommandBuffer`.
use rest_diameter_bridge.Avp.RoundTrip.{encode_all}
use rest_diameter_bridge.Base.Bytes.{u32_from_be_bytes, u32_to_be_bytes, u32}
use rest_diameter_bridge.Avp.Codec.{
  Outcome, err, ok, total_length_including_padding, message_length_mismatch, short_header,
  decode_avps,
}
use rest_diameter_bridge.Avp.Defs.{Avp}
use rest_diameter_bridge.Base.{
  ltb, if◌then◌else◌, length, take, drop, ℕ, zero, suc, ◌+◌, ◌*◌, ◌%◌, ◌^◌, Option, none, some,
  List, [], ◌∷◌, ◌++◌,
}
use rest_diameter_bridge.Command.Defs.{Command}

unfoldable pub padded_lengths : List Avp → ℕ
padded_lengths [] = 0
padded_lengths (a ∷ rest) = total_length_including_padding a + padded_lengths rest

-- `x & 0x00FFFFFF` is `x % 2 ^ 24`, and the or of disjoint bits a sum. The version is 1.
unfoldable pub encode_command : Command → List ℕ
encode_command c =
    let n = 20 + padded_lengths c.avps in
    u32_to_be_bytes (2 ^ 24 + u32 n % 2 ^ 24)
    ++ (u32_to_be_bytes (c.command_flags * 2 ^ 24 + c.command_code % 2 ^ 24)
        ++ (u32_to_be_bytes c.application_id
            ++ (u32_to_be_bytes c.hop_by_hop_id
                ++ (u32_to_be_bytes c.end_to_end_id ++ encode_all c.avps))))

abbrev pub with_avps : Command → Outcome (List Avp) → Outcome Command
with_avps c (ok found) = ok (record c { avps = found })
with_avps c (err e) = err e

-- `decode` with the first twenty bytes at hand. The loop has a round for every byte.
unfoldable pub decode_fields : List ℕ → ℕ → Command → Outcome Command
decode_fields buffer n c =
    if ltb (length buffer) n
    then err message_length_mismatch
    else with_avps c (decode_avps (length buffer) buffer n 20)

unfoldable pub decode_command : List ℕ → Outcome Command
unfolding decode_fields
decode_command
      (b0 ∷ b1 ∷ b2 ∷ b3 ∷ b4 ∷ b5 ∷ b6 ∷ b7 ∷ b8 ∷ b9 ∷ b10 ∷ b11 ∷ b12 ∷ b13 ∷ b14 ∷ b15 ∷ b16
        ∷ b17 ∷ b18 ∷ b19 ∷ rest) =
    decode_fields
      (b0 ∷ b1 ∷ b2 ∷ b3 ∷ b4 ∷ b5 ∷ b6 ∷ b7 ∷ b8 ∷ b9 ∷ b10 ∷ b11 ∷ b12 ∷ b13 ∷ b14 ∷ b15 ∷ b16
        ∷ b17 ∷ b18 ∷ b19 ∷ rest)
      (u32_from_be_bytes b0 b1 b2 b3 % 2 ^ 24)
      (record {
        command_code = u32_from_be_bytes b4 b5 b6 b7 % 2 ^ 24;
        command_flags = b4;
        application_id = u32_from_be_bytes b8 b9 b10 b11;
        hop_by_hop_id = u32_from_be_bytes b12 b13 b14 b15;
        end_to_end_id = u32_from_be_bytes b16 b17 b18 b19;
        avps = [];
      })
decode_command _ = err short_header

-- `CommandBuffer` is its bytes.
pub record CommandBuffer : Type 0 where
  pub bytes : List ℕ

abbrev pub new_buffer : CommandBuffer
new_buffer = record { bytes = [] }

abbrev pub from_bytes : List ℕ → CommandBuffer
from_bytes data' = record { bytes = data' }

unfoldable pub append_bytes : CommandBuffer → List ℕ → CommandBuffer
append_bytes b more = record { bytes = b.bytes ++ more }

unfoldable pub clear_buffer : CommandBuffer → CommandBuffer
clear_buffer b = record { bytes = [] }

-- The length field of a frame.
unfoldable pub frame_length : List ℕ → ℕ
frame_length (b0 ∷ b1 ∷ b2 ∷ b3 ∷ rest) = u32_from_be_bytes b0 b1 b2 b3 % 2 ^ 24
frame_length _ = 0

abbrev pub decoded : Outcome Command → Option Command
decoded (ok c) = some c
decoded (err e) = none

-- `read_command`: the bytes of the frame are taken also when they do not decode.
unfoldable pub read_command : CommandBuffer → Option Command × CommandBuffer
unfolding frame_length
read_command b =
    let n = frame_length b.bytes in
    if ltb (length b.bytes) 20
    then (none, b)
    else if ltb (length b.bytes) n
    then (none, b)
    else (decoded (decode_command (take n b.bytes)), record { bytes = drop n b.bytes })

abbrev pub push_front : Command → List Command × CommandBuffer → List Command × CommandBuffer
push_front c r = (c ∷ r.0, r.1)

-- `read_commands`, a `while let` loop on fuel.
unfoldable pub read_loop : ℕ → CommandBuffer → List Command × CommandBuffer
read_loop zero b = ([], b)
read_loop (suc fuel) b =
    let (found, b') = read_command b in
    elim found [ none ↦ ([], b') | some c ↦ push_front c (read_loop fuel b') ]

-- A command takes twenty bytes at least, so a round for every byte is enough.
unfoldable pub read_commands : CommandBuffer → List Command × CommandBuffer
unfolding read_loop
read_commands b = read_loop (suc (length b.bytes)) b
