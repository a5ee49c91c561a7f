-- ===== src/Command/Tests.antt =====
-- The theorems about commands at concrete commands.
use rest_diameter_bridge.Base.Bytes.{are_bytes-IsByte}
use rest_diameter_bridge.Command.Termination.{read_commands-fuel, decode_command-ne-out_of_fuel}
use rest_diameter_bridge.Avp.Codec.{
  encode, err, header, ok, out_of_fuel, total_length, pad, sum_of_lengths,
}
use rest_diameter_bridge.Avp.Wire.{IsWf, body}
use rest_diameter_bridge.Command.Framing.{stream}
use rest_diameter_bridge.Command.Stream.{feed, joined, read_commands_stuck, feed-stream}
use rest_diameter_bridge.Avp.RoundTrip.{encode_all}
use rest_diameter_bridge.Command.RoundTrip.{
  IsWfCommand, wire_command, decode_command-encode_command,
}
use rest_diameter_bridge.Command.Codec.{
  CommandBuffer, decode_command, frame_length, from_bytes, read_commands, append_bytes,
  encode_command, new_buffer, read_loop,
}
use rest_diameter_bridge.Command.Defs.{Command, has_record_route, any_record_route}
use rest_diameter_bridge.Avp.Defs.{Avp, avp, nil, is_vendor_specific}
use rest_diameter_bridge.Base.Text.{text, Text, is_utf8}
use rest_diameter_bridge.Base.{
  [], ◌∷◌, some, none, true, length, take, drop, replicate, ℕ, ◌+◌, ◌≡◌, refl, ◌≢◌, false, List,
  ◌++◌, arith, take-append-drop, ap, ◌∙◌, append-nil,
}

-- A request with a session and a destination.
abbrev session_avp : Avp
session_avp = avp 263 0x40 none (some (text "s;1")) nil

abbrev realm_avp : Avp
realm_avp = avp 283 0x40 none (some (text "ab.cd")) nil

abbrev request : Command
request = record {
  command_code = 272;
  command_flags = 0xc0;
  application_id = 4;
  hop_by_hop_id = 7;
  end_to_end_id = 4294967295;
  avps = session_avp ∷ realm_avp ∷ [];
}

session_avp-IsWf : IsWf session_avp
unfolding is_vendor_specific
session_avp-IsWf = (omega arith, omega arith, refl, omega arith)

realm_avp-IsWf : IsWf realm_avp
unfolding is_vendor_specific
realm_avp-IsWf = (omega arith, omega arith, refl, omega arith)

request_length : 20 + length (encode_all request.avps) ≡ 48
unfolding encode_all encode header total_length pad sum_of_lengths is_vendor_specific body
request_length = refl

request-IsWfCommand : IsWfCommand request
request-IsWfCommand = record {
  flags_fit = omega arith;
  code_fits = omega arith;
  application_fits = omega arith;
  hop_by_hop_fits = omega arith;
  end_to_end_fits = omega arith;
  avps_wf = (session_avp-IsWf, (realm_avp-IsWf, tt));
  length_fits = omega (arith, request_length);
}

decode_command-encode_command_example :
    decode_command (encode_command request ++ (9 ∷ [])) ≡ ok (wire_command request)
decode_command-encode_command_example =
    decode_command-encode_command request request-IsWfCommand (9 ∷ [])

-- Two requests, cut within the header of the second.
abbrev pieces : List (List ℕ)
pieces = take 60 (stream (request ∷ request ∷ [])) ∷ drop 60 (stream (request ∷ request ∷ [])) ∷ []

pieces-joined : joined pieces ≡ stream (request ∷ request ∷ [])
pieces-joined =
    ap (λ t. take 60 (stream (request ∷ request ∷ [])) ++ t)
      (append-nil (drop 60 (stream (request ∷ request ∷ []))))
    ∙ take-append-drop 60 (stream (request ∷ request ∷ []))

feed-stream_example :
    feed new_buffer pieces ≡ (wire_command request ∷ wire_command request ∷ [], new_buffer)
feed-stream_example =
    feed-stream (request ∷ request ∷ []) pieces (request-IsWfCommand, (request-IsWfCommand, tt))
      pieces-joined

abbrev junk : List ℕ
junk = 1 ∷ 0 ∷ 0 ∷ 24 ∷ replicate 20 255

decode_command-ne-out_of_fuel_example : decode_command junk ≢ err out_of_fuel
decode_command-ne-out_of_fuel_example =
    decode_command-ne-out_of_fuel junk (are_bytes-IsByte junk refl)

read_commands-fuel_example : read_loop 25 (from_bytes junk) ≡ read_commands (from_bytes junk)
read_commands-fuel_example = read_commands-fuel 25 (from_bytes junk) (omega arith)

abbrev zero_frame : CommandBuffer
zero_frame = record { bytes = replicate 20 0 }

zero_frame_length : frame_length zero_frame.bytes ≡ 0
unfolding frame_length
zero_frame_length = refl

read_commands_stuck_example :
    read_commands (append_bytes zero_frame junk) ≡ ([], append_bytes zero_frame junk)
read_commands_stuck_example = read_commands_stuck zero_frame junk (omega arith) zero_frame_length

abbrev node : Text
node = text "node.a"

node-IsUtf8 : is_utf8 node ≡ true
unfolding is_utf8
node-IsUtf8 = refl

node_absent : has_record_route request node ≡ false
unfolding has_record_route any_record_route
node_absent = refl
