-- ===== src/Command/RoundTrip.antt =====
-- A command that was encoded is decoded again, with anything behind it.
use mathlib.Core.Path.{ap₂}
use rest_diameter_bridge.Avp.Lengths.{length-encode}
use rest_diameter_bridge.Avp.Codec.{encode, ok}
use rest_diameter_bridge.Avp.Defs.{Avp}
use rest_diameter_bridge.Avp.Wire.{wire, IsWf}
use rest_diameter_bridge.Avp.RoundTrip.{encode_all, decode_avps-encode_all, length-le-encode_all}
use rest_diameter_bridge.Command.Codec.{
  decode_command, encode_command, frame_length, padded_lengths, decode_fields,
}
use rest_diameter_bridge.Base.Bytes.{IsU32, u32, u32_to_be_bytes, u32_be_round, u32_from_be_bytes}
use rest_diameter_bridge.Base.{
  length, length-append, All, ℕ, ◌+◌, ◌*◌, ◌%◌, ◌^◌, ◌<◌, ◌≡◌, refl, List, [], ◌∷◌, ◌++◌, map,
  arith, ltb-eq-false, ◌/◌, ap, ◌∙◌, ◌≤◌, sym,
}
use rest_diameter_bridge.Command.Defs.{Command}

-- Every field fits its place in the header, and the length its three bytes.
pub record IsWfCommand (c : Command) : Type 0 where
  pub flags_fit : c.command_flags < 256
  pub code_fits : c.command_code < 2 ^ 24
  pub application_fits : IsU32 c.application_id
  pub hop_by_hop_fits : IsU32 c.hop_by_hop_id
  pub end_to_end_fits : IsU32 c.end_to_end_id
  pub avps_wf : All IsWf c.avps
  pub length_fits : 20 + length (encode_all c.avps) < 2 ^ 24

-- What the receiver reads: the same fields, and each AVP as the wire carries it.
unfoldable pub wire_command : Command → Command
wire_command c = record c { avps = map wire c.avps }

padded_lengths_lem :
    (avps : List Avp) → All IsWf avps → padded_lengths avps ≡ length (encode_all avps)
unfolding padded_lengths encode_all
padded_lengths_lem [] w = refl
padded_lengths_lem (a ∷ rest) w = omega (
  arith,
  length-append (encode a) (encode_all rest),
  length-encode a w.0,
  padded_lengths_lem rest w.1,
)

-- The twenty bytes before the AVPs.
command_header : Command → List ℕ
command_header c =
    u32_to_be_bytes (2 ^ 24 + u32 (20 + padded_lengths c.avps) % 2 ^ 24)
    ++ (u32_to_be_bytes (c.command_flags * 2 ^ 24 + c.command_code % 2 ^ 24)
        ++ (u32_to_be_bytes c.application_id
            ++ (u32_to_be_bytes c.hop_by_hop_id ++ u32_to_be_bytes c.end_to_end_id)))

encode_command-header :
    (c : Command) (rest : List ℕ)
    → encode_command c ++ rest ≡ command_header c ++ (encode_all c.avps ++ rest)
unfolding encode_command command_header
encode_command-header c rest = refl

length-command_header : (c : Command) → length (command_header c) ≡ 20
unfolding command_header
length-command_header c = refl

pub length-encode_command :
    (c : Command) → length (encode_command c) ≡ 20 + length (encode_all c.avps)
unfolding encode_command
length-encode_command c = omega arith

module _ (c : Command) (w : IsWfCommand c) where
  abbrev pub total : ℕ
  total = 20 + length (encode_all c.avps)

  length_word : ℕ
  length_word = 2 ^ 24 + u32 (20 + padded_lengths c.avps) % 2 ^ 24

  flags_word : ℕ
  flags_word = c.command_flags * 2 ^ 24 + c.command_code % 2 ^ 24

  length_word_lem : length_word % 2 ^ 24 ≡ total
  unfolding length_word
  length_word_lem = omega (arith, padded_lengths_lem c.avps w.avps_wf, w.length_fits)

  length_word-IsU32 : IsU32 length_word
  unfolding length_word
  length_word-IsU32 = omega arith

  flags_word-IsU32 : IsU32 flags_word
  unfolding flags_word
  flags_word-IsU32 = omega (arith, w.flags_fit)

  pub frame_length-encode : (rest : List ℕ) → frame_length (encode_command c ++ rest) ≡ total
  unfolding frame_length encode_command length_word
  frame_length-encode rest =
      ap (λ n. n % 2 ^ 24) (u32_be_round length_word length_word-IsU32) ∙ length_word_lem

  decode_header_bytes :
      (tail : List ℕ)
      → decode_command (command_header c ++ tail)
        ≡ decode_fields (command_header c ++ tail) total (record c { avps = [] })
  unfolding decode_command command_header length_word flags_word
  decode_header_bytes tail =
      ap₂ (decode_fields (command_header c ++ tail))
        (ap (λ n. n % 2 ^ 24) (u32_be_round length_word length_word-IsU32) ∙ length_word_lem)
        (λ i. record {
          command_code = code_read i;
          command_flags = flags_read i;
          application_id = u32_be_round c.application_id w.application_fits i;
          hop_by_hop_id = u32_be_round c.hop_by_hop_id w.hop_by_hop_fits i;
          end_to_end_id = u32_be_round c.end_to_end_id w.end_to_end_fits i;
          avps = [];
        })
    where
      code_read :
          u32_from_be_bytes
              (flags_word / 2 ^ 24 % 256)
              (flags_word / 2 ^ 16 % 256)
              (flags_word / 2 ^ 8 % 256)
              (flags_word % 256)
            % 2 ^ 24
          ≡ c.command_code
      code_read =
          ap (λ n. n % 2 ^ 24) (u32_be_round flags_word flags_word-IsU32)
          ∙ (unfold flags_word in omega (arith, w.code_fits))

      flags_read : flags_word / 2 ^ 24 % 256 ≡ c.command_flags
      flags_read = unfold flags_word in omega (arith, w.flags_fit)

  -- A command whose fields fit the header and whose AVPs are well formed, encoded and followed by
  -- any bytes, is decoded to the command that the wire carries: the same header, and each AVP
  -- with its code, its flags, the vendor id that the flags announce, and its bytes.
  pub decode_command-encode_command :
      (rest : List ℕ) → decode_command (encode_command c ++ rest) ≡ ok (wire_command c)
  unfolding decode_fields wire_command
  decode_command-encode_command rest = rw (encode_command-header c rest) (
      rw (decode_header_bytes (encode_all c.avps ++ rest)) (
        rw (ltb-eq-false (length buffer) total long) (
          rw (
            decode_avps-encode_all c.avps (length buffer) total 20 (command_header c) rest w.avps_wf
              enough (sym (length-command_header c)) (omega (arith, length-command_header c))))))
    where
      buffer : List ℕ
      buffer = command_header c ++ (encode_all c.avps ++ rest)

      long : total ≤ length buffer
      long = omega (
        arith,
        length-command_header c,
        length-append (command_header c) (encode_all c.avps ++ rest),
        length-append (encode_all c.avps) rest,
      )

      enough : length c.avps < length buffer
      enough = omega (arith, long, length-le-encode_all c.avps w.avps_wf)
