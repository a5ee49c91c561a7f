-- ===== src/Command/Termination.antt =====
-- The loops of `Command::decode` and `CommandBuffer::read_commands` end on every input.
use rest_diameter_bridge.Command.Stream.{read_loop-none, read_loop-some}
use rest_diameter_bridge.Avp.Termination.{decode_avps-ne-out_of_fuel}
use rest_diameter_bridge.Base.Bytes.{IsByte, u32_from_be_bytes}
use rest_diameter_bridge.Avp.Defs.{Avp}
use rest_diameter_bridge.Command.Codec.{
  decode_command, decode_fields, read_command, CommandBuffer, decoded, frame_length, with_avps,
  from_bytes, read_commands, read_loop, push_front,
}
use rest_diameter_bridge.Avp.Codec.{Outcome, ok, err, out_of_fuel}
use rest_diameter_bridge.Base.{
  ltb, ltb-false→le, Bool-cases, length, All, ℕ, ◌+◌, ◌≤◌, ◌≡◌, ap, ◌≢◌, inl, inr, some, List, ◌∷◌,
  arith, Option-cases, take, drop, length-take, length-drop, zero, suc, ◌<◌, sym, ◌∙◌, Option, none,
  ◌%◌, ◌^◌, [],
}
use rest_diameter_bridge.Command.Defs.{Command}

with_avps-ne :
    (c : Command) (r : Outcome (List Avp)) → r ≢ err out_of_fuel → with_avps c r ≢ err out_of_fuel
with_avps-ne c (ok found) h e = cc
with_avps-ne c (err x) h e = h (cc)

decode_fields-ne-out_of_fuel :
    (buffer : List ℕ) (n : ℕ) (c : Command)
    → All IsByte buffer
    → 20 ≤ length buffer
    → decode_fields buffer n c ≢ err out_of_fuel
unfolding decode_fields
decode_fields-ne-out_of_fuel buffer n c hb h = elim (Bool-cases (ltb (length buffer) n)) [
  | inl short ↦ rw short (λ e. cc)
  | inr long ↦ rw long (
      with_avps-ne c _ (
        decode_avps-ne-out_of_fuel (length buffer) buffer n 20 hb
          (omega (arith, ltb-false→le _ _ long)) (omega arith)))
]

-- On any bytes, the loop of Command::decode ends before its fuel, one round for each byte of the
-- buffer, is used up.
pub decode_command-ne-out_of_fuel :
    (buffer : List ℕ) → All IsByte buffer → decode_command buffer ≢ err out_of_fuel
unfolding decode_command
decode_command-ne-out_of_fuel
      (b0 ∷ b1 ∷ b2 ∷ b3 ∷ b4 ∷ b5 ∷ b6 ∷ b7 ∷ b8 ∷ b9 ∷ b10 ∷ b11 ∷ b12 ∷ b13 ∷ b14 ∷ b15 ∷ b16
        ∷ b17 ∷ b18 ∷ b19 ∷ rest)
      hb e =
    decode_fields-ne-out_of_fuel
      (b0 ∷ b1 ∷ b2 ∷ b3 ∷ b4 ∷ b5 ∷ b6 ∷ b7 ∷ b8 ∷ b9 ∷ b10 ∷ b11 ∷ b12 ∷ b13 ∷ b14 ∷ b15 ∷ b16
        ∷ b17 ∷ b18 ∷ b19 ∷ rest)
      (u32_from_be_bytes b0 b1 b2 b3 % 2 ^ 24)
      (record {
        command_code = u32_from_be_bytes b4 b5 b6 b7 % 2 ^ 24;
        command_flags = b4;
        application_id = u32_from_be_bytes b8 b9 b10 b11;
        hop_by_hop_id = u32_from_be_bytes b12 b13 b14 b15;
        end_to_end_id = u32_from_be_bytes b16 b17 b18 b19;
        avps = [];
      })
      hb (omega arith) e
decode_command-ne-out_of_fuel _ hb e = cc

-- What decodes has a whole header.
decode_command-long :
    (buffer : List ℕ) (c : Command) → decode_command buffer ≡ ok c → 20 ≤ length buffer
unfolding decode_command
decode_command-long
      (b0 ∷ b1 ∷ b2 ∷ b3 ∷ b4 ∷ b5 ∷ b6 ∷ b7 ∷ b8 ∷ b9 ∷ b10 ∷ b11 ∷ b12 ∷ b13 ∷ b14 ∷ b15 ∷ b16
        ∷ b17 ∷ b18 ∷ b19 ∷ rest)
      c e =
    omega arith
decode_command-long _ c e = absurd (cc e)

decoded-some : (r : Outcome Command) (c : Command) → decoded r ≡ some c → r ≡ ok c
decoded-some (ok d) c e = cc
decoded-some (err x) c e = cc

-- A command that `read_command` returns has used up twenty bytes or more.
read_command_takes :
    (b b' : CommandBuffer) (c : Command)
    → read_command b ≡ (some c, b')
    → length b'.bytes + 20 ≤ length b.bytes
unfolding read_command
read_command_takes b b' c e = elim (Bool-cases (ltb (length b.bytes) 20)) [
  | inl tiny ↦ absurd (cc (ap (λ r. r.0) (rw tiny at e)))
  | inr big ↦ elim (Bool-cases (ltb (length b.bytes) n)) [
    | inl short ↦ absurd (cc (ap (λ r. r.0) (rw (big, short) at e)))
    | inr long ↦ shorter (rw (big, long) at e) (ltb-false→le _ _ long)
  ]
]
  where
    n : ℕ
    n = frame_length b.bytes

    shorter :
        ◌≡◌ {A = Option Command × CommandBuffer}
          (decoded (decode_command (take n b.bytes)), from_bytes (drop n b.bytes))
          (some c, b')
        → n ≤ length b.bytes
        → length b'.bytes + 20 ≤ length b.bytes
    shorter r m =
        let whole = decoded-some (decode_command (take n b.bytes)) c (ap (λ p. p.0) r) in
        omega (
          arith,
          m,
          decode_command-long (take n b.bytes) c whole,
          length-take n b.bytes,
          length-drop n b.bytes,
          ap (λ (p : Option Command × CommandBuffer). length p.1.bytes) r,
        )

pair_eta : (p : Option Command × CommandBuffer) (o : Option Command) → p.0 ≡ o → p ≡ (o, p.1)
pair_eta (x, y) o e = ap (λ t. (t, y)) e

-- More rounds than bytes give one result: `read_commands` never stops for want of fuel.
read_loop_fuel :
    (fuel fuel' : ℕ) (b : CommandBuffer)
    → length b.bytes < fuel
    → length b.bytes < fuel'
    → read_loop fuel b ≡ read_loop fuel' b
read_loop_fuel zero fuel' b h h' = elim h [ ]
read_loop_fuel (suc fuel) zero b h h' = elim h' [ ]
read_loop_fuel (suc fuel) (suc fuel') b h h' = elim (Option-cases (read_command b).0) [
  | inl e ↦
      let r = pair_eta (read_command b) none e in
      read_loop-none fuel b _ r ∙ sym (read_loop-none fuel' b _ r)
  | inr (c, e) ↦
      let r = pair_eta (read_command b) (some c) e in
      let shrinks = read_command_takes b (read_command b).1 c r in
      read_loop-some fuel b _ c r
      ∙ ap (push_front c) (
          read_loop_fuel fuel fuel' (read_command b).1 (omega (arith, shrinks))
            (omega (arith, shrinks)))
      ∙ sym (read_loop-some fuel' b _ c r)
]

-- With any fuel above the number of buffered bytes, the loop of read_commands gives the result of
-- read_commands: it ends of itself.
pub read_commands-fuel :
    (fuel : ℕ) (b : CommandBuffer) → length b.bytes < fuel → read_loop fuel b ≡ read_commands b
unfolding read_commands
read_commands-fuel fuel b h = read_loop_fuel fuel (suc (length b.bytes)) b h (omega arith)
