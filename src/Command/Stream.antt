-- ===== src/Command/Stream.antt =====
-- `CommandBuffer::read_commands` on streams of frames, whole, in pieces, and broken.
use mathlib.Core.List.{map-append}
use rest_diameter_bridge.Command.Framing.{
  stream, Waits, read_command_frame, Split-prefix, Waits-empty, frame_length-append,
}
use rest_diameter_bridge.Command.RoundTrip.{IsWfCommand, length-encode_command, wire_command}
use rest_diameter_bridge.Command.Codec.{
  CommandBuffer, read_commands, read_loop, append_bytes, encode_command, from_bytes, read_command,
  new_buffer, decode_command, push_front, frame_length,
}
use rest_diameter_bridge.Base.{
  length, length-append, All, ℕ, zero, suc, ◌*◌, ◌≤◌, ◌<◌, ◌≡◌, refl, ap, List, [], ◌∷◌, ◌++◌, map,
  append_assoc, arith, ltb-eq-false, sym, ◌∙◌, append-nil, none, some,
}
use rest_diameter_bridge.Command.Defs.{Command}

-- One round of the loop, by what `read_command` finds.
pub read_loop-none :
    (fuel : ℕ) (b b' : CommandBuffer)
    → read_command b ≡ (none, b')
    → read_loop (suc fuel) b ≡ ([], b')
unfolding read_loop
read_loop-none fuel b b' e = rw (e, read_loop) (ap (λ r. ([], r.1)) e)

pub read_loop-some :
    (fuel : ℕ) (b b' : CommandBuffer) (c : Command)
    → read_command b ≡ (some c, b')
    → read_loop (suc fuel) b ≡ push_front c (read_loop fuel b')
unfolding read_loop
read_loop-some fuel b b' c e = rw (e, read_loop) (ap (λ r. push_front c (read_loop fuel r.1)) e)

-- Whole commands and a piece that waits: the commands are returned and the piece is kept.
read_loop-stream :
    (fuel : ℕ) (cs : List Command) (piece : List ℕ)
    → All IsWfCommand cs
    → Waits piece
    → length cs < fuel
    → read_loop fuel (from_bytes (stream cs ++ piece)) ≡ (map wire_command cs, from_bytes piece)
unfolding stream
read_loop-stream zero cs piece w p h = elim h [ ]
read_loop-stream (suc fuel) [] piece w p h =
    read_loop-none fuel (from_bytes piece) (from_bytes piece) p
read_loop-stream (suc fuel) (c ∷ cs) piece w p h = rw append_assoc (
    read_loop-some fuel _ _ _ (read_command_frame c (stream cs ++ piece) w.0)
    ∙ ap (push_front (wire_command c)) (read_loop-stream fuel cs piece w.1 p (omega arith)))

length-stream : (cs : List Command) → 20 * length cs ≤ length (stream cs)
unfolding stream
length-stream [] = omega arith
length-stream (c ∷ cs) =
    omega (
      arith,
      length-append (encode_command c) (stream cs),
      length-encode_command c,
      length-stream cs,
    )

pub read_commands-stream :
    (cs : List Command) (piece : List ℕ)
    → All IsWfCommand cs
    → Waits piece
    → read_commands (from_bytes (stream cs ++ piece)) ≡ (map wire_command cs, from_bytes piece)
unfolding read_commands
read_commands-stream cs piece w p =
    read_loop-stream (suc (length (stream cs ++ piece))) cs piece w p
      (omega (arith, length-stream cs, length-append (stream cs) piece))

-- What a receiver does with the pieces that arrive: append, read, go on.
pub feed : CommandBuffer → List (List ℕ) → List Command × CommandBuffer
feed b [] = ([], b)
feed b (piece ∷ pieces) =
    let (found, b') = read_commands (append_bytes b piece) in
    let (later, last) = feed b' pieces in (found ++ later, last)

abbrev pub joined : List (List ℕ) → List ℕ
joined [] = []
joined (piece ∷ pieces) = piece ++ joined pieces

-- A stream that waits and has nothing left holds no command.
nothing_left :
    (cs : List Command) (p : List ℕ)
    → All IsWfCommand cs
    → Waits p
    → p ≡ stream cs
    → (cs ≡ []) × (p ≡ [])
unfolding stream
nothing_left [] p w h e = (refl, e)
nothing_left (c ∷ cs) p w h e = absurd (cc (read_command_frame c (stream cs) w.0, h, e))

feed_step :
    (b : CommandBuffer) (piece : List ℕ) (pieces : List (List ℕ)) (found : List Command)
    (b' : CommandBuffer)
    → read_commands (append_bytes b piece) ≡ (found, b')
    → feed b (piece ∷ pieces) ≡ (found ++ (feed b' pieces).0, (feed b' pieces).1)
unfolding feed
feed_step b piece pieces found b' e = rw (e, feed)

feed_from :
    (pieces : List (List ℕ)) (cs : List Command) (p : List ℕ)
    → All IsWfCommand cs
    → Waits p
    → p ++ joined pieces ≡ stream cs
    → feed (from_bytes p) pieces ≡ (map wire_command cs, new_buffer)
unfolding feed append_bytes
feed_from [] cs p w h e =
    let ends = nothing_left cs p w h (sym (append-nil p) ∙ e) in rw (ends.0, ends.1)
feed_from (piece ∷ pieces) cs p w h e =
    let parts =
      Split-prefix cs (p ++ piece) (joined pieces) w (append_assoc p piece (joined pieces) ∙ e) in
    let later = feed_from pieces parts.left parts.piece parts.wf_left parts.waits parts.back in
    let now =
      ap (λ u. read_commands (from_bytes u)) parts.front
      ∙ read_commands-stream parts.done parts.piece parts.wf_done parts.waits in
    feed_step (from_bytes p) piece pieces _ _ now
    ∙ ap (λ r. (map wire_command parts.done ++ r.0, r.1)) later
    ∙ ap (λ u. (u, new_buffer))
        (sym (map-append wire_command parts.done parts.left)
          ∙ ap (map wire_command) (sym parts.all))

-- If the bytes of a stream of well-formed commands arrive cut into any pieces, the buffer, read
-- after each piece, gives exactly the commands of the stream, in order and as the wire carries
-- them, and is empty at the end.
pub feed-stream :
    (cs : List Command) (pieces : List (List ℕ))
    → All IsWfCommand cs
    → joined pieces ≡ stream cs
    → feed new_buffer pieces ≡ (map wire_command cs, new_buffer)
feed-stream cs pieces w e = feed_from pieces cs [] w Waits-empty e

empty_frame : (bytes : List ℕ) → 20 ≤ length bytes → frame_length bytes ≡ 0 → Waits bytes
unfolding read_command decode_command
empty_frame bytes h z =
    rw (z, ltb-eq-false (length bytes) 20 h, ltb-eq-false (length bytes) 0 (omega arith))

-- If the buffer holds twenty bytes or more and the length field is zero, read_commands returns
-- nothing and leaves the buffer as it is, whatever arrives behind it.
pub read_commands_stuck :
    (b : CommandBuffer) (more : List ℕ)
    → 20 ≤ length b.bytes
    → frame_length b.bytes ≡ 0
    → read_commands (append_bytes b more) ≡ ([], append_bytes b more)
unfolding read_commands
read_commands_stuck b more h z = read_loop-none _ (append_bytes b more) (append_bytes b more) (
    unfold append_bytes in
    empty_frame (b.bytes ++ more) (omega (arith, length-append b.bytes more))
      (frame_length-append b.bytes more h ∙ z))
