-- ===== src/Command/Framing.antt =====
-- `CommandBuffer`: frames are found in a byte stream however it is cut into pieces.
use rest_diameter_bridge.Avp.Codec.{ok}
use mathlib.Core.Path.{ap₂}
use rest_diameter_bridge.Avp.RoundTrip.{encode_all}
use rest_diameter_bridge.Command.RoundTrip.{
  IsWfCommand, wire_command, length-encode_command, frame_length-encode,
  decode_command-encode_command,
}
use rest_diameter_bridge.Command.Codec.{
  encode_command, frame_length, read_command, from_bytes, decode_command, decoded,
}
use rest_diameter_bridge.Base.{
  ltb-eq-false, length, length-append, take_append_self, drop_append_self, ℕ, ◌+◌, ◌≤◌, ◌≡◌, refl,
  sym, none, some, List, [], ◌∷◌, ◌++◌, arith, ltb, ltb→lt, lt→ltb, ltb-false→le, Bool-cases, take,
  drop, take-append-drop, take_append_le, drop_append_le, All, ◌<◌, ap, ◌∙◌, inl, inr, append_assoc,
  append-nil,
}
use rest_diameter_bridge.Command.Defs.{Command}

-- The bytes of commands that were sent one after the other.
unfoldable pub stream : List Command → List ℕ
stream [] = []
stream (c ∷ rest) = encode_command c ++ stream rest

-- `read_command` waits for more: it finds nothing and takes nothing.
abbrev pub Waits : List ℕ → Type 0
Waits p = read_command (from_bytes p) ≡ (none, from_bytes p)

pub frame_length-append : (p q : List ℕ) → 20 ≤ length p → frame_length (p ++ q) ≡ frame_length p
unfolding frame_length
frame_length-append (a ∷ b ∷ c ∷ d ∷ p) q h = refl
frame_length-append _ q h = absurd (omega arith)

-- A whole frame at the front of the buffer is read and taken.
pub read_command_frame :
    (c : Command) (rest : List ℕ)
    → IsWfCommand c
    → read_command (from_bytes (encode_command c ++ rest))
      ≡ (some (wire_command c), from_bytes rest)
unfolding read_command
read_command_frame c rest w =
    let n = 20 + length (encode_all c.avps) in
    let e = length-encode_command c in
    let long : 20 + length (encode_all c.avps) ≤ length (encode_command c ++ rest) =
      omega (arith, e, length-append (encode_command c) rest) in
    rw
      (
        frame_length-encode c w rest,
        ltb-eq-false (length (encode_command c ++ rest)) 20 (omega (arith, long)),
        ltb-eq-false (length (encode_command c ++ rest)) n long,
      )
      (rw
        (
          take_append_self (encode_command c) rest n (sym e),
          drop_append_self (encode_command c) rest n (sym e),
        )
        (ap (λ o. (decoded o, from_bytes rest)) alone))
  where
    alone : decode_command (encode_command c) ≡ ok (wire_command c)
    alone = rw (append-nil (encode_command c)) at (decode_command-encode_command c w [])

-- A piece that is shorter than the frame it begins is left in the buffer.
short_piece :
    (c : Command) (p t rest : List ℕ)
    → IsWfCommand c
    → p ++ t ≡ encode_command c ++ rest
    → length p < length (encode_command c)
    → Waits p
unfolding read_command
short_piece c p t rest w e h = elim (Bool-cases (ltb (length p) 20)) [
  | inl tiny ↦ rw tiny
  | inr big ↦ rw (
    big,
    lt→ltb (length p) (frame_length p)
        (omega (arith, announced (ltb-false→le _ _ big), length-encode_command c)),
  )
]
  where
    announced : 20 ≤ length p → frame_length p ≡ 20 + length (encode_all c.avps)
    announced m = sym (frame_length-append p t m) ∙ ap frame_length e ∙ frame_length-encode c w rest

-- A prefix of a stream is some whole commands and a piece that waits for more.
pub record Split (cs : List Command) (s t : List ℕ) : Type 0 where
  pub done : List Command
  pub left : List Command
  pub piece : List ℕ
  pub all : cs ≡ done ++ left
  pub front : s ≡ stream done ++ piece
  pub back : piece ++ t ≡ stream left
  pub waits : Waits piece
  pub wf_done : All IsWfCommand done
  pub wf_left : All IsWfCommand left

pub Waits-empty : Waits []
unfolding read_command
Waits-empty = refl

pub Split-prefix :
    (cs : List Command) (s t : List ℕ) → All IsWfCommand cs → s ++ t ≡ stream cs → Split cs s t
unfolding stream
Split-prefix [] [] t w e = record {
  done = [];
  left = [];
  piece = [];
  all = refl;
  front = refl;
  back = e;
  waits = Waits-empty;
  wf_done = tt;
  wf_left = tt;
}
Split-prefix [] (x ∷ s) t w e = absurd (cc e)
Split-prefix (c ∷ cs) s t w e =
    let n = length (encode_command c) in
    elim (Bool-cases (ltb (length s) n)) [
      | inl short ↦ record {
        done = [];
        left = c ∷ cs;
        piece = s;
        all = refl;
        front = refl;
        back = e;
        waits = short_piece c s t (stream cs) w.0 e (ltb→lt _ _ short);
        wf_done = tt;
        wf_left = w;
      }
      | inr long ↦
          longer (ltb-false→le _ _ long)
            (Split-prefix cs (drop n s) t w.1 (dropped (ltb-false→le _ _ long)))
    ]
  where
    m : ℕ
    m = length (encode_command c)

    dropped : m ≤ length s → drop m s ++ t ≡ stream cs
    dropped h =
        sym (drop_append_le m s t h)
        ∙ ap (drop m) e
        ∙ drop_append_self (encode_command c) (stream cs) m refl

    taken : m ≤ length s → take m s ≡ encode_command c
    taken h =
        sym (take_append_le m s t h)
        ∙ ap (take m) e
        ∙ take_append_self (encode_command c) (stream cs) m refl

    longer : m ≤ length s → Split cs (drop m s) t → Split (c ∷ cs) s t
    longer h r = record {
      done = c ∷ r.done;
      left = r.left;
      piece = r.piece;
      all = ap (λ u. c ∷ u) r.all;
      front =
          sym (take-append-drop m s)
          ∙ ap₂ ◌++◌ (taken h) r.front
          ∙ sym (append_assoc (encode_command c) (stream r.done) r.piece);
      back = r.back;
      waits = r.waits;
      wf_done = (w.0, r.wf_done);
      wf_left = r.wf_left;
    }
