-- ===== src/Transport/Tcp/Phases.antt =====
-- `TcpClientConnection::start` of src/transport/tcp_transport.rs as a step relation: its loop
-- connects, sends the capabilities, waits for the answer and reads commands, and other tasks send
-- meanwhile. The commands that the loop reads are the connection's own or the node's.
use rest_diameter_bridge.Command.Codec.{encode_command}
use rest_diameter_bridge.Base.Map.{beq-ne, nat_key}
use mathlib.Core.Path.{subst}
use rest_diameter_bridge.Transport.Tcp.{
  Stream, TcpResult, not_established, put, put_result, capabilities_exchange, no_writer,
}
use rest_diameter_bridge.Transport.Tcp.Client.{
  TcpClientConnection, receive_cea, send, send_command, close, advance,
}
use rest_diameter_bridge.Command.Defs.{Command}
use rest_diameter_bridge.Transport.Tcp.Handling.Connected.{
  send-connected, close-connected, handle_reading-connected,
}
use rest_diameter_bridge.Transport.Tcp.Handling.{
  Phase, connecting, waiting_cea, established, ended, Reading, Handling, goes_on, returns_ok,
  returns_err, handle_reading, after_handling,
}
use rest_diameter_bridge.Base.{
  ◌≡◌, ◌≢◌, refl, Bool, true, false, Option, none, some, ◌==◌, ap, ◌∙◌, if◌then◌else◌, sym, not,
  ◌&&◌,
}

module _ {W : Type 0} (s : Stream W) where
  -- The stream is there, and the identifiers of the first request are taken.
  abbrev pub opened : TcpClientConnection W → W → TcpClientConnection W
  opened t w = advance s (record t { writer = some w })

  -- What the loop has come to, from a connection that `new` made.
  pub data Reached : Phase → TcpClientConnection W → Type 0 where
    starts : (t : TcpClientConnection W) → t.connected ≡ false → Reached connecting t
    -- The stream is there and the request for the capabilities is sent, or fails to be.
    opens :
        (t : TcpClientConnection W) (w : W) (cer : Command)
        → Reached connecting t
        → (send s cer (opened t w)).0 ≡ none
        → Reached waiting_cea (send s cer (opened t w)).1
    opens_not :
        (t : TcpClientConnection W) (w : W) (cer : Command)
        → Reached connecting t
        → (send s cer (opened t w)).0 ≢ none
        → Reached ended (send s cer (opened t w)).1
    -- The TLS of the new stream is refused.
    opens_no_tls : (t : TcpClientConnection W) → Reached connecting t → Reached ended t
    accepted :
        (t : TcpClientConnection W) (answer : Option Command)
        → Reached waiting_cea t
        → receive_cea answer ≡ none
        → Reached established (record t { connected = true })
    refused :
        (t : TcpClientConnection W) (answer : Option Command)
        → Reached waiting_cea t
        → receive_cea answer ≢ none
        → Reached connecting (close s t).1
    times_out :
        (t : TcpClientConnection W) → Reached waiting_cea t → Reached connecting (close s t).1
    -- A turn of `handle_connection`, and what its end means for the loop.
    handles :
        (t : TcpClientConnection W) (x : Reading)
        → Reached established t
        → Reached
            (after_handling (handle_reading s x t)).0
            (after_handling (handle_reading s x t)).1
    -- Any task.
    sends :
        {p : Phase} (t : TcpClientConnection W) (c : Command)
        → Reached p t
        → Reached p (send s c t).1

  -- Only an established connection and one whose loop has ended may be open.
  abbrev Agrees : Phase → Bool → Type 0
  Agrees connecting b = b ≡ false
  Agrees waiting_cea b = b ≡ false
  Agrees established b = b ≡ true
  Agrees ended b = Unit

  after_handling-Agrees :
      (h : Handling × TcpClientConnection W)
      → h.1.connected ≡ true
      → Agrees (after_handling h).0 (after_handling h).1.connected
  unfolding after_handling
  after_handling-Agrees (goes_on, t) e = e
  after_handling-Agrees (returns_ok, t) e = refl
  after_handling-Agrees (returns_err, t) e = tt

  Reached-Agrees : (p : Phase) (t : TcpClientConnection W) → Reached p t → Agrees p t.connected
  Reached-Agrees p t (starts _ h) = h
  Reached-Agrees p t (opens u w cer r h) =
      send-connected s cer (opened u w) ∙ Reached-Agrees connecting u r
  Reached-Agrees p t (opens_not u w cer r h) = tt
  Reached-Agrees p t (opens_no_tls u r) = tt
  Reached-Agrees p t (accepted u answer r h) = refl
  Reached-Agrees p t (refused u answer r h) = close-connected s u ∙ Reached-Agrees waiting_cea u r
  Reached-Agrees p t (times_out u r) = close-connected s u ∙ Reached-Agrees waiting_cea u r
  Reached-Agrees p t (handles u x r) =
      after_handling-Agrees (handle_reading s x u)
        (handle_reading-connected s x u ∙ Reached-Agrees established u r)
  Reached-Agrees p t (sends u c r) =
      subst (Agrees p) (sym (send-connected s c u)) (Reached-Agrees p u r)

  not_reached : (p : Phase) (b : Bool) → Agrees p b → p ≢ established → p ≢ ended → b ≡ false
  not_reached connecting b h e f = h
  not_reached waiting_cea b h e f = h
  not_reached established b h e f = absurd (e refl)
  not_reached ended b h e f = absurd (f refl)

  abbrev gate : Command → TcpClientConnection W → Bool → Bool → TcpResult × TcpClientConnection W
  gate c t is_cer up =
      if not is_cer && not up then (some not_established, t) else send_command s c t

  gate_open :
      (c : Command) (t : TcpClientConnection W) (b : Bool) → gate c t b true ≡ send_command s c t
  gate_open c t true = refl
  gate_open c t false = refl

  -- Whatever the client has been through, while it connects or waits for the answer to its
  -- capabilities request, a command with another code is refused and nothing is written.
  pub Reached-send :
      (p : Phase) (t : TcpClientConnection W) (c : Command)
      → Reached p t
      → p ≢ established
      → p ≢ ended
      → c.command_code ≢ capabilities_exchange
      → send s c t ≡ (some not_established, t)
  unfolding send
  Reached-send p t c r not_up not_over other =
      ap (λ b. gate c t b t.connected) (beq-ne c.command_code capabilities_exchange other)
      ∙ ap (gate c t false) (not_reached p t.connected (Reached-Agrees p t r) not_up not_over)

  send_command-written :
      (t : TcpClientConnection W) (c : Command) (w w' : W)
      → t.writer ≡ some w
      → s.write_all (encode_command c) w ≡ some w'
      → send_command s c t ≡ (none, record t { writer = some w' })
  unfolding send_command put
  send_command-written t c w w' e h =
      ap (λ o. let (result, writer) = put s no_writer c o in (result, record t { writer = writer }))
        e
      ∙ ap (λ o. let (result, writer) = put_result s w o in (result, record t { writer = writer }))
          h

  -- When a turn of handle_connection on an established connection returns an error, start ends
  -- with the connection as that turn left it: connected is still set, and a command that the
  -- stream takes is written to it.
  pub fails-send :
      (t t' : TcpClientConnection W) (x : Reading) (c : Command) (w w' : W)
      → Reached established t
      → handle_reading s x t ≡ (returns_err, t')
      → t'.writer ≡ some w
      → s.write_all (encode_command c) w ≡ some w'
      → let (phase, left) = after_handling (handle_reading s x t) in
        (phase ≡ ended)
        × (left.connected ≡ true)
        × (send s c left ≡ (none, record t' { writer = some w' }))
  unfolding send after_handling
  fails-send t t' x c w w' r fails e h =
      let up =
        ap (λ h. h.1.connected) (sym fails)
        ∙ handle_reading-connected s x t
        ∙ Reached-Agrees established t r in
      rw fails (
        refl,
        up,
        ap (gate c t' (c.command_code == capabilities_exchange)) up
            ∙ gate_open c t' (c.command_code == capabilities_exchange)
            ∙ send_command-written t' c w w' e h,
      )
