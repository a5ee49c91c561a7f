-- ===== src/Transport/Tcp/Closing.antt =====
-- How the end that a peer connected to answers a watchdog and a disconnect.
use rest_diameter_bridge.Avp.Defs.{from_utf8_string, from_unsigned32, new, as_unsigned32}
use rest_diameter_bridge.Transport.Tcp.{
  Stream, no_writer, put, is_watchdog_request, is_disconnect_request, device_watchdog,
  disconnect_peer, put_result,
}
use rest_diameter_bridge.Transport.Tcp.Server.{
  TcpServerConnection, own, send, close, process, process_dwr, process_dpr, own_answer, then_close,
  close_writer, shut,
}
use rest_diameter_bridge.Transport.Processor.{Node, Clock}
use rest_diameter_bridge.Transport.ConnectionManager.{Connection}
use rest_diameter_bridge.Transport.Answers.{Notify}
use rest_diameter_bridge.Command.Defs.{
  Command, is_request, is_answer, get_result_code, get_avp, find_avp,
}
use rest_diameter_bridge.Command.Codec.{encode_command}
use rest_diameter_bridge.Base.{
  ℕ, ◌≡◌, refl, Bool, true, false, Option, none, some, List, ap, ◌∙◌, arith,
}

-- What an answer of the connection has in common with the request.
abbrev pub Answers : ℕ → Command → Command → Type 0
Answers code c a =
    (a.command_code ≡ code)
    × (is_answer a ≡ true)
    × (a.hop_by_hop_id ≡ c.hop_by_hop_id)
    × (a.end_to_end_id ≡ c.end_to_end_id)
    × (get_result_code a ≡ some 2001)

own_answer-Answers :
    {W : Type 0} (code : ℕ) (c : Command) (t : TcpServerConnection W)
    → Answers code c (own_answer code c t)
unfolding own_answer is_answer is_request get_result_code get_avp find_avp from_utf8_string
    from_unsigned32 new as_unsigned32
own_answer-Answers code c t = (refl, refl, refl, refl, refl)

module _ {W : Type 0} (s : Stream W) where
  send-written :
      (c : Command) (t : TcpServerConnection W) (w w' : W)
      → t.writer ≡ some w
      → s.write_all (encode_command c) w ≡ some w'
      → send s c t ≡ (none, record t { writer = some w' })
  unfolding send put
  send-written c t w w' e h =
      ap (λ o. let (result, writer) = put s no_writer c o in (result, record t { writer = writer }))
        e
      ∙ ap (λ o. let (result, writer) = put_result s w o in (result, record t { writer = writer }))
          h

  close-shut :
      (t : TcpServerConnection W) (w w' : W)
      → t.writer ≡ some w
      → s.shutdown w ≡ some w'
      → close s t ≡ (none, record t { writer = none; closed = true })
  unfolding close
  close-shut t w w' e h = ap (close_writer s t) e ∙ ap (shut s t) h

  send-closed :
      (c : Command) (t : TcpServerConnection W)
      → send s c (record t { writer = none; closed = true })
        ≡ (some no_writer, record t { writer = none; closed = true })
  unfolding send put
  send-closed c t = refl

module _ {W N : Type 0} (s : Stream W) (notify : Notify N)
    (sends : List Connection → Command → Bool) (handle : Command → Option (Option Command))
    (now : ℕ) (at at' : Clock) where
  -- If the stream takes the answer to a watchdog request, the server end writes exactly an answer
  -- with the identifiers of the request and success, and nothing else of it changes.
  pub process-watchdog :
      (c : Command) (n : Node N) (t : TcpServerConnection W) (w w' : W)
      → is_watchdog_request c ≡ true
      → t.writer ≡ some w
      → s.write_all (encode_command (own_answer device_watchdog c t)) w ≡ some w'
      → (process s notify sends handle now at at' c n t ≡ own (none, record t { writer = some w' }))
        × Answers device_watchdog c (own_answer device_watchdog c t)
  unfolding process process_dwr
  process-watchdog c n t w w' is e h = (
    rw is (ap own (send-written s (own_answer device_watchdog c t) t w w' e h)),
    own_answer-Answers device_watchdog c t,
  )

  -- If the stream takes the answer to a disconnect request and shuts down, the server end writes
  -- an answer with the identifiers of the request and success, and the connection is closed and
  -- refuses every later command.
  pub process-disconnect :
      (c : Command) (n : Node N) (t : TcpServerConnection W) (w w' w'' : W)
      → is_disconnect_request c ≡ true
      → t.writer ≡ some w
      → s.write_all (encode_command (own_answer disconnect_peer c t)) w ≡ some w'
      → s.shutdown w' ≡ some w''
      → (closed_one : TcpServerConnection W) × (process s notify sends handle now at at' c n t
          ≡ own (none, closed_one))
        × (closed_one.closed ≡ true)
        × ((d : Command) → send s d closed_one ≡ (some no_writer, closed_one))
        × Answers disconnect_peer c (own_answer disconnect_peer c t)
  unfolding process process_dpr is_disconnect_request is_watchdog_request
  process-disconnect c n t w w' w'' is e h k =
      let answer = own_answer disconnect_peer c t in
      (
        record t { writer = none; closed = true },
        rw (no_watchdog c is, is)
            (ap own (
              ap (then_close s) (send-written s answer t w w' e h)
              ∙ close-shut s (record t { writer = some w' }) w' w'' refl k)),
        refl,
        (λ d. send-closed s d t),
        own_answer-Answers disconnect_peer c t,
      )
    where
      no_watchdog : (c : Command) → is_disconnect_request c ≡ true → is_watchdog_request c ≡ false
      no_watchdog c h = ground (arith, h)
