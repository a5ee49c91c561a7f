-- ===== src/Transport/Tcp/Handling/Connected.antt =====
-- Only `start` of src/transport/tcp_transport.rs sets and resets the flag `connected`: sending, closing
-- and the turns of `handle_connection` keep it.
use rest_diameter_bridge.Base.Map.{nat_key}
use rest_diameter_bridge.Transport.Tcp.{
  Stream, TcpResult, not_established, capabilities_exchange, device_watchdog, is_disconnect_request,
}
use rest_diameter_bridge.Transport.Tcp.Client.{
  TcpClientConnection, send, send_command, send_dwa, send_dpr_command, close, process_dpr, advance,
  and_next, shut_writer, shut, process_own,
}
use rest_diameter_bridge.Command.Defs.{Command, is_request}
use rest_diameter_bridge.Transport.Tcp.Handling.{
  Reading, closed, unreadable, ticked, received, handle_reading, of_processed, unless_err,
}
use rest_diameter_bridge.Transport.Processor.{Processed, done, failed}
use rest_diameter_bridge.Base.{
  ◌≡◌, refl, Bool, true, false, Option, none, some, ◌==◌, ◌∙◌, if◌then◌else◌, not, ◌&&◌,
}

module _ {W : Type 0} (s : Stream W) where
  send_command-connected :
      (c : Command) (t : TcpClientConnection W) → (send_command s c t).1.connected ≡ t.connected
  unfolding send_command
  send_command-connected c t = refl

  pub send-connected :
      (c : Command) (t : TcpClientConnection W) → (send s c t).1.connected ≡ t.connected
  unfolding send
  send-connected c t = within (not (c.command_code == capabilities_exchange) && not t.connected)
    where
      within :
          (b : Bool)
          → (if b then (some not_established, t) else send_command s c t).1.connected ≡ t.connected
      within true = refl
      within false = send_command-connected c t

  and_next-connected :
      (next : TcpClientConnection W → TcpResult × TcpClientConnection W)
      (r : TcpResult × TcpClientConnection W)
      → ((t : TcpClientConnection W) → (next t).1.connected ≡ t.connected)
      → (and_next s next r).1.connected ≡ r.1.connected
  and_next-connected next (none, t) h = h t
  and_next-connected next (some e, t) h = refl

  shut-connected :
      (t : TcpClientConnection W) (o : Option W) → (shut s t o).1.connected ≡ t.connected
  shut-connected t none = refl
  shut-connected t (some w) = refl

  shut_writer-connected :
      (t : TcpClientConnection W) (o : Option W) → (shut_writer s t o).1.connected ≡ t.connected
  shut_writer-connected t none = refl
  shut_writer-connected t (some w) = shut-connected t (s.shutdown w)

  pub close-connected : (t : TcpClientConnection W) → (close s t).1.connected ≡ t.connected
  unfolding close send_dpr_command
  close-connected t =
      and_next-connected (λ t. shut_writer s t t.writer) (send_dpr_command s t)
        (λ t. shut_writer-connected t t.writer)
      ∙ send_command-connected _ (advance s t)

  send_dwa-connected : (t : TcpClientConnection W) → (send_dwa s t).1.connected ≡ t.connected
  unfolding send_dwa
  send_dwa-connected t = send_command-connected _ (advance s t)

  process_dpr-connected :
      (c : Command) (t : TcpClientConnection W) → (process_dpr s c t).1.connected ≡ t.connected
  unfolding process_dpr
  process_dpr-connected c t = and_next-connected (close s) _ close-connected ∙ send-connected _ t

  unless_err-connected :
      (r : TcpResult × TcpClientConnection W) → (unless_err r).1.connected ≡ r.1.connected
  unless_err-connected (none, t) = refl
  unless_err-connected (some e, t) = refl

  process_own-connected :
      (node : Processed) (c : Command) (t : TcpClientConnection W)
      → (of_processed node (process_own s c t) t).1.connected ≡ t.connected
  unfolding process_own
  process_own-connected node c t =
      within (c.command_code == device_watchdog) (is_request c) (is_disconnect_request c) node
    where
      within :
          (a b d : Bool) (node : Processed)
          → (of_processed node
              (if a
                then some (if b then send_dwa s t else (none, t))
                else if d
                then some (process_dpr s c t)
                else none)
              t).1.connected
            ≡ t.connected
      within true true d node = unless_err-connected (send_dwa s t) ∙ send_dwa-connected t
      within true false d node = refl
      within false b true node =
          unless_err-connected (process_dpr s c t) ∙ process_dpr-connected c t
      within false b false done = refl
      within false b false (failed e) = refl

  pub handle_reading-connected :
      (x : Reading) (t : TcpClientConnection W) → (handle_reading s x t).1.connected ≡ t.connected
  unfolding handle_reading
  handle_reading-connected closed t = refl
  handle_reading-connected unreadable t = refl
  handle_reading-connected (ticked dwr) t =
      unless_err-connected (send_command s dwr (advance s t))
      ∙ send_command-connected dwr (advance s t)
  handle_reading-connected (received c node) t = process_own-connected node c t
