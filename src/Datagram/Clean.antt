-- ===== src/Datagram/Clean.antt =====
-- What holds of the UDP loop at every turn: nothing is left in the write buffer, and large datagrams
-- are refused where they can be told.
use rs_netty.Common.{
  ltb, ◌≡◌, refl, sym, ◌∙◌, Bool, true, false, Bool-cases, inl, inr, none, some, List, [], ◌∷◌,
  length, append-nil, take,
}
use rs_netty.Common.Bytes.{Bytes}
use rs_netty.Error.{Result, ok, err}
use rs_netty.Context.{Done, done}
use rs_netty.Pipeline.{Flow, next, stop}
use rs_netty.Pipeline.Inbound.{StreamPipeline}
use rs_netty.Datagram.{DatagramContext, DatagramCommand, close, new_context}
use DatagramCommand.{write_to, write_to_and_flush}
use rs_netty.Datagram.Runtime.{
  Sending, Receiving, Received, sink_of, after_business, after_inbound, process_inbound_flushable,
}
use rs_netty.Datagram.Delivery.{IsUdpSocket, ledger, send-ledger, datagrams_arrive}
use rs_netty.Datagram.Socket.{
  UdpSocketConfig, Event, datagram, recv_error, command, shutdown_changed, read_capacity, Progress,
  continue, ended, Runtime, unless_closed, after_process, after_decode, on_datagram, send_to_peer,
  unless_failed, replied, on_command, on_event, continue_with, run,
}

module _ {C I B H O N A Item Msg Cur W Out : Type 0} (rx : Receiving C I B H A Item Msg Cur W)
    (tx : Sending C O N A W Out) (log : N → List (A × Bytes))
    (socket : IsUdpSocket tx.send_to log) where
  -- A turn that does not end with an error leaves nothing in the write buffer.
  abbrev pub IsClean : Progress × Runtime rx tx → Type 0
  IsClean (continue, r) = r.write_buf ≡ []
  IsClean (ended (ok a), r) = r.write_buf ≡ []
  IsClean (ended (err e), r) = Unit

  abbrev Kept : Received rx tx → Type 0
  Kept (result, p, ctx, n, buf) = result ≡ done → buf ≡ []

  business-Kept :
      (p : StreamPipeline C I B H O) (ctx : DatagramContext A W) (n : N) (buf : Bytes)
      (r : Result (Flow Cur) × B)
      → buf ≡ []
      → Kept (after_business rx tx p ctx n buf r)
  business-Kept p ctx n buf (ok (next msg), b) e h =
      (datagrams_arrive tx log socket (rx.read p.handler msg) ctx (sink_of rx tx p n buf) e h).1
  business-Kept p ctx n buf (ok stop, b) e h = e
  business-Kept p ctx n buf (err x, b) e h = e

  inbound-Kept :
      (p : StreamPipeline C I B H O) (ctx : DatagramContext A W) (n : N) (buf : Bytes)
      (r : Result (Flow Msg) × I)
      → buf ≡ []
      → Kept (after_inbound rx tx p ctx n buf r)
  inbound-Kept p ctx n buf (ok (next msg), i) e h =
      business-Kept (record p { inbound = i }) ctx n buf (rx.business p.business msg) e h
  inbound-Kept p ctx n buf (ok stop, i) e h = e
  inbound-Kept p ctx n buf (err x, i) e h = e

  process-IsClean :
      (r : Runtime rx tx) (d : Received rx tx) → Kept d → IsClean (after_process rx tx r d)
  process-IsClean r (ok a, p, ctx, n, buf) k = go ctx.close_requested
    where
      go :
          (b : Bool)
          → IsClean (unless_closed rx tx b, record r { pipeline = p; socket = n; write_buf = buf })
      go true = k refl
      go false = k refl
  process-IsClean r (err e, p, ctx, n, buf) k = tt

  decode-IsClean :
      (peer : A) (r : Runtime rx tx) (d : Result Item × C)
      → r.write_buf ≡ []
      → IsClean (after_decode rx tx peer r d)
  unfolding process_inbound_flushable
  decode-IsClean peer r (ok msg, codec) e = process-IsClean r _ (
      inbound-Kept (record r.pipeline { codec = codec }) (new_context peer) r.socket r.write_buf
        (rx.inbound r.pipeline.inbound msg) e)
  decode-IsClean peer r (err x, codec) e = tt

  datagram-IsClean :
      (config : UdpSocketConfig) (peer : A) (read : Bytes) (r : Runtime rx tx)
      → r.write_buf ≡ []
      → IsClean (on_datagram rx tx config peer read r)
  unfolding on_datagram
  datagram-IsClean config peer read r e =
      elim (Bool-cases (ltb config.max_datagram_size (length read))) [
        | inl t ↦ rw t tt
        | inr t ↦ rw t (decode-IsClean peer r (rx.decode_datagram r.pipeline.codec read) e)
      ]

  failed-IsClean :
      (d : Done × Runtime rx tx)
      → (d.0 ≡ done → d.1.write_buf ≡ [])
      → IsClean (unless_failed rx tx d)
  failed-IsClean (ok a, r) h = h refl
  failed-IsClean (err e, r) h = tt

  send-clean :
      (peer : A) (msg : W) (r : Runtime rx tx)
      → r.write_buf ≡ []
      → let (result, r') = send_to_peer rx tx peer msg r in
        result ≡ done
        → (log r'.socket
            ≡ ledger tx log socket
                (sink_of rx tx r.pipeline r.socket r.write_buf)
                ((peer, msg) ∷ []))
          × (r'.write_buf ≡ [])
  send-clean peer msg r e h =
      let (p, q) =
        send-ledger tx log socket peer msg (sink_of rx tx r.pipeline r.socket r.write_buf) [] e h in
      (sym (append-nil (log (send_to_peer rx tx peer msg r).1.socket)) ∙ p, q)

  event-IsClean :
      (config : UdpSocketConfig) (event : Event A W) (r : Runtime rx tx)
      → r.write_buf ≡ []
      → IsClean (on_event rx tx config event r)
  unfolding on_event on_command
  event-IsClean config (datagram peer bytes) r e =
      datagram-IsClean config peer (take (read_capacity config) bytes) r e
  event-IsClean config (recv_error m) r e = tt
  event-IsClean config (command (some (write_to peer msg))) r e =
      failed-IsClean (send_to_peer rx tx peer msg r) (λ h. (send-clean peer msg r e h).1)
  event-IsClean config (command (some (write_to_and_flush peer msg))) r e =
      failed-IsClean (replied rx tx (send_to_peer rx tx peer msg r))
        (λ h. (send-clean peer msg r e h).1)
  event-IsClean config (command (some close)) r e = e
  event-IsClean config (command none) r e = e
  event-IsClean config shutdown_changed r e = e

  continue-IsClean :
      (d : Progress × Runtime rx tx) (rest : Runtime rx tx → Progress × Runtime rx tx)
      → IsClean d
      → ((r : Runtime rx tx) → r.write_buf ≡ [] → IsClean (rest r))
      → IsClean (continue_with rx tx rest d)
  continue-IsClean (continue, r) rest h ih = ih r h
  continue-IsClean (ended (ok a), r) rest h ih = h
  continue-IsClean (ended (err e), r) rest h ih = tt

  -- For a socket with its laws and an empty write buffer: after any turns, while the loop runs and when
  -- it has ended without an error, the write buffer is empty, so that no two messages share a datagram.
  pub run_socket-IsClean :
      (config : UdpSocketConfig) (turns : List (Bool × Event A W)) (r : Runtime rx tx)
      → r.write_buf ≡ []
      → IsClean (run rx tx config turns r)
  unfolding run
  run_socket-IsClean config [] r e = e
  run_socket-IsClean config ((true, event) ∷ turns) r e = e
  run_socket-IsClean config ((false, event) ∷ turns) r e =
      continue-IsClean (on_event rx tx config event r) (run rx tx config turns)
        (event-IsClean config event r e) (run_socket-IsClean config turns)
