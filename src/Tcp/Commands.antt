-- ===== src/Tcp/Commands.antt =====
-- The commands of a channel in front of a `StreamPipeline`: what the reply to `write_and_flush` promises,
-- and what is counted.
use rs_netty.Common.{
  ◌+◌, ◌≡◌, refl, sym, ap, ◌∙◌, Option, none, some, List, [], ◌∷◌, ◌++◌, append-nil,
  get_elem?-append_length, arith,
}
use rs_netty.Common.Bytes.{Bytes}
use rs_netty.Error.{Result, ok, err}
use rs_netty.Context.{Done, done, u64, ConnectionStats, add_frame_written}
use rs_netty.Pipeline.{Flow, next, stop}
use rs_netty.Pipeline.Runtime.{
  Wire, Sink, Sending, flush_write_buf, process_outbound, encode_flow, encode_outbound,
}
use rs_netty.Pipeline.Ledger.{IsSocket, IsAppending, encodings, ledger}
use rs_netty.Pipeline.Delivery.{flush_write_buf_lem}
use rs_netty.Pipeline.Inbound.{
  StreamPipeline, Receiving, stream_pipeline, process_outbound_msg, sent_out, sink_of,
}
use rs_netty.Tcp.{
  CloseReason, StreamCommand, write, write_and_flush, ConnectionResult, good, failed, stuck,
}
use rs_netty.Tcp.Connection.{
  StreamConnectionRuntime, Outcome, flushed, flush_connection, after_outbound, send_message,
  still_open, reply, replied, handle_command,
}

module _ {C I B H O N Item Msg Cur W Out : Type 0} (rx : Receiving C I B H Item Msg Cur W)
    (tx : Sending C O N W Out) where
  abbrev Runtime : Type 0
  Runtime = StreamConnectionRuntime (StreamPipeline C I B H O) N W

  -- The sink of a connection.
  abbrev pub sink : Runtime → Sink C O N
  sink r = sink_of rx tx r.pipeline r.wire

  abbrev pub on_command :
      StreamCommand W → Runtime → ConnectionResult (Option CloseReason) × Runtime
  on_command cmd r = handle_command (stream_pipeline rx tx) tx.write_all (some cmd) r

  send_message-replies :
      (r : Runtime) (msg : W)
      → (send_message (stream_pipeline rx tx) tx.write_all msg r).1.replies ≡ r.replies
  unfolding send_message
  send_message-replies r msg = go (process_outbound_msg rx tx r.pipeline msg r.wire.write_buf)
    where
      kept :
          (r' : Runtime) (d : Done × Wire N)
          → (flushed (stream_pipeline rx tx) tx.write_all r' d).1.replies ≡ r'.replies
      kept r' (ok a, w) = refl
      kept r' (err e, w) = refl

      go :
          (d : Done × StreamPipeline C I B H O × Bytes)
          → (after_outbound (stream_pipeline rx tx) tx.write_all r d).1.replies ≡ r.replies
      go (ok a, p, dst) =
          let wire : Wire N = record r.wire {
            write_buf = dst;
            stats = add_frame_written r.wire.stats;
          } in
          kept (record r { pipeline = p; wire = wire }) (flush_write_buf tx.write_all wire)
      go (err e, p, dst) = refl

  -- The reply that was sent last.
  last_reply :
      (r : Runtime) (d : Outcome (stream_pipeline rx tx) tx.write_all (Unit {0}))
      → d.1.replies ≡ r.replies
      → (replied (stream_pipeline rx tx) tx.write_all d).1.replies ≡ r.replies ++ (done ∷ [])
      → reply (stream_pipeline rx tx) tx.write_all d.0 ≡ done
  last_reply r d e h = ground (
    arith,
    get_elem?-append_length r.replies (reply (stream_pipeline rx tx) tx.write_all d.0) [],
    get_elem?-append_length r.replies done [],
  )

  module _ (delivered : N → Bytes) (socket : IsSocket tx.write_all delivered)
      (appends : IsAppending tx.encode) where
    -- What a message that was sent leaves behind, when it was encoded to `dst`.
    flushed_lem :
        (r : Runtime)
        → let d = flush_connection (stream_pipeline rx tx) tx.write_all r in
          reply (stream_pipeline rx tx) tx.write_all d.0 ≡ done
          → (delivered d.1.wire.socket ≡ delivered r.wire.socket ++ r.wire.write_buf)
            × (d.1.wire.write_buf ≡ [])
    flushed_lem r h =
        go (flush_write_buf tx.write_all r.wire) h
          (flush_write_buf_lem tx delivered socket appends r.wire)
      where
        go :
            (d : Done × Wire N)
            → reply
                (stream_pipeline rx tx)
                tx.write_all
                (flushed (stream_pipeline rx tx) tx.write_all r d).0
              ≡ done
            → (d.0 ≡ done
                → (delivered d.1.socket ≡ delivered r.wire.socket ++ r.wire.write_buf)
                  × (d.1.write_buf ≡ []))
            → (delivered (flushed (stream_pipeline rx tx) tx.write_all r d).1.wire.socket
                ≡ delivered r.wire.socket ++ r.wire.write_buf)
              × ((flushed (stream_pipeline rx tx) tx.write_all r d).1.wire.write_buf ≡ [])
        go (ok a, w) k f = f refl
        go (err e, w) k f = absurd (ground arith)

    -- `process_outbound` appends the encoding of the message.
    outbound_lem :
        (codec : C) (outbound : O) (msg : W) (dst : Bytes)
        → (process_outbound tx codec outbound msg dst).3
          ≡ dst ++ encodings tx codec outbound (msg ∷ [])
    unfolding process_outbound
    outbound_lem codec outbound msg dst = go (tx.process outbound msg)
      where
        go :
            (d : Result (Flow Out) × O)
            → (encode_flow tx codec dst d).3 ≡ dst ++ ((encode_flow tx codec [] d).3 ++ [])
        go (ok (next x), o) =
            rw (appends codec x dst)
              (ap (λ t. dst ++ t) (sym (append-nil (tx.encode codec x []).2)))
        go (ok stop, o) = sym (append-nil dst)
        go (err e, o) = sym (append-nil dst)

    sent_lem :
        (r : Runtime) (msg : W)
        → let d = send_message (stream_pipeline rx tx) tx.write_all msg r in
          reply (stream_pipeline rx tx) tx.write_all d.0 ≡ done
          → (delivered d.1.wire.socket ≡ ledger tx delivered (sink r) (msg ∷ []))
            × (d.1.wire.write_buf ≡ [])
    unfolding send_message
    sent_lem r msg h =
        go (process_outbound tx r.pipeline.codec r.pipeline.outbound msg r.wire.write_buf)
          (outbound_lem r.pipeline.codec r.pipeline.outbound msg r.wire.write_buf) h
      where
        go :
            (d : Done × C × O × Bytes)
            → d.3 ≡ r.wire.write_buf ++ encodings tx r.pipeline.codec r.pipeline.outbound (msg ∷ [])
            → let d' =
                after_outbound
                  (stream_pipeline rx tx)
                  tx.write_all
                  r
                  (sent_out rx tx r.pipeline d) in
              reply (stream_pipeline rx tx) tx.write_all d'.0 ≡ done
              → (delivered d'.1.wire.socket ≡ ledger tx delivered (sink r) (msg ∷ []))
                × (d'.1.wire.write_buf ≡ [])
        go (ok a, c, o, dst) e k =
            let (p, q) = flushed_lem _ k in (p ∙ ap (λ t. delivered r.wire.socket ++ t) e, q)
        go (err x, c, o, dst) e k = absurd (ground arith)

    replies_sent :
        (r : Runtime) (msg : W) {replies : List Done}
        → (on_command (write_and_flush msg) r).1.replies ≡ replies
        → (replied
            (stream_pipeline rx tx)
            tx.write_all
            (send_message (stream_pipeline rx tx) tx.write_all msg r)).1.replies
          ≡ replies
    unfolding handle_command
    replies_sent r msg {replies} h = go (send_message (stream_pipeline rx tx) tx.write_all msg r) h
      where
        go :
            (d : Outcome (stream_pipeline rx tx) tx.write_all (Unit {0}))
            → (still_open
                (stream_pipeline rx tx)
                tx.write_all
                (replied (stream_pipeline rx tx) tx.write_all d)).1.replies
              ≡ replies
            → (replied (stream_pipeline rx tx) tx.write_all d).1.replies ≡ replies
        go (good a, r') k = k
        go (failed f, r') k = k
        go (stuck, r') k = k

    -- For a socket and an encoder with their laws: when the reply to a `write_and_flush` is a success,
    -- all that was buffered before and then the encoding of the message have been delivered, nothing
    -- is left in the buffer, and the connection stays open.
    pub write_and_flush_delivers :
        (r : Runtime) (msg : W)
        → let (result, r') = on_command (write_and_flush msg) r in
          r'.replies ≡ r.replies ++ (done ∷ [])
          → (delivered r'.wire.socket ≡ ledger tx delivered (sink r) (msg ∷ []))
            × (r'.wire.write_buf ≡ [])
            × (result ≡ good none)
    unfolding handle_command
    write_and_flush_delivers r msg h =
        go (send_message (stream_pipeline rx tx) tx.write_all msg r)
          (last_reply r (send_message (stream_pipeline rx tx) tx.write_all msg r)
            (send_message-replies r msg) (replies_sent r msg h))
          (sent_lem r msg)
      where
        go :
            (d : Outcome (stream_pipeline rx tx) tx.write_all (Unit {0}))
            → reply (stream_pipeline rx tx) tx.write_all d.0 ≡ done
            → (reply (stream_pipeline rx tx) tx.write_all d.0 ≡ done
                → (delivered d.1.wire.socket ≡ ledger tx delivered (sink r) (msg ∷ []))
                  × (d.1.wire.write_buf ≡ []))
            → let (result, r') =
                still_open
                  (stream_pipeline rx tx)
                  tx.write_all
                  (replied (stream_pipeline rx tx) tx.write_all d) in
              (delivered r'.wire.socket ≡ ledger tx delivered (sink r) (msg ∷ []))
              × (r'.wire.write_buf ≡ [])
              × (result ≡ good none)
        go (good a, r') k f = let (p, q) = f k in (p, q, refl)
        go (failed x, r') k f = absurd (ground arith)
        go (stuck, r') k f = absurd (ground arith)

  -- A message that the outbound stages stop is not encoded. Sent through a channel, with tracking on
  -- and nothing buffered, it counts as a frame written; written by a handler, it does not.
  pub stopped_message_counted :
      (r : Runtime) (msg : W) (o : O) (stats : ConnectionStats)
      → tx.process r.pipeline.outbound msg ≡ (ok stop, o)
      → r.wire.stats ≡ some stats
      → r.wire.write_buf ≡ []
      → let (result, r') = on_command (write msg) r in
        (r'.wire.stats ≡ some (record stats { frames_written = u64 (stats.frames_written + 1) }))
        × (r'.wire.socket ≡ r.wire.socket)
        × ((encode_outbound tx (sink r) msg).1.wire.stats ≡ some stats)
  unfolding handle_command send_message process_outbound flush_write_buf encode_outbound
  stopped_message_counted r msg o stats e f g = rw (e, f, g) (refl, refl, refl)
