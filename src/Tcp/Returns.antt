-- ===== src/Tcp/Returns.antt =====
-- A connection with a `StreamPipeline` returns when it is told to end.
use rs_netty.Common.{◌≡◌, ◌≢◌, Bool, Option, none, some, List, []}
use rs_netty.Common.Bytes.{Bytes}
use rs_netty.Error.{Result, ok, err}
use rs_netty.Codec.{IsFraming}
use rs_netty.Context.{Done, done, Context, ConnectionStats}
use rs_netty.Pipeline.{Flow, next, stop}
use rs_netty.Pipeline.Runtime.{
  Wire, Sink, Sending, encode_outbound, encode_next, encode_flow, process_outbound,
}
use rs_netty.Pipeline.Inbound.{
  StreamPipeline, Receiving, Received, sink_of, after_business, after_inbound,
  process_inbound_flushable, sent_out, process_outbound_msg, stream_pipeline,
}
use rs_netty.Pipeline.Preserve.{run_handler-Good}
use rs_netty.Tcp.{CloseReason, TcpConnectionConfig, good, failed, stuck}
use rs_netty.Tcp.Connection.{Event, Outcome, run}
use rs_netty.Tcp.Reasons.{Any}
use rs_netty.Tcp.Steady.{ValidPipeline, decode_frame-IsFraming}
use rs_netty.Tcp.Life.{Life, new_runtime, after_run, after_opened, run_stream_connection_with_life}
use rs_netty.Tcp.Ends.{EndsIt, IsProgressive, IsOver, run_ends}

module _ {C I B H O N Item Msg Cur W Out : Type 0} (rx : Receiving C I B H Item Msg Cur W)
    (tx : Sending C O N W Out) (Valid : C → Type 0) (framing : IsFraming rx.decode Valid)
    (encode_valid : (c : C) (x : Out) (dst : Bytes) → Valid c → Valid (tx.encode c x dst).1) where
  abbrev P : Type 0
  P = StreamPipeline C I B H O

  abbrev Good : Sink C O N → Type 0
  Good s = Valid s.codec

  encode-Good :
      (s : Sink C O N) (msg : W)
      → Good s
      → (encode_outbound tx s msg).0 ≡ done
      → Good (encode_outbound tx s msg).1
  unfolding encode_outbound
  encode-Good s msg g h = go (tx.process s.outbound msg)
    where
      go : (r : Result (Flow Out) × O) → Good (encode_next tx s r).1
      go (ok (next x), o) = encode_valid s.codec x s.wire.write_buf g
      go (ok stop, o) = g
      go (err e, o) = g

  abbrev Kept : Received rx tx → Type 0
  Kept (result, p, ctx, wire) = result ≡ done → Valid p.codec

  business-Kept :
      (p : P) (ctx : Context W) (wire : Wire N) (r : Result (Flow Cur) × B)
      → Valid p.codec
      → Kept (after_business rx tx p ctx wire r)
  business-Kept p ctx wire (ok (next msg), b) v h =
      run_handler-Good tx Good (λ s g e. g) encode-Good (rx.read p.handler msg) ctx
        (sink_of rx tx p wire) v h
  business-Kept p ctx wire (ok stop, b) v h = v
  business-Kept p ctx wire (err x, b) v h = v

  inbound-Kept :
      (p : P) (ctx : Context W) (wire : Wire N) (r : Result (Flow Msg) × I)
      → Valid p.codec
      → Kept (after_inbound rx tx p ctx wire r)
  inbound-Kept p ctx wire (ok (next msg), i) v h =
      business-Kept (record p { inbound = i }) ctx wire (rx.business p.business msg) v h
  inbound-Kept p ctx wire (ok stop, i) v h = v
  inbound-Kept p ctx wire (err x, i) v h = v

  outbound-Kept :
      (p : P) (msg : W) (dst : Bytes)
      → Valid p.codec
      → Valid (process_outbound_msg rx tx p msg dst).1.codec
  unfolding process_outbound
  outbound-Kept p msg dst v = go (tx.process p.outbound msg)
    where
      go :
          (r : Result (Flow Out) × O)
          → Valid (sent_out rx tx p (encode_flow tx p.codec dst r)).1.codec
      go (ok (next x), o) = encode_valid p.codec x dst v
      go (ok stop, o) = v
      go (err e, o) = v

  stream_pipeline-IsProgressive : IsProgressive (stream_pipeline rx tx) (ValidPipeline Valid)
  unfolding process_inbound_flushable
  stream_pipeline-IsProgressive =
      let laws = decode_frame-IsFraming rx tx Valid framing encode_valid in
      record {
        waits = λ p buf v e. rw ((laws.waits p buf v e).0) v;
        frames = λ p buf v e. let (v', shorter, _) = laws.frames p buf [] v e in (v', shorter);
        keeps = λ p ctx wire msg v h. inbound-Kept p ctx wire (rx.inbound p.inbound msg) v h;
        sends = λ p msg dst v. outbound-Kept p msg dst v;
      }

  module _ {L : Type 0} (life : Life L) where
    -- For a decoder with the laws of a framing, an encoder that keeps its codec valid, and a codec that
    -- is valid at the start: a connection with any stages, handler, socket and hooks returns a result
    -- when one of its turns ends it (a shutdown, an end of the stream or a failed read, a closed or
    -- dropped channel, the idle timer), whatever it reads and writes before.
    pub connection_returns :
        (config : TcpConnectionConfig) (turns : List (Bool × Event W)) (p : P) (socket : N)
        (stats : Option ConnectionStats) (l : L)
        → Valid p.codec
        → Any EndsIt turns
        → (run_stream_connection_with_life
            (stream_pipeline rx tx)
            tx.write_all
            life
            config
            turns
            p
            socket
            stats
            l).0
          ≢ none
    unfolding run_stream_connection_with_life
    connection_returns config turns p socket stats l v h = opened (life.tcp_connection_opened l)
      where
        over :
            (l' : L) (d : Outcome (stream_pipeline rx tx) tx.write_all (Option CloseReason))
            → IsOver
                (stream_pipeline rx tx)
                tx.write_all
                (ValidPipeline Valid)
                stream_pipeline-IsProgressive
                d
            → (after_run (stream_pipeline rx tx) tx.write_all life l' d).0 ≢ none
        over l' (good none, r) k = absurd k
        over l' (good (some reason), r) k = λ e. cc
        over l' (failed f, r) k = λ e. cc
        over l' (stuck, r) k = absurd k

        opened :
            (d : Done × L)
            → (after_opened
                (stream_pipeline rx tx)
                tx.write_all
                life
                config
                turns
                (new_runtime p socket stats)
                d).0
              ≢ none
        opened (ok a, l') =
            over l'
              (run (stream_pipeline rx tx) tx.write_all config turns (new_runtime p socket stats))
              (run_ends (stream_pipeline rx tx) tx.write_all (ValidPipeline Valid)
                stream_pipeline-IsProgressive config turns (new_runtime p socket stats) v h)
        opened (err e, l') = λ k. cc
