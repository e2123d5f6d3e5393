-- ===== src/Tcp/Steady.antt =====
-- A pipeline is steady: its decoder is a framing, and processing keeps the codec valid.
use rs_netty.Common.{
  ◌≡◌, refl, sym, ap, ◌∙◌, Option, none, some, ◌++◌, Bool-cases, inl, inr, ◌<◌, length,
}
use rs_netty.Common.Bytes.{Bytes}
use rs_netty.Error.{Result, Error, Message, ok, err}
use rs_netty.Codec.{IsFraming, IsErr}
use rs_netty.Context.{Done, done, Context}
use rs_netty.Pipeline.{Flow, next, stop}
use rs_netty.Pipeline.Runtime.{
  Wire, Sink, Sending, is_empty, written, flush_write_buf, flush_sink, encode_outbound, encode_next,
  count_encoded,
}
use rs_netty.Pipeline.Inbound.{
  StreamPipeline, Receiving, Received, with_codec, decode_frame, sink_of, after_business,
  after_inbound, process_inbound_flushable, stream_pipeline,
}
use rs_netty.Pipeline.Preserve.{run_handler-Good}
use rs_netty.Tcp.Stream.{IsSteady}

-- The codec of the pipeline is valid.
abbrev pub ValidPipeline : {C I B H O : Type 0} → (C → Type 0) → StreamPipeline C I B H O → Type 0
ValidPipeline Valid p = Valid p.codec

module _ {C I B H O N Item Msg Cur W Out : Type 0} (rx : Receiving C I B H Item Msg Cur W)
    (tx : Sending C O N W Out) (Valid : C → Type 0) (framing : IsFraming rx.decode Valid)
    (encode_valid : (c : C) (x : Out) (dst : Bytes) → Valid c → Valid (tx.encode c x dst).1) where
  abbrev P : Type 0
  P = StreamPipeline C I B H O

  -- A poll of the pipeline is a poll of its codec.
  codec_poll :
      (p : P) (buf : Bytes) {result : Result (Option Item)} {p' : P} {rest : Bytes}
      → decode_frame rx tx p buf ≡ (result, p', rest)
      → (rx.decode p.codec buf ≡ (result, p'.codec, rest)) × (record p { codec = p'.codec } ≡ p')
  codec_poll p buf {result} {p'} {rest} e =
      let same : record p { codec = (rx.decode p.codec buf).1 } ≡ p' = ap (λ d. d.1) e in
      (
        λ i. ((e i).0, (e i).1.codec, (e i).2),
        ap (λ q. record p { codec = q.codec }) (sym same) ∙ same,
      )

  frame_waits :
      (p : P) (buf : Bytes) {p' : P} {rest : Bytes}
      → ValidPipeline Valid p
      → decode_frame rx tx p buf ≡ (ok none, p', rest)
      → (p' ≡ p) × (rest ≡ buf)
  frame_waits p buf {p'} {rest} v e =
      let (e', same) = codec_poll p buf e in
      let (c, b) = framing.waits p.codec buf v e' in
      (sym same ∙ ap (λ c'. record p { codec = c' }) c, b)

  frame_frames :
      (p : P) (buf more : Bytes) {x : Item} {p' : P} {rest : Bytes}
      → ValidPipeline Valid p
      → decode_frame rx tx p buf ≡ (ok (some x), p', rest)
      → ValidPipeline Valid p'
        × (length rest < length buf)
        × (decode_frame rx tx p (buf ++ more) ≡ (ok (some x), p', rest ++ more))
  frame_frames p buf more {x} {p'} {rest} v e =
      let (e', same) = codec_poll p buf e in
      let (v', shorter, longer) = framing.frames p.codec buf more v e' in
      (v', shorter, ap (with_codec rx tx p) longer ∙ (λ i. (ok (some x), same i, rest ++ more)))

  frame_fails :
      (p : P) (buf more : Bytes) {e : Error} {p' : P} {rest : Bytes}
      → ValidPipeline Valid p
      → decode_frame rx tx p buf ≡ (err e, p', rest)
      → IsErr (decode_frame rx tx p (buf ++ more)).0
  frame_fails p buf more v e = framing.fails p.codec buf more v (codec_poll p buf e).0

  pub decode_frame-IsFraming : IsFraming (decode_frame rx tx) (ValidPipeline Valid)
  decode_frame-IsFraming = record {
    waits = frame_waits;
    frames = frame_frames;
    fails = frame_fails;
  }

  -- The codec is valid, and nothing is counted.
  abbrev Good : Sink C O N → Type 0
  Good s = Valid s.codec × (s.wire.stats ≡ none)

  flush-Good : (s : Sink C O N) → Good s → (flush_sink tx s).0 ≡ done → Good (flush_sink tx s).1
  unfolding flush_write_buf
  flush-Good s g h = elim (Bool-cases (is_empty s.wire.write_buf)) [
    | inl e ↦ rw e g
    | inr e ↦ rw e (g.0, go (tx.write_all s.wire.socket s.wire.write_buf))
  ]
    where
      go : (r : Option Message × N) → (written tx.write_all s.wire r).1.stats ≡ none
      go (none, n) = rw g.1 refl
      go (some m, n) = g.1

  encode-Good :
      (s : Sink C O N) (msg : W)
      → Good s
      → (encode_outbound tx s msg).0 ≡ done
      → Good (encode_outbound tx s msg).1
  unfolding encode_outbound
  encode-Good s msg g h = go (tx.process s.outbound msg)
    where
      uncounted : (d : Done) → count_encoded tx d s.wire.stats ≡ none
      uncounted (ok a) = rw g.1 refl
      uncounted (err e) = g.1

      go : (r : Result (Flow Out) × O) → Good (encode_next tx s r).1
      go (ok (next x), o) = (
        encode_valid s.codec x s.wire.write_buf g.0,
        uncounted (tx.encode s.codec x s.wire.write_buf).0,
      )
      go (ok stop, o) = g
      go (err e, o) = g

  abbrev Kept : Received rx tx → Type 0
  Kept (result, p, ctx, wire) = result ≡ done → Valid p.codec × (wire.stats ≡ none)

  business-Kept :
      (p : P) (ctx : Context W) (wire : Wire N) (r : Result (Flow Cur) × B)
      → Valid p.codec
      → wire.stats ≡ none
      → Kept (after_business rx tx p ctx wire r)
  business-Kept p ctx wire (ok (next msg), b) v e h =
      run_handler-Good tx Good flush-Good encode-Good (rx.read p.handler msg) ctx
        (sink_of rx tx p wire) (v, e) h
  business-Kept p ctx wire (ok stop, b) v e h = (v, e)
  business-Kept p ctx wire (err x, b) v e h = (v, e)

  inbound-Kept :
      (p : P) (ctx : Context W) (wire : Wire N) (r : Result (Flow Msg) × I)
      → Valid p.codec
      → wire.stats ≡ none
      → Kept (after_inbound rx tx p ctx wire r)
  inbound-Kept p ctx wire (ok (next msg), i) v e h =
      business-Kept (record p { inbound = i }) ctx wire (rx.business p.business msg) v e h
  inbound-Kept p ctx wire (ok stop, i) v e h = (v, e)
  inbound-Kept p ctx wire (err x, i) v e h = (v, e)

  -- For a decoder with the laws of a framing, and an encoder that keeps its codec valid, a pipeline
  -- of any stages and any handler is steady: as a decoder it has the laws of a framing, and processing
  -- a message keeps the codec valid and counts nothing where counting is off.
  pub stream_pipeline-IsSteady : IsSteady (stream_pipeline rx tx) (ValidPipeline Valid)
  unfolding process_inbound_flushable
  stream_pipeline-IsSteady = record {
    laws = decode_frame-IsFraming;
    keeps = λ p ctx wire msg v e h. inbound-Kept p ctx wire (rx.inbound p.inbound msg) v e h;
  }
