-- ===== src/Tcp/Reasons.antt =====
-- Why a connection ends: the close reason against the event, or the error, that it is given for.
use rs_netty.Common.{
  ℕ, zero, suc, ◌==◌, ltb, ◌≡◌, refl, ◌⊎◌, inl, inr, Bool, true, false, Bool-cases, Option, none,
  some, List, [], ◌∷◌, length, arith,
}
use rs_netty.Common.Bytes.{Bytes}
use rs_netty.Error.{Error, Message, io, decode, encode, ok, err}
use rs_netty.Codec.{Poll}
use rs_netty.Context.{Done, Context}
use rs_netty.Pipeline.Runtime.{Wire, is_empty, written, flush_write_buf}
use rs_netty.Pipeline.Inbound.{StreamRuntimePipeline}
use rs_netty.Tcp.{
  CloseReason, TcpConnectionConfig, write, write_and_flush, close, ConnectionResult, good, failed,
  stuck, decode_failure, outbound_failure, handler_failure,
}
use rs_netty.Tcp.Connection.{
  StreamConnectionRuntime, Event, bytes_read, read_error, command, shutdown_changed, idle_elapsed,
  Outcome, unless_closed, after_process, count_frame, after_decode, frame_loop, handle_read,
  size_checked, flushed, flush_connection, after_outbound, send_message, still_open, replied,
  handle_command, on_event, continue_with, run,
}
use CloseReason.{
  peer_closed, local_closed, channel_closed, handler_closed, server_shutdown, idle_timeout,
  io_error, decode_error, encode_error, frame_too_large, handler_error,
}

-- The reason of a failure says which error it is.
abbrev pub Explains : CloseReason → Error → Type 0
Explains io_error (io m) = Unit
Explains decode_error (decode m) = Unit
Explains encode_error (encode m) = Unit
Explains frame_too_large (Error.frame_too_large n max) = Unit
Explains handler_error (io m) = ⊥
Explains handler_error (Error.frame_too_large n max) = ⊥
Explains handler_error _ = Unit
Explains _ _ = ⊥

-- The turn that makes the loop end with this reason.
abbrev pub Causes : {W : Type 0} → CloseReason → Bool × Event W → Type 0
Causes server_shutdown (true, e) = Unit
Causes server_shutdown (false, shutdown_changed) = Unit
Causes peer_closed (false, bytes_read []) = Unit
Causes local_closed (false, command (some close)) = Unit
Causes channel_closed (false, command none) = Unit
Causes idle_timeout (false, idle_elapsed) = Unit
Causes handler_closed (false, bytes_read (b ∷ bs)) = Unit
Causes _ _ = ⊥

abbrev pub Any : {A : Type 0} → (A → Type 0) → List A → Type 0
Any P [] = ⊥
Any P (x ∷ xs) = P x ⊎ Any P xs

decode-Explains : (e : Error) → Explains (decode_failure e).reason e
decode-Explains e = ground arith

outbound-Explains : (e : Error) → Explains (outbound_failure e).reason e
outbound-Explains e = ground arith

handler-Explains : (e : Error) → Explains (handler_failure e).reason e
handler-Explains e = ground arith

module _ {P N W Item : Type 0} (pipe : StreamRuntimePipeline P N W Item)
    (write_all : N → Bytes → Option Message × N) where
  abbrev Runtime : Type 0
  Runtime = StreamConnectionRuntime P N W

  -- What may come of the frames of one read.
  abbrev FrameEnd : ConnectionResult (Option CloseReason) × Runtime → Type 0
  FrameEnd (good none, r) = Unit
  FrameEnd (good (some reason), r) = (reason ≡ handler_closed) × (r.ctx.close_requested ≡ true)
  FrameEnd (failed f, r) = Explains f.reason f.error
  FrameEnd (stuck, r) = Unit

  unless_closed-FrameEnd :
      (rest : Runtime → Outcome pipe write_all (Option CloseReason)) (b : Bool) (r : Runtime)
      → r.ctx.close_requested ≡ b
      → ((r' : Runtime) → FrameEnd (rest r'))
      → FrameEnd (unless_closed pipe write_all rest b r)
  unless_closed-FrameEnd rest true r e ih = (refl, e)
  unless_closed-FrameEnd rest false r e ih = ih r

  after_process-FrameEnd :
      (rest : Runtime → Outcome pipe write_all (Option CloseReason)) (r : Runtime)
      (d : Done × P × Context W × Wire N)
      → ((r' : Runtime) → FrameEnd (rest r'))
      → FrameEnd (after_process pipe write_all rest r d)
  after_process-FrameEnd rest r (ok a, p, ctx, wire) ih =
      unless_closed-FrameEnd rest ctx.close_requested _ refl ih
  after_process-FrameEnd rest r (err e, p, ctx, wire) ih = handler-Explains e

  after_decode-FrameEnd :
      (rest : Runtime → Outcome pipe write_all (Option CloseReason)) (r : Runtime) (d : Poll P Item)
      → ((r' : Runtime) → FrameEnd (rest r'))
      → FrameEnd (after_decode pipe write_all rest r d)
  after_decode-FrameEnd rest r (ok none, p, buf) ih = tt
  after_decode-FrameEnd rest r (ok (some msg), p, buf) ih =
      after_process-FrameEnd rest (record r { read_buf = buf })
        (pipe.process_inbound_flushable p r.ctx (count_frame pipe write_all r.wire) msg) ih
  after_decode-FrameEnd rest r (err e, p, buf) ih = decode-Explains e

  frame_loop-FrameEnd : (fuel : ℕ) (r : Runtime) → FrameEnd (frame_loop pipe write_all fuel r)
  unfolding frame_loop
  frame_loop-FrameEnd zero r = tt
  frame_loop-FrameEnd (suc fuel) r =
      after_decode-FrameEnd (frame_loop pipe write_all fuel) r (pipe.decode r.pipeline r.read_buf)
        (frame_loop-FrameEnd fuel)

  size_checked-FrameEnd : (max : ℕ) (r : Runtime) → FrameEnd (size_checked pipe write_all max r)
  size_checked-FrameEnd max r = elim (Bool-cases (ltb max (length r.read_buf))) [
    | inl e ↦ rw e tt
    | inr e ↦ rw e (frame_loop-FrameEnd (suc (length r.read_buf)) r)
  ]

  -- A message that is sent only ever fails, or leaves the connection open.
  abbrev SendEnd : {A : Type 0} → ConnectionResult A × Runtime → Type 0
  SendEnd (good a, r) = Unit
  SendEnd (failed f, r) = Explains f.reason f.error
  SendEnd (stuck, r) = Unit

  flushed-SendEnd : (r : Runtime) → SendEnd (flush_connection pipe write_all r)
  unfolding flush_write_buf
  flushed-SendEnd r = elim (Bool-cases (is_empty r.wire.write_buf)) [
    | inl e ↦ rw e tt
    | inr e ↦ rw e (go (write_all r.wire.socket r.wire.write_buf))
  ]
    where
      go :
          (o : Option Message × N) → SendEnd (flushed pipe write_all r (written write_all r.wire o))
      go (none, n) = tt
      go (some m, n) = tt

  after_outbound-SendEnd :
      (r : Runtime) (d : Done × P × Bytes) → SendEnd (after_outbound pipe write_all r d)
  after_outbound-SendEnd r (ok a, p, dst) = flushed-SendEnd _
  after_outbound-SendEnd r (err e, p, dst) = outbound-Explains e

  -- What may come of one turn.
  abbrev pub EventEnd : Event W → ConnectionResult (Option CloseReason) × Runtime → Type 0
  EventEnd event (good none, r) = Unit
  EventEnd event (good (some reason), r) =
      Causes reason (false, event) × (reason ≡ handler_closed → r.ctx.close_requested ≡ true)
  EventEnd event (failed f, r) = Explains f.reason f.error
  EventEnd event (stuck, r) = Unit

  sent-EventEnd :
      (event : Event W) (d : Outcome pipe write_all (Unit {0}))
      → SendEnd d
      → EventEnd event (still_open pipe write_all d)
  sent-EventEnd event (good a, r) h = tt
  sent-EventEnd event (failed f, r) h = h
  sent-EventEnd event (stuck, r) h = tt

  replied-EventEnd :
      (event : Event W) (d : Outcome pipe write_all (Unit {0}))
      → SendEnd d
      → EventEnd event (still_open pipe write_all (replied pipe write_all d))
  replied-EventEnd event (good a, r) h = tt
  replied-EventEnd event (failed f, r) h = h
  replied-EventEnd event (stuck, r) h = tt

  frames-EventEnd :
      (b : ℕ) (bs : Bytes) (d : Outcome pipe write_all (Option CloseReason))
      → FrameEnd d
      → EventEnd (bytes_read (b ∷ bs)) d
  frames-EventEnd b bs (good none, r) h = tt
  frames-EventEnd b bs (good (some reason), r) (e, c) = rw e (tt, λ k. c)
  frames-EventEnd b bs (failed f, r) h = h
  frames-EventEnd b bs (stuck, r) h = tt

  pub on_event-EventEnd :
      (config : TcpConnectionConfig) (event : Event W) (r : Runtime)
      → EventEnd event (on_event pipe write_all config event r)
  unfolding on_event handle_read handle_command send_message
  on_event-EventEnd config (bytes_read []) r = (tt, λ k. absurd (ground arith))
  on_event-EventEnd config (bytes_read (b ∷ bs)) r =
      let e : (suc (length bs) == 0) ≡ false = ground arith in
      rw e (frames-EventEnd b bs _ (size_checked-FrameEnd config.max_frame_size _))
  on_event-EventEnd config (read_error e) r = tt
  on_event-EventEnd config (command (some (write msg))) r =
      sent-EventEnd _ _ (after_outbound-SendEnd r _)
  on_event-EventEnd config (command (some (write_and_flush msg))) r =
      replied-EventEnd _ _ (after_outbound-SendEnd r _)
  on_event-EventEnd config (command (some close)) r = (tt, λ k. absurd (ground arith))
  on_event-EventEnd config (command none) r = (tt, λ k. absurd (ground arith))
  on_event-EventEnd config shutdown_changed r = (tt, λ k. absurd (ground arith))
  on_event-EventEnd config idle_elapsed r = (tt, λ k. absurd (ground arith))

  -- What may come of a run.
  abbrev pub RunEnd :
      List (Bool × Event W) → ConnectionResult (Option CloseReason) × Runtime → Type 0
  RunEnd turns (good none, r) = Unit
  RunEnd turns (good (some reason), r) =
      Any (Causes reason) turns × (reason ≡ handler_closed → r.ctx.close_requested ≡ true)
  RunEnd turns (failed f, r) = Explains f.reason f.error
  RunEnd turns (stuck, r) = Unit

  later-RunEnd :
      (t : Bool × Event W) (turns : List (Bool × Event W))
      (d : Outcome pipe write_all (Option CloseReason))
      → RunEnd turns d
      → RunEnd (t ∷ turns) d
  later-RunEnd t turns (good none, r) h = tt
  later-RunEnd t turns (good (some reason), r) (c, k) = (inr c, k)
  later-RunEnd t turns (failed f, r) h = h
  later-RunEnd t turns (stuck, r) h = tt

  continue-RunEnd :
      (event : Event W) (turns : List (Bool × Event W))
      (d : Outcome pipe write_all (Option CloseReason))
      (rest : Runtime → Outcome pipe write_all (Option CloseReason))
      → EventEnd event d
      → ((r : Runtime) → RunEnd turns (rest r))
      → RunEnd ((false, event) ∷ turns) (continue_with pipe write_all rest d)
  continue-RunEnd event turns (good none, r) rest h ih =
      later-RunEnd (false, event) turns (rest r) (ih r)
  continue-RunEnd event turns (good (some reason), r) rest (c, k) ih = (inl c, k)
  continue-RunEnd event turns (failed f, r) rest h ih = h
  continue-RunEnd event turns (stuck, r) rest h ih = tt

  -- Any run of the loop that ends with a reason has a turn that causes it: a shutdown, an end of the
  -- stream, a closed or dropped channel, the idle timer, or a read whose handler has asked to close.
  -- One that ends with a failure has an error of the kind that its reason names.
  pub run_reasons :
      (config : TcpConnectionConfig) (turns : List (Bool × Event W)) (r : Runtime)
      → RunEnd turns (run pipe write_all config turns r)
  unfolding run
  run_reasons config [] r = tt
  run_reasons config ((true, event) ∷ turns) r = (inl tt, λ k. absurd (ground arith))
  run_reasons config ((false, event) ∷ turns) r =
      continue-RunEnd event turns (on_event pipe write_all config event r)
        (run pipe write_all config turns) (on_event-EventEnd config event r)
        (run_reasons config turns)
