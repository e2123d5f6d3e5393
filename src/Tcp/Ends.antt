-- ===== src/Tcp/Ends.antt =====
-- That a connection ends when it is told to: a decoder that shortens its buffer keeps no read busy without
-- end.
use rs_netty.Common.{
  ℕ, zero, suc, ◌<◌, ◌==◌, ltb, ◌≡◌, refl, ◌⊎◌, inl, inr, Bool, true, false, Bool-cases, Option,
  none, some, List, [], ◌∷◌, length, arith,
}
use rs_netty.Common.Bytes.{Bytes}
use rs_netty.Error.{Message, ok, err}
use rs_netty.Codec.{Poll}
use rs_netty.Context.{Done, done, Context, add_frame_written}
use rs_netty.Pipeline.Runtime.{Wire, flush_write_buf}
use rs_netty.Pipeline.Inbound.{StreamRuntimePipeline}
use rs_netty.Tcp.{
  CloseReason, TcpConnectionConfig, write, write_and_flush, close, good, failed, stuck,
}
use rs_netty.Tcp.Connection.{
  StreamConnectionRuntime, Event, bytes_read, read_error, command, shutdown_changed, idle_elapsed,
  Outcome, unless_closed, after_process, count_frame, after_decode, frame_loop, size_checked,
  handle_read, flushed, after_outbound, send_message, still_open, replied, handle_command, on_event,
  continue_with, run,
}
use rs_netty.Tcp.Reasons.{Any}

-- A turn that ends the connection: shutdown was requested or has been announced, the peer has closed or
-- the read failed, the channel has been closed or dropped, or the idle timer went off.
abbrev pub EndsIt : {W : Type 0} → Bool × Event W → Type 0
EndsIt (true, event) = Unit
EndsIt (false, bytes_read []) = Unit
EndsIt (false, read_error e) = Unit
EndsIt (false, command (some close)) = Unit
EndsIt (false, command none) = Unit
EndsIt (false, shutdown_changed) = Unit
EndsIt (false, idle_elapsed) = Unit
EndsIt _ = ⊥

-- In a valid state a decoder that gives a message has taken bytes, and all operations that succeed keep
-- the state valid.
pub record IsProgressive {P N W Item : Type 0} (pipe : StreamRuntimePipeline P N W Item)
    (Valid : P → Type 0) : Type 0 where
  pub waits :
      (p : P) (buf : Bytes) {p' : P} {rest : Bytes}
      → Valid p
      → pipe.decode p buf ≡ (ok none, p', rest)
      → Valid p'
  pub frames :
      (p : P) (buf : Bytes) {x : Item} {p' : P} {rest : Bytes}
      → Valid p
      → pipe.decode p buf ≡ (ok (some x), p', rest)
      → Valid p' × (length rest < length buf)
  pub keeps :
      (p : P) (ctx : Context W) (wire : Wire N) (msg : Item)
      → Valid p
      → (pipe.process_inbound_flushable p ctx wire msg).0 ≡ done
      → Valid (pipe.process_inbound_flushable p ctx wire msg).1
  pub sends : (p : P) (msg : W) (dst : Bytes) → Valid p → Valid (pipe.process_outbound p msg dst).1

module _ {P N W Item : Type 0} (pipe : StreamRuntimePipeline P N W Item)
    (write_all : N → Bytes → Option Message × N) (Valid : P → Type 0)
    (progressive : IsProgressive pipe Valid) where
  abbrev Runtime : Type 0
  Runtime = StreamConnectionRuntime P N W

  -- The operation has come to an end, and where the connection stays open its state is valid.
  abbrev Lives : {A : Type 0} → Outcome pipe write_all A → Type 0
  Lives (good a, r) = Valid r.pipeline
  Lives (failed f, r) = Unit
  Lives (stuck, r) = ⊥

  abbrev Comes : Outcome pipe write_all (Option CloseReason) → Type 0
  Comes (good none, r) = Valid r.pipeline
  Comes (good (some reason), r) = Unit
  Comes (failed f, r) = Unit
  Comes (stuck, r) = ⊥

  process-Comes :
      (f : Runtime → Outcome pipe write_all (Option CloseReason)) (r : Runtime)
      (d : Done × P × Context W × Wire N)
      → (d.0 ≡ done → Valid d.1)
      → ((r' : Runtime) → Valid r'.pipeline → r'.read_buf ≡ r.read_buf → Comes (f r'))
      → Comes (after_process pipe write_all f r d)
  process-Comes f r (ok a, p, ctx, wire) v ih = go ctx.close_requested
    where
      r' : Runtime
      r' = record r { pipeline = p; ctx = ctx; wire = wire }

      go : (b : Bool) → Comes (unless_closed pipe write_all f b r')
      go true = tt
      go false = ih r' (v refl) refl
  process-Comes f r (err e, p, ctx, wire) v ih = tt

  decode-Comes :
      (f : Runtime → Outcome pipe write_all (Option CloseReason)) (r : Runtime) (d : Poll P Item)
      → Valid r.pipeline
      → pipe.decode r.pipeline r.read_buf ≡ d
      → ((r' : Runtime) → Valid r'.pipeline → length r'.read_buf < length r.read_buf → Comes (f r'))
      → Comes (after_decode pipe write_all f r d)
  decode-Comes f r (ok none, p, buf) v e ih = progressive.waits r.pipeline r.read_buf v e
  decode-Comes f r (ok (some msg), p, buf) v e ih =
      let (v', shorter) = progressive.frames r.pipeline r.read_buf v e in
      process-Comes f (record r { read_buf = buf })
        (pipe.process_inbound_flushable p r.ctx (count_frame pipe write_all r.wire) msg)
        (progressive.keeps p r.ctx (count_frame pipe write_all r.wire) msg v')
        (λ r' q same. ih r' q (rw same shorter))
  decode-Comes f r (err x, p, buf) v e ih = tt

  -- The loop over the frames of a read ends.
  frame_loop-Comes :
      (fuel : ℕ) (r : Runtime)
      → Valid r.pipeline
      → length r.read_buf < fuel
      → Comes (frame_loop pipe write_all fuel r)
  unfolding frame_loop
  frame_loop-Comes zero r v h = elim h [ ]
  frame_loop-Comes (suc fuel) r v h =
      decode-Comes (frame_loop pipe write_all fuel) r (pipe.decode r.pipeline r.read_buf) v refl
        (λ r' v' shorter. frame_loop-Comes fuel r' v' (omega arith))

  size_checked-Comes :
      (max : ℕ) (r : Runtime) → Valid r.pipeline → Comes (size_checked pipe write_all max r)
  size_checked-Comes max r v = elim (Bool-cases (ltb max (length r.read_buf))) [
    | inl e ↦ rw e tt
    | inr e ↦ rw e (frame_loop-Comes (suc (length r.read_buf)) r v (omega arith))
  ]

  flushed-Lives :
      (r : Runtime) (d : Done × Wire N) → Valid r.pipeline → Lives (flushed pipe write_all r d)
  flushed-Lives r (ok a, wire) v = v
  flushed-Lives r (err e, wire) v = tt

  outbound-Lives :
      (r : Runtime) (d : Done × P × Bytes) → Valid d.1 → Lives (after_outbound pipe write_all r d)
  outbound-Lives r (ok a, p, dst) v =
      let wire : Wire N = record r.wire {
        write_buf = dst;
        stats = add_frame_written r.wire.stats;
      } in
      flushed-Lives (record r { pipeline = p; wire = wire }) (flush_write_buf write_all wire) v
  outbound-Lives r (err e, p, dst) v = tt

  still_open-Comes :
      (d : Outcome pipe write_all (Unit {0})) → Lives d → Comes (still_open pipe write_all d)
  still_open-Comes (good a, r) h = h
  still_open-Comes (failed f, r) h = tt
  still_open-Comes (stuck, r) h = absurd h

  replied-Comes :
      (d : Outcome pipe write_all (Unit {0}))
      → Lives d
      → Comes (still_open pipe write_all (replied pipe write_all d))
  replied-Comes (good a, r) h = h
  replied-Comes (failed f, r) h = tt
  replied-Comes (stuck, r) h = absurd h

  on_event-Comes :
      (config : TcpConnectionConfig) (event : Event W) (r : Runtime)
      → Valid r.pipeline
      → Comes (on_event pipe write_all config event r)
  unfolding on_event handle_read handle_command send_message
  on_event-Comes config (bytes_read []) r v = tt
  on_event-Comes config (bytes_read (b ∷ bs)) r v =
      let e : (suc (length bs) == 0) ≡ false = ground arith in
      rw e (size_checked-Comes config.max_frame_size _ v)
  on_event-Comes config (read_error e) r v = tt
  on_event-Comes config (command (some (write msg))) r v =
      still_open-Comes _ (outbound-Lives r _ (progressive.sends r.pipeline msg r.wire.write_buf v))
  on_event-Comes config (command (some (write_and_flush msg))) r v =
      replied-Comes _ (outbound-Lives r _ (progressive.sends r.pipeline msg r.wire.write_buf v))
  on_event-Comes config (command (some close)) r v = tt
  on_event-Comes config (command none) r v = tt
  on_event-Comes config shutdown_changed r v = tt
  on_event-Comes config idle_elapsed r v = tt

  -- The loop has returned.
  abbrev pub IsOver : Outcome pipe write_all (Option CloseReason) → Type 0
  IsOver (good none, r) = ⊥
  IsOver (good (some reason), r) = Unit
  IsOver (failed f, r) = Unit
  IsOver (stuck, r) = ⊥

  event_ends :
      (config : TcpConnectionConfig) (event : Event W) (r : Runtime)
      → EndsIt (false, event)
      → IsOver (on_event pipe write_all config event r)
  unfolding on_event handle_read handle_command
  event_ends config (bytes_read []) r h = tt
  event_ends config (bytes_read (b ∷ bs)) r h = absurd h
  event_ends config (read_error m) r h = tt
  event_ends config (command (some (write msg))) r h = absurd h
  event_ends config (command (some (write_and_flush msg))) r h = absurd h
  event_ends config (command (some close)) r h = tt
  event_ends config (command none) r h = tt
  event_ends config shutdown_changed r h = tt
  event_ends config idle_elapsed r h = tt

  continue-IsOver :
      (d : Outcome pipe write_all (Option CloseReason))
      (rest : Runtime → Outcome pipe write_all (Option CloseReason))
      → Comes d
      → IsOver d ⊎ ((r : Runtime) → Valid r.pipeline → IsOver (rest r))
      → IsOver (continue_with pipe write_all rest d)
  continue-IsOver (good none, r) rest c (inl h) = absurd h
  continue-IsOver (good none, r) rest c (inr h) = h r c
  continue-IsOver (good (some reason), r) rest c h = tt
  continue-IsOver (failed f, r) rest c h = tt
  continue-IsOver (stuck, r) rest c h = absurd c

  pub run_ends :
      (config : TcpConnectionConfig) (turns : List (Bool × Event W)) (r : Runtime)
      → Valid r.pipeline
      → Any EndsIt turns
      → IsOver (run pipe write_all config turns r)
  unfolding run
  run_ends config [] r v h = absurd h
  run_ends config ((true, event) ∷ turns) r v h = tt
  run_ends config ((false, event) ∷ turns) r v (inl h) =
      continue-IsOver (on_event pipe write_all config event r) (run pipe write_all config turns)
        (on_event-Comes config event r v) (inl (event_ends config event r h))
  run_ends config ((false, event) ∷ turns) r v (inr h) =
      continue-IsOver (on_event pipe write_all config event r) (run pipe write_all config turns)
        (on_event-Comes config event r v) (inr (λ r' v'. run_ends config turns r' v' h))
