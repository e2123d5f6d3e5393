-- ===== src/Pipeline/Counters.antt =====
-- The counters of a connection against the bytes that have gone to the socket.
use rs_netty.Common.{
  ℕ, ◌+◌, ◌≡◌, refl, Bool-cases, inl, inr, Option, none, some, length, length-append, arith,
}
use rs_netty.Common.Bytes.{Bytes}
use rs_netty.Error.{Result, Message, ok, err}
use rs_netty.Context.{
  Done, done, u64, add_bytes_written, add_frame_written, ConnectionStats, Context,
}
use rs_netty.Pipeline.{Flow, next, stop}
use rs_netty.Pipeline.Runtime.{
  Wire, Sink, Sending, Handling, is_empty, written, flush_write_buf, encode_outbound, encode_next,
  count_encoded, run_handler,
}
use rs_netty.Pipeline.Ledger.{IsSocket}
use rs_netty.Pipeline.Preserve.{run_handler-Good}

abbrev pub Counts : Option ConnectionStats → ℕ → Type 0
Counts none n = Unit
Counts (some stats) n = stats.bytes_written ≡ u64 n

Counts-add_bytes_written :
    (stats : Option ConnectionStats) (n k : ℕ)
    → Counts stats n
    → Counts (add_bytes_written k stats) (n + k)
Counts-add_bytes_written none n k h = tt
Counts-add_bytes_written (some stats) n k h = rw h (omega arith)

module _ {C O N W Out : Type 0} (ops : Sending C O N W Out) (delivered : N → Bytes)
    (socket : IsSocket ops.write_all delivered) where
  -- `bytes_written`, where it is tracked, is the number of delivered bytes, as a `u64`.
  abbrev pub IsCounted : Wire N → Type 0
  IsCounted w = Counts w.stats (length (delivered w.socket))

  written-IsCounted :
      (w : Wire N) (r : Option Message × N)
      → ops.write_all w.socket w.write_buf ≡ r
      → IsCounted w
      → (written ops.write_all w r).0 ≡ done
      → IsCounted (written ops.write_all w r).1
  written-IsCounted w (none, n) e g h =
      rw (socket.sends w.socket w.write_buf e, length-append (delivered w.socket) w.write_buf)
        (Counts-add_bytes_written w.stats (length (delivered w.socket)) (length w.write_buf) g)
  written-IsCounted w (some x, n) e g h = absurd (ground arith)

  pub flush-IsCounted :
      (w : Wire N)
      → IsCounted w
      → (flush_write_buf ops.write_all w).0 ≡ done
      → IsCounted (flush_write_buf ops.write_all w).1
  unfolding flush_write_buf
  flush-IsCounted w g h = elim (Bool-cases (is_empty w.write_buf)) [
    | inl e ↦ rw e g
    | inr e ↦ rw e (written-IsCounted w (ops.write_all w.socket w.write_buf) refl g (rw e at h))
  ]

  count-IsCounted :
      (w : Wire N) (dst : Bytes) (result : Done)
      → IsCounted w
      → IsCounted (record w { write_buf = dst; stats = count_encoded ops result w.stats })
  count-IsCounted w dst (err e) g = g
  count-IsCounted w dst (ok a) g = go w.stats g
    where
      go :
          (stats : Option ConnectionStats)
          → Counts stats (length (delivered w.socket))
          → Counts (add_frame_written stats) (length (delivered w.socket))
      go none h = tt
      go (some stats) h = h

  encode-IsCounted :
      (s : Sink C O N) (msg : W) → IsCounted s.wire → IsCounted (encode_outbound ops s msg).1.wire
  unfolding encode_outbound
  encode-IsCounted s msg g = go (ops.process s.outbound msg)
    where
      go : (r : Result (Flow Out) × O) → IsCounted (encode_next ops s r).1.wire
      go (ok (next x), o) =
          let (result, codec, dst) = ops.encode s.codec x s.wire.write_buf in
          count-IsCounted s.wire dst result g
      go (ok stop, o) = g
      go (err e, o) = g

  -- For a socket with its laws: a run of the handler in which everything succeeds keeps
  -- `bytes_written`, where it is tracked, equal to the number of delivered bytes modulo 2 ^ 64.
  pub run_handler-IsCounted :
      {H : Type 0} (handling : Handling W H) (ctx : Context W) (s : Sink C O N)
      → IsCounted s.wire
      → let (result, h, ctx', s') = run_handler ops handling ctx s in
        result ≡ done → IsCounted s'.wire
  run_handler-IsCounted handling ctx s g h =
      run_handler-Good ops (λ s'. IsCounted s'.wire) (λ s'. flush-IsCounted s'.wire)
        (λ s' msg g' h'. encode-IsCounted s' msg g') handling ctx s g h
