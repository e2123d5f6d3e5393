-- ===== src/Context.antt =====
-- src/context: the counters of a connection (stats.rs), and the context of a TCP handler with its
-- outbox (stream.rs).
use rs_netty.Common.{
  ℕ, ◌+◌, ◌%◌, ◌^◌, Bool, true, false, ◌||◌, Option, none, some, List, [], ◌∷◌, ◌++◌,
}
use rs_netty.Error.{Result, ok}

-- The result of an operation that returns nothing.
abbrev pub Done : Type 0
Done = Result (Unit {0})

abbrev pub done : Done
done = ok tt

-- The counters are `AtomicU64`, whose `fetch_add` wraps around.
abbrev pub u64 : ℕ → ℕ
u64 n = n % 2 ^ 64

pub record ConnectionStats : Type 0 where
  pub bytes_read : ℕ
  pub bytes_written : ℕ
  pub frames_read : ℕ
  pub frames_written : ℕ

abbrev pub new_stats : ConnectionStats
new_stats = record { bytes_read = 0; bytes_written = 0; frames_read = 0; frames_written = 0 }

-- The callers are under `if let Some(stats) = stats`.
abbrev pub add_bytes_read : ℕ → Option ConnectionStats → Option ConnectionStats
add_bytes_read n none = none
add_bytes_read n (some c) = some (record c { bytes_read = u64 (c.bytes_read + n) })

abbrev pub add_bytes_written : ℕ → Option ConnectionStats → Option ConnectionStats
add_bytes_written n none = none
add_bytes_written n (some c) = some (record c { bytes_written = u64 (c.bytes_written + n) })

abbrev pub add_frame_read : Option ConnectionStats → Option ConnectionStats
add_frame_read none = none
add_frame_read (some c) = some (record c { frames_read = u64 (c.frames_read + 1) })

abbrev pub add_frame_written : Option ConnectionStats → Option ConnectionStats
add_frame_written none = none
add_frame_written (some c) = some (record c { frames_written = u64 (c.frames_written + 1) })

-- `StreamOutboxCommand`. The sender of a `flush` is that of one oneshot channel: the flushes of a
-- connection leave the outbox in the order in which they came, so the n-th flush owns the n-th answer.
pub data StreamOutboxCommand (W : Type 0) : Type 0 where
  write : W → StreamOutboxCommand W
  flush : StreamOutboxCommand W

-- `Context` with the outbox it shares; `answers` are the results sent to the flushes so far.
pub record Context (W : Type 0) : Type 0 where
  pub outbox : List (StreamOutboxCommand W)
  pub answers : List Done
  pub close_requested : Bool

-- What a handler asks of its context.
pub data Call (W : Type 0) : Type 0 where
  write_msg : W → Call W
  flush_outbox : Call W
  write_and_flush_msg : W → Call W
  request_close : Call W

module _ {W : Type 0} where
  abbrev pub new_context : Context W
  new_context = record { outbox = []; answers = []; close_requested = false }

  abbrev pub push_write : W → Context W → Context W
  push_write msg ctx = record ctx { outbox = ctx.outbox ++ (write msg ∷ []) }

  abbrev pub push_flush : Context W → Context W
  push_flush ctx = record ctx { outbox = ctx.outbox ++ (flush ∷ []) }

  abbrev pub call : Call W → Context W → Context W
  call (write_msg msg) ctx = push_write msg ctx
  call flush_outbox ctx = push_flush ctx
  call (write_and_flush_msg msg) ctx = push_flush (push_write msg ctx)
  call request_close ctx = record ctx { close_requested = true }

  abbrev pub calls : List (Call W) → Context W → Context W
  calls [] ctx = ctx
  calls (c ∷ cs) ctx = calls cs (call c ctx)

  abbrev pub is_flush : StreamOutboxCommand W → Bool
  is_flush (write msg) = false
  is_flush flush = true

  abbrev pub has_flush_command : List (StreamOutboxCommand W) → Bool
  has_flush_command [] = false
  has_flush_command (c ∷ cs) = is_flush c || has_flush_command cs
