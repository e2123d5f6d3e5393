-- ===== src/Datagram.antt =====
-- UDP: the context of a datagram handler in src/context/datagram.rs, and the commands of
-- src/channel/command.rs. `A` is the type of socket addresses.
pub mod Runtime
pub mod Socket
pub mod Delivery
pub mod Clean
pub mod Size
use rs_netty.Common.{Bool, true, false, ◌||◌, List, [], ◌∷◌, ◌++◌}
use rs_netty.Context.{Done}

-- The n-th `flush` owns the n-th answer, as in the outbox of a TCP handler.
pub data DatagramOutboxCommand (A W : Type 0) : Type 0 where
  write_to : A → W → DatagramOutboxCommand A W
  flush : DatagramOutboxCommand A W

-- `DatagramContext`, with the peer of the datagram that is handled.
pub record DatagramContext (A W : Type 0) : Type 0 where
  pub peer_addr : A
  pub outbox : List (DatagramOutboxCommand A W)
  pub answers : List Done
  pub close_requested : Bool

-- What a handler asks of its context.
pub data Call (A W : Type 0) : Type 0 where
  write_msg : W → Call A W
  write_msg_to : A → W → Call A W
  flush_outbox : Call A W
  write_and_flush_msg : W → Call A W
  write_and_flush_msg_to : A → W → Call A W
  request_close : Call A W

-- `DatagramCommand`; the n-th `write_to_and_flush` owns the n-th reply.
pub data DatagramCommand (A W : Type 0) : Type 0 where
  write_to write_to_and_flush : A → W → DatagramCommand A W
  close : DatagramCommand A W

-- A run of the handler, poll by poll, as for TCP.
pub data Handling (A W H : Type 0) : Type 0 where
  ready : List (Call A W) → Done → H → Handling A W H
  waiting : List (Call A W) → H → (List Done → Handling A W H) → Handling A W H

module _ {A W : Type 0} where
  abbrev pub new_context : A → DatagramContext A W
  new_context peer = record { peer_addr = peer; outbox = []; answers = []; close_requested = false }

  abbrev pub push_write : A → W → DatagramContext A W → DatagramContext A W
  push_write peer msg ctx = record ctx {
    outbox = ctx.outbox ++ (DatagramOutboxCommand.write_to peer msg ∷ []);
  }

  abbrev pub push_flush : DatagramContext A W → DatagramContext A W
  push_flush ctx = record ctx { outbox = ctx.outbox ++ (flush ∷ []) }

  abbrev pub call : Call A W → DatagramContext A W → DatagramContext A W
  call (write_msg msg) ctx = push_write ctx.peer_addr msg ctx
  call (write_msg_to peer msg) ctx = push_write peer msg ctx
  call flush_outbox ctx = push_flush ctx
  call (write_and_flush_msg msg) ctx = push_flush (push_write ctx.peer_addr msg ctx)
  call (write_and_flush_msg_to peer msg) ctx = push_flush (push_write peer msg ctx)
  call request_close ctx = record ctx { close_requested = true }

  abbrev pub calls : List (Call A W) → DatagramContext A W → DatagramContext A W
  calls [] ctx = ctx
  calls (c ∷ cs) ctx = calls cs (call c ctx)

  abbrev pub is_flush : DatagramOutboxCommand A W → Bool
  is_flush (DatagramOutboxCommand.write_to peer msg) = false
  is_flush flush = true

  abbrev pub has_flush_command : List (DatagramOutboxCommand A W) → Bool
  has_flush_command [] = false
  has_flush_command (c ∷ cs) = is_flush c || has_flush_command cs
