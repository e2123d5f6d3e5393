-- ===== src/Datagram/Size.antt =====
-- The limit on the size of a datagram, and the read buffer that may hide what passes it.
use rs_netty.Common.{◌≤◌, ◌<◌, ◌≡◌, refl, length, take, length-take, take-take, arith, lt→ltb}
use Prim.Native.Nat.{min}
use rs_netty.Common.Bytes.{Bytes}
use rs_netty.Error.{datagram_too_large, err}
use rs_netty.Datagram.Runtime.{Sending, Receiving}
use rs_netty.Datagram.Socket.{
  UdpSocketConfig, datagram, read_capacity, ended, Runtime, on_datagram, on_event,
}

-- A read buffer above the limit keeps what is too large above the limit.
capacity_above :
    (config : UdpSocketConfig)
    → config.max_datagram_size < config.read_buffer_capacity
    → config.max_datagram_size < read_capacity config
capacity_above config h = ground arith

-- With no more room than the limit, the limit is what is read.
capacity_at :
    (config : UdpSocketConfig)
    → 1 ≤ config.max_datagram_size
    → config.read_buffer_capacity ≤ config.max_datagram_size
    → read_capacity config ≡ config.max_datagram_size
capacity_at config h k = ground arith

module _ {C I B H O N A Item Msg Cur W Out : Type 0} (rx : Receiving C I B H A Item Msg Cur W)
    (tx : Sending C O N A W Out) where
  -- A datagram larger than a positive limit: with a read buffer larger than the limit it ends the loop
  -- with an error, and changes nothing. With a read buffer that is not larger it is handled as the
  -- datagram of its first bytes, as many as the limit.
  pub oversized_datagrams :
      (config : UdpSocketConfig) (peer : A) (bytes : Bytes) (r : Runtime rx tx)
      → 1 ≤ config.max_datagram_size
      → config.max_datagram_size < length bytes
      → (config.max_datagram_size < config.read_buffer_capacity
          → on_event rx tx config (datagram peer bytes) r ≡ (
            ended (
                err (
                  datagram_too_large
                    (min (read_capacity config) (length bytes))
                    config.max_datagram_size)),
            r,
          ))
        × (config.read_buffer_capacity ≤ config.max_datagram_size
            → on_event rx tx config (datagram peer bytes) r
              ≡ on_event rx tx config (datagram peer (take config.max_datagram_size bytes)) r)
  unfolding on_event
  oversized_datagrams config peer bytes r one over = (
    λ above.
        let n = length-take (read_capacity config) bytes in
        let t : config.max_datagram_size < min (read_capacity config) (length bytes) =
          omega (arith, capacity_above config above) in
        unfold on_datagram in
        rw (n, lt→ltb config.max_datagram_size (min (read_capacity config) (length bytes)) t) refl,
    λ below. rw (capacity_at config one below, take-take config.max_datagram_size bytes) refl,
  )
