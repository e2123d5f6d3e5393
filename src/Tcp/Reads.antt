-- ===== src/Tcp/Reads.antt =====
-- The reads of a connection against one read of all their bytes.
use rs_netty.Common.{
  ℕ, suc, ◌≤◌, ◌==◌, le→ltb, ◌≡◌, ◌≢◌, refl, sym, subst, ◌∙◌, ◌↔◌, Bool, false, Option, none, some,
  List, [], ◌∷◌, ◌++◌, map, append-nil, append_assoc, length, length-append, All, arith,
}
use rs_netty.Common.Bytes.{Bytes}
use rs_netty.Error.{Message}
use rs_netty.Codec.Framing.{concat}
use rs_netty.Pipeline.Inbound.{StreamRuntimePipeline}
use rs_netty.Tcp.{CloseReason, TcpConnectionConfig, good, failed, stuck}
use rs_netty.Tcp.Connection.{
  StreamConnectionRuntime, Event, bytes_read, Outcome, frame_loop, handle_read, on_event,
  continue_with, run,
}
use rs_netty.Tcp.Stream.{
  IsSteady, IsQuiet, with_more, GoesOn, Shrinks, frame_loop-Shrinks, frame_loop-GoesOn,
}

abbrev pub received : {W : Type 0} → List Bytes → List (Bool × Event W)
received = map (λ chunk. (false, bytes_read chunk))

module _ {P N W Item : Type 0} (pipe : StreamRuntimePipeline P N W Item)
    (write_all : N → Bytes → Option Message × N) (Valid : P → Type 0)
    (steady : IsSteady pipe Valid) where
  abbrev Runtime : Type 0
  Runtime = StreamConnectionRuntime P N W

  -- The frames in the buffer with these bytes behind.
  abbrev pub one_read : Bytes → Runtime → Outcome pipe write_all (Option CloseReason)
  one_read bytes r =
      frame_loop pipe write_all (suc (length (r.read_buf ++ bytes)))
        (with_more pipe write_all Valid steady bytes r)

  abbrev pub Quiet : Runtime → Type 0
  Quiet = IsQuiet pipe write_all Valid steady

  -- A read of `chunk`, when the loop on it has this result.
  read_step :
      (config : TcpConnectionConfig) (b : ℕ) (bs : Bytes) (r : Runtime)
      → Quiet r
      → length (r.read_buf ++ (b ∷ bs)) ≤ config.max_frame_size
      → on_event pipe write_all config (bytes_read (b ∷ bs)) r ≡ one_read (b ∷ bs) r
  unfolding on_event handle_read
  read_step config b bs r q h =
      let e : (suc (length bs) == 0) ≡ false = ground arith in
      rw (e, le→ltb config.max_frame_size (length (r.read_buf ++ (b ∷ bs))) h, q.1) refl

  goes_on :
      (chunk rest : Bytes) (r : Runtime)
      → Quiet r
      → GoesOn pipe write_all Valid steady rest (one_read chunk r) (one_read (chunk ++ rest) r)
  goes_on chunk rest r q =
      subst
        (λ b.
          GoesOn pipe write_all Valid steady rest (one_read chunk r)
            (frame_loop pipe write_all (suc (length b)) (record r { read_buf = b })))
        (append_assoc r.read_buf chunk rest)
        (frame_loop-GoesOn pipe write_all Valid steady rest (suc (length (r.read_buf ++ chunk)))
          (suc (length ((r.read_buf ++ chunk) ++ rest)))
          (with_more pipe write_all Valid steady chunk r) q (omega arith) (omega arith))

  -- The loop on the buffer as it is finds no frame.
  abbrev pub IsWaiting : Runtime → Type 0
  IsWaiting r = one_read [] r ≡ (good none, r)

  -- After a loop that left the connection open.
  after_loop :
      (rest : Bytes) (r : Runtime) (d d' : Outcome pipe write_all (Option CloseReason))
      (r' : Runtime)
      → GoesOn pipe write_all Valid steady rest d d'
      → d ≡ (good none, r')
      → Quiet r' × (d' ≡ one_read rest r')
  after_loop rest r d d' r' g e =
      let (q, f) = subst (λ x. GoesOn pipe write_all Valid steady rest x d') e g in
      (q, f _ (omega arith))

  -- The other way round
  before_loop :
      (rest : Bytes) (d d' : Outcome pipe write_all (Option CloseReason)) (r' : Runtime)
      → GoesOn pipe write_all Valid steady rest d d'
      → d' ≡ (good none, r')
      → (r1 : Runtime) × (d ≡ (good none, r1))
  before_loop rest (good none, r1) d' r' g e = (r1, refl)
  before_loop rest (good (some reason), r1) d' r' g e = absurd (ground arith)
  before_loop rest (failed x, r1) (good y, r2) r' g e = absurd g
  before_loop rest (failed x, r1) (failed y, r2) r' g e = absurd (ground arith)
  before_loop rest (failed x, r1) (stuck, r2) r' g e = absurd g
  before_loop rest (stuck, r1) d' r' g e = absurd g

  after_shrink :
      (n : ℕ) (d : Outcome pipe write_all (Option CloseReason)) (r : Runtime)
      → Shrinks pipe write_all Valid steady n d
      → d ≡ (good none, r)
      → length r.read_buf ≤ n
  after_shrink n d r h e = subst (Shrinks pipe write_all Valid steady n) e h

  -- One read that leaves the connection open, as `r'`.
  step_open :
      (chunk : Bytes) (r r' : Runtime)
      → Quiet r
      → one_read chunk r ≡ (good none, r')
      → Quiet r'
        × IsWaiting r'
        × (length r'.read_buf ≤ length (r.read_buf ++ chunk))
        × ((rest : Bytes) → one_read (chunk ++ rest) r ≡ one_read rest r')
  step_open chunk r r' q e =
      let (q', _) =
        after_loop [] r (one_read chunk r) (one_read (chunk ++ []) r) r' (goes_on chunk [] r q) e in
      let go : (rest : Bytes) → one_read (chunk ++ rest) r ≡ one_read rest r' = λ rest.
        (after_loop rest r (one_read chunk r) (one_read (chunk ++ rest) r) r'
          (goes_on chunk rest r q) e).1 in
      (
        q',
        sym (go []) ∙ subst (λ c. one_read c r ≡ (good none, r')) (sym (append-nil chunk)) e,
        after_shrink (length (r.read_buf ++ chunk)) (one_read chunk r) r'
            (frame_loop-Shrinks pipe write_all Valid steady (suc (length (r.read_buf ++ chunk)))
              (with_more pipe write_all Valid steady chunk r) q)
            e,
        go,
      )

  -- A loop that ends open goes through an open connection after its first turn.
  open_first :
      (d : Outcome pipe write_all (Option CloseReason))
      (rest : Runtime → Outcome pipe write_all (Option CloseReason)) (r' : Runtime)
      → continue_with pipe write_all rest d ≡ (good none, r')
      → (r1 : Runtime) × (d ≡ (good none, r1)) × (rest r1 ≡ (good none, r'))
  open_first (good none, r1) rest r' e = (r1, refl, e)
  open_first (good (some reason), r1) rest r' e = absurd (ground arith)
  open_first (failed x, r1) rest r' e = absurd (ground arith)
  open_first (stuck, r1) rest r' e = absurd (ground arith)

  -- The chunks hold bytes, and fit in a frame with what is buffered.
  abbrev pub Fits : TcpConnectionConfig → List Bytes → Runtime → Type 0
  Fits config chunks r =
      All (λ chunk. chunk ≢ []) chunks
      × (length (r.read_buf ++ concat chunks) ≤ config.max_frame_size)

  Fits-first :
      (config : TcpConnectionConfig) (chunk : Bytes) (chunks : List Bytes) (r : Runtime)
      → Fits config (chunk ∷ chunks) r
      → length (r.read_buf ++ chunk) ≤ config.max_frame_size
  Fits-first config chunk chunks r (n, h) = omega (
    arith,
    length-append r.read_buf chunk,
    length-append chunk (concat chunks),
    length-append r.read_buf (chunk ++ concat chunks),
  )

  Fits-rest :
      (config : TcpConnectionConfig) (chunk : Bytes) (chunks : List Bytes) (r r' : Runtime)
      → Fits config (chunk ∷ chunks) r
      → length r'.read_buf ≤ length (r.read_buf ++ chunk)
      → Fits config chunks r'
  Fits-rest config chunk chunks r r' (n, h) k = (
    n.1,
    omega (
      arith,
      length-append r.read_buf chunk,
      length-append chunk (concat chunks),
      length-append r.read_buf (chunk ++ concat chunks),
      length-append r'.read_buf (concat chunks),
    ),
  )

  chunks_to_one :
      (config : TcpConnectionConfig) (chunks : List Bytes) (r r' : Runtime)
      → Quiet r
      → IsWaiting r
      → Fits config chunks r
      → run pipe write_all config (received chunks) r ≡ (good none, r')
      → one_read (concat chunks) r ≡ (good none, r')
  unfolding run
  chunks_to_one config [] r r' q w fits e = w ∙ e
  chunks_to_one config ([] ∷ chunks) r r' q w fits e = absurd (fits.0.0 refl)
  chunks_to_one config ((b ∷ bs) ∷ chunks) r r' q w fits e =
      let first = read_step config b bs r q (Fits-first config (b ∷ bs) chunks r fits) in
      let (r1, e1, e2) =
        open_first (one_read (b ∷ bs) r) (run pipe write_all config (received chunks)) r' (
          subst
            (λ d.
              continue_with pipe write_all (run pipe write_all config (received chunks)) d
              ≡ (good none, r'))
            first e) in
      let (q1, w1, shorter, same) = step_open (b ∷ bs) r r1 q e1 in
      same (concat chunks)
      ∙ chunks_to_one config chunks r1 r' q1 w1 (Fits-rest config (b ∷ bs) chunks r r1 fits shorter)
          e2

  one_to_chunks :
      (config : TcpConnectionConfig) (chunks : List Bytes) (r r' : Runtime)
      → Quiet r
      → IsWaiting r
      → Fits config chunks r
      → one_read (concat chunks) r ≡ (good none, r')
      → run pipe write_all config (received chunks) r ≡ (good none, r')
  unfolding run
  one_to_chunks config [] r r' q w fits e = sym w ∙ e
  one_to_chunks config ([] ∷ chunks) r r' q w fits e = absurd (fits.0.0 refl)
  one_to_chunks config ((b ∷ bs) ∷ chunks) r r' q w fits e =
      let (r1, e1) =
        before_loop (concat chunks) (one_read (b ∷ bs) r) (one_read ((b ∷ bs) ++ concat chunks) r)
          r' (goes_on (b ∷ bs) (concat chunks) r q) e in
      let (q1, w1, shorter, same) = step_open (b ∷ bs) r r1 q e1 in
      let first = read_step config b bs r q (Fits-first config (b ∷ bs) chunks r fits) ∙ e1 in
      subst
        (λ d.
          continue_with pipe write_all (run pipe write_all config (received chunks)) d
          ≡ (good none, r'))
        (sym first)
        (one_to_chunks config chunks r1 r' q1 w1
          (Fits-rest config (b ∷ bs) chunks r r1 fits shorter) (sym (same (concat chunks)) ∙ e))

  -- For a steady pipeline without counters, from a connection whose buffer holds no whole frame, and
  -- chunks that are not empty and fit, with the buffer, in a frame of the largest size: reading the
  -- chunks one after the other leaves the connection open in a state exactly when reading all their
  -- bytes at once does, and this is the same state of handler, socket and buffers.
  pub chunks_as_one_read :
      (config : TcpConnectionConfig) (chunks : List Bytes) (r r' : Runtime)
      → Quiet r
      → IsWaiting r
      → Fits config chunks r
      → (run pipe write_all config (received chunks) r ≡ (good none, r'))
        ↔ (one_read (concat chunks) r ≡ (good none, r'))
  chunks_as_one_read config chunks r r' q w fits =
      (chunks_to_one config chunks r r' q w fits, one_to_chunks config chunks r r' q w fits)
