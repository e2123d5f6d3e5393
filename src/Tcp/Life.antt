-- ===== src/Tcp/Life.antt =====
-- `run_stream_connection_with_life` of src/transport/tcp/connection.rs: a connection between the hooks of
-- a `Life`.
use rs_netty.Common.{◌≡◌, refl, ◌⊎◌, inl, inr, Bool, Option, none, some, List, [], ◌∷◌, ◌++◌}
use rs_netty.Common.Bytes.{Bytes}
use rs_netty.Error.{Error, Message, ok, err}
use rs_netty.Context.{Done, done, ConnectionStats, new_context}
use rs_netty.Pipeline.Inbound.{StreamRuntimePipeline}
use rs_netty.Tcp.{CloseReason, TcpConnectionConfig, ConnectionResult, good, failed, stuck}
use rs_netty.Tcp.Connection.{StreamConnectionRuntime, Event, Outcome, run}
use rs_netty.Tcp.Reasons.{Explains, Causes, Any, RunEnd, run_reasons}

-- The hooks of one connection; `L` is what they keep.
pub record Life (L : Type 0) : Type 0 where
  pub tcp_connection_opened : L → Done × L
  pub tcp_connection_closed : L → CloseReason → Done × L

-- `NoLife`: the default hooks do nothing.
abbrev pub no_life : Life (Unit {0})
no_life = record {
  tcp_connection_opened = λ l. (done, l);
  tcp_connection_closed = λ l reason. (done, l);
}

-- The state in which `run_stream_connection` starts the loop.
abbrev pub new_runtime :
    {P N W : Type 0} → P → N → Option ConnectionStats → StreamConnectionRuntime P N W
new_runtime p socket stats = record {
  pipeline = p;
  ctx = new_context;
  read_buf = [];
  wire = record { socket = socket; write_buf = []; stats = stats };
  replies = [];
}

pub data Hook : Type 0 where
  opened : Hook
  closed : CloseReason → Hook

-- These hooks, which also write down that they were called.
abbrev pub recording : {L : Type 0} → Life L → Life (L × List Hook)
recording life = record {
  tcp_connection_opened = λ (l, log).
      let (result, l') = life.tcp_connection_opened l in (result, (l', log ++ (opened ∷ [])));
  tcp_connection_closed = λ (l, log) reason.
      let (result, l') = life.tcp_connection_closed l reason in
      (result, (l', log ++ (closed reason ∷ [])));
}

-- What the result of a connection and the calls of its hooks have to be, when the open hook gave
-- `opened_with` and the loop `loop`.
abbrev pub Fits :
    {W : Type 0}
    → List (Bool × Event W)
    → Done
    → ConnectionResult (Option CloseReason)
    → Option Done
    → List Hook
    → Type 0
Fits turns (err e) loop result log = (result ≡ some (err e)) × (log ≡ opened ∷ [])
Fits turns (ok a) loop none log = ((loop ≡ good none) ⊎ (loop ≡ stuck)) × (log ≡ opened ∷ [])
Fits turns (ok a) loop (some d) log =
    (reason : CloseReason) × (log ≡ opened ∷ closed reason ∷ [])
    × (((loop ≡ good (some reason)) × Any (Causes reason) turns)
        ⊎ ((e : Error) × (d ≡ err e) × Explains reason e))

module _ {P N W Item : Type 0} (pipe : StreamRuntimePipeline P N W Item)
    (write_all : N → Bytes → Option Message × N) where
  module _ {L : Type 0} (life : Life L) where
    -- The result, if it has returned, and what the hooks keep.
    abbrev pub after_run : L → Outcome pipe write_all (Option CloseReason) → Option Done × L
    after_run l (good none, r) = (none, l)
    after_run l (good (some reason), r) =
        let (result, l') = life.tcp_connection_closed l reason in (some result, l')
    after_run l (failed f, r) =
        let (result, l') = life.tcp_connection_closed l f.reason in (some (err f.error), l')
    after_run l (stuck, r) = (none, l)

    abbrev pub after_opened :
        TcpConnectionConfig
        → List (Bool × Event W)
        → StreamConnectionRuntime P N W
        → Done × L
        → Option Done × L
    after_opened config turns r (ok a, l) = after_run l (run pipe write_all config turns r)
    after_opened config turns r (err e, l) = (some (err e), l)

    -- The turns are those of the loop, if it is reached.
    unfoldable pub run_stream_connection_with_life :
        TcpConnectionConfig
        → List (Bool × Event W)
        → P
        → N
        → Option ConnectionStats
        → L
        → Option Done × L
    run_stream_connection_with_life config turns p socket stats l =
        after_opened config turns (new_runtime p socket stats) (life.tcp_connection_opened l)

  closed_once :
      {L : Type 0} (life : Life L) (l : L) (turns : List (Bool × Event W))
      (d : Outcome pipe write_all (Option CloseReason))
      → RunEnd pipe write_all turns d
      → let (result, (l', log)) = after_run (recording life) (l, opened ∷ []) d in
        Fits turns done d.0 result log
  closed_once life l turns (good none, r) h = (inl refl, refl)
  closed_once life l turns (good (some reason), r) h = (reason, refl, inl (refl, h.0))
  closed_once life l turns (failed f, r) h = (f.reason, refl, inr (f.error, refl, h))
  closed_once life l turns (stuck, r) h = (inr refl, refl)

  -- For any hooks: the open hook is called once and first. When it fails, its error is returned and the
  -- close hook is not called. Otherwise the close hook is called once if the connection returns, with
  -- the reason of the loop, which a turn causes, or with one that explains the error that is returned;
  -- it is not called while the loop runs.
  pub hooks_called_once :
      {L : Type 0} (life : Life L) (config : TcpConnectionConfig) (turns : List (Bool × Event W))
      (p : P) (socket : N) (stats : Option ConnectionStats) (l : L)
      → let (result, (l', log)) =
          run_stream_connection_with_life (recording life) config turns p socket stats (l, []) in
        Fits turns
          (life.tcp_connection_opened l).0
          (run pipe write_all config turns (new_runtime p socket stats)).0
          result
          log
  unfolding run_stream_connection_with_life
  hooks_called_once {L} life config turns p socket stats l = go (life.tcp_connection_opened l)
    where
      go :
          (d : Done × L)
          → let (result, (l', log)) =
              after_opened
                (recording life)
                config
                turns
                (new_runtime p socket stats)
                (d.0, (d.1, opened ∷ [])) in
            Fits turns d.0
              (run pipe write_all config turns (new_runtime p socket stats)).0
              result
              log
      go (ok a, l') =
          closed_once life l' turns (run pipe write_all config turns (new_runtime p socket stats))
            (run_reasons pipe write_all config turns (new_runtime p socket stats))
      go (err e, l') = (refl, refl)
