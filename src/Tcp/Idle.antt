-- ===== src/Tcp/Idle.antt =====
-- The idle timer of `run_with_idle_timeout` in src/transport/tcp/connection.rs.
use rs_netty.Common.{
  ℕ, ◌+◌, ◌≤◌, ◌≡◌, refl, ◌⊎◌, inl, inr, ap, subst, Bool, true, false, Option, none, some, List, [],
  ◌∷◌, ◌++◌, map, arith,
}
use rs_netty.Common.Bytes.{Bytes}
use rs_netty.Error.{Message}
use rs_netty.Pipeline.Inbound.{StreamRuntimePipeline}
use rs_netty.Tcp.{CloseReason, TcpConnectionConfig, good, failed, stuck}
use rs_netty.Tcp.Connection.{
  StreamConnectionRuntime, Event, bytes_read, read_error, command, shutdown_changed, idle_elapsed,
  Outcome, on_event, continue_with, run,
}
use rs_netty.Tcp.Reasons.{Causes, EventEnd, on_event-EventEnd}
use CloseReason.{idle_timeout}

-- The timer goes off that long after `now`.
abbrev pub deadline_from : ℕ → Option ℕ → Option ℕ
deadline_from now none = none
deadline_from now (some timeout) = some (now + timeout)

-- The branch of the timer needs a timer whose deadline has come.
abbrev pub Elapsed : ℕ → Option ℕ → Type 0
Elapsed now none = ⊥
Elapsed now (some deadline) = deadline ≤ now

module _ {W : Type 0} where
  -- Only a read resets the timer; `now` is the time when it has been handled.
  abbrev pub reset : TcpConnectionConfig → ℕ → Event W → Option ℕ → Option ℕ
  reset config now (bytes_read bytes) deadline = deadline_from now config.idle_timeout
  reset config now _ deadline = deadline

  abbrev pub IsPossible : ℕ → Event W → Option ℕ → Type 0
  IsPossible now idle_elapsed deadline = Elapsed now deadline
  IsPossible now _ deadline = Unit

  -- Turns with the times at which they end, from a deadline on.
  abbrev pub ArePossible : TcpConnectionConfig → List (ℕ × (Bool × Event W)) → Option ℕ → Type 0
  ArePossible config [] deadline = Unit
  ArePossible config ((now, (requested, event)) ∷ turns) deadline =
      IsPossible now event deadline × ArePossible config turns (reset config now event deadline)

  -- When bytes came last, or else the start.
  abbrev pub last_read : ℕ → List (ℕ × (Bool × Event W)) → ℕ
  last_read start [] = start
  last_read start ((now, (requested, bytes_read bytes)) ∷ turns) = last_read now turns
  last_read start ((now, (requested, read_error e)) ∷ turns) = last_read start turns
  last_read start ((now, (requested, command cmd)) ∷ turns) = last_read start turns
  last_read start ((now, (requested, shutdown_changed)) ∷ turns) = last_read start turns
  last_read start ((now, (requested, idle_elapsed)) ∷ turns) = last_read start turns

module _ {P N W Item : Type 0} (pipe : StreamRuntimePipeline P N W Item)
    (write_all : N → Bytes → Option Message × N) (config : TcpConnectionConfig) where
  -- Among these turns the timer goes off, a whole timeout after the last read.
  abbrev pub IdleFor : ℕ → List (ℕ × (Bool × Event W)) → Type 0
  IdleFor start turns =
      (before after : List (ℕ × (Bool × Event W))) × (now timeout : ℕ) × (turns
        ≡ before ++ ((now, (false, idle_elapsed)) ∷ after))
      × (config.idle_timeout ≡ some timeout)
      × (last_read start before + timeout ≤ now)

  elapsed :
      (now start : ℕ)
      → Elapsed now (deadline_from start config.idle_timeout)
      → (timeout : ℕ) × (config.idle_timeout ≡ some timeout) × (start + timeout ≤ now)
  elapsed now start h = go config.idle_timeout h
    where
      go :
          (o : Option ℕ)
          → Elapsed now (deadline_from start o)
          → (timeout : ℕ) × (o ≡ some timeout) × (start + timeout ≤ now)
      go none k = absurd k
      go (some t) k = (t, refl, k)

  later :
      (now start next_start : ℕ) (event : Event W) (turns : List (ℕ × (Bool × Event W)))
      → ((before : List (ℕ × (Bool × Event W)))
          → last_read start ((now, (false, event)) ∷ before) ≡ last_read next_start before)
      → IdleFor next_start turns
      → IdleFor start ((now, (false, event)) ∷ turns)
  later now start next_start event turns same (before, after, n, t, e, c, h) = (
    (now, (false, event)) ∷ before,
    after,
    n,
    t,
    ap (λ l. (now, (false, event)) ∷ l) e,
    c,
    omega (arith, same before),
  )

  -- The branch that ends with the timer is that of the timer, or comes later.
  continue_idle :
      (event : Event W) (d : Outcome pipe write_all (Option CloseReason))
      (rest : StreamConnectionRuntime P N W → Outcome pipe write_all (Option CloseReason))
      → EventEnd pipe write_all event d
      → (continue_with pipe write_all rest d).0 ≡ good (some idle_timeout)
      → Causes idle_timeout (false, event)
        ⊎ ((r : StreamConnectionRuntime P N W) × ((rest r).0 ≡ good (some idle_timeout)))
  continue_idle event (good none, r) rest h e = inr (r, e)
  continue_idle event (good (some reason), r) rest h e =
      let same : reason ≡ idle_timeout = ground arith in
      inl (subst (λ c. Causes c (false, event)) same h.0)
  continue_idle event (failed f, r) rest h e = absurd (ground arith)
  continue_idle event (stuck, r) rest h e = absurd (ground arith)

  -- When the branches taken are possible, from a timer that was set at `start`: a connection ends by
  -- its idle timer only if one is configured and the whole timeout has passed since the last read, or
  -- since the start, whatever was written meanwhile.
  pub idle_after_timeout :
      (turns : List (ℕ × (Bool × Event W))) (start : ℕ) (r : StreamConnectionRuntime P N W)
      → ArePossible config turns (deadline_from start config.idle_timeout)
      → (run pipe write_all config (map (λ t. t.1) turns) r).0 ≡ good (some idle_timeout)
      → IdleFor start turns
  unfolding run
  idle_after_timeout [] start r h e = absurd (ground arith)
  idle_after_timeout ((now, (true, event)) ∷ turns) start r h e = absurd (ground arith)
  idle_after_timeout ((now, (false, event)) ∷ turns) start r h e =
      go (idle_after_timeout turns) event h.0 h.1 (
        continue_idle event (on_event pipe write_all config event r)
          (run pipe write_all config (map (λ t. t.1) turns))
          (on_event-EventEnd pipe write_all config event r) e)
    where
      Rest : StreamConnectionRuntime P N W → Type 0
      Rest r' = (run pipe write_all config (map (λ t. t.1) turns) r').0 ≡ good (some idle_timeout)

      go :
          ((since : ℕ) (r' : StreamConnectionRuntime P N W)
            → ArePossible config turns (deadline_from since config.idle_timeout)
            → Rest r'
            → IdleFor since turns)
          → (event' : Event W) → IsPossible now event' (deadline_from start config.idle_timeout)
          → ArePossible config turns
              (reset config now event' (deadline_from start config.idle_timeout))
          → Causes idle_timeout (false, event') ⊎ ((r' : StreamConnectionRuntime P N W) × Rest r')
          → IdleFor start ((now, (false, event')) ∷ turns)
      go ih idle_elapsed p q l =
          let (timeout, c, passed) = elapsed now start p in
          ([], turns, now, timeout, refl, c, passed)
      go ih (bytes_read bs) p q (inr (r', k)) =
          later now start now (bytes_read bs) turns (λ b. refl) (ih now r' q k)
      go ih (read_error m) p q (inr (r', k)) =
          later now start start (read_error m) turns (λ b. refl) (ih start r' q k)
      go ih (command cmd) p q (inr (r', k)) =
          later now start start (command cmd) turns (λ b. refl) (ih start r' q k)
      go ih shutdown_changed p q (inr (r', k)) =
          later now start start shutdown_changed turns (λ b. refl) (ih start r' q k)
      go ih (bytes_read bs) p q (inl c) = absurd c
      go ih (read_error m) p q (inl c) = absurd c
      go ih (command cmd) p q (inl c) = absurd c
      go ih shutdown_changed p q (inl c) = absurd c
