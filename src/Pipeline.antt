-- ===== src/Pipeline.antt =====
-- src/traits.rs and src/pipeline/core/pipe.rs: the result of a stage, and stages composed to a pipe.
pub mod Runtime
pub mod Ledger
pub mod Delivery
pub mod Flush
pub mod Inbound
pub mod Unflushed
pub mod Preserve
pub mod Counters
use rs_netty.Common.{◌≡◌, refl}
use rs_netty.Error.{Result, Error, ok, err}

pub data Flow (A : Type 0) : Type 0 where
  next : A → Flow A
  stop : Flow A

abbrev pub map_flow : {A B : Type 0} → (A → B) → Flow A → Flow B
map_flow f (next a) = next (f a)
map_flow f stop = stop

-- A stage with state `S`, of any of the three kinds: the result of a call, and the state after it.
-- The context of a stage has getters only, and is the same at each call of a connection.
abbrev pub Stage : Type 0 → Type 0 → Type 0 → Type 0
Stage S A B = S → A → Result (Flow B) × S

abbrev pub identity : {A : Type 0} → Stage (Unit {0}) A A
identity s msg = (ok (next msg), s)

abbrev with_state : {S T C : Type 0} → S → Result (Flow C) × T → Result (Flow C) × (S × T)
with_state s (r, t) = (r, (s, t))

module _ {S T B C : Type 0} where
  abbrev then_next : Stage T B C → T → Result (Flow B) × S → Result (Flow C) × (S × T)
  then_next b t (ok (next mid), s) = with_state s (b t mid)
  then_next b t (ok stop, s) = (ok stop, (s, t))
  then_next b t (err e, s) = (err e, (s, t))

-- `Then { a, b }`
abbrev pub then : {S T A B C : Type 0} → Stage S A B → Stage T B C → Stage (S × T) A C
then a b (s, t) msg = then_next b t (a s msg)
