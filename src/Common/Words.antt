-- ===== src/Common/Words.antt =====
-- The standard library's checked operations on `usize`, which is 64 bits wide, and signed integers.
use Prim.Native.Nat.{ℕ, suc, ◌+◌, ◌-◌, ◌^◌, ◌<◌}
use mathlib.Core.Option.{Option, none, some}
use rs_netty.Common.Tests.{ltb, leb, if◌then◌else◌}

abbrev pub IsUsize : ℕ → Type 0
IsUsize n = n < 2 ^ 64

-- `negsuc n` is -(n + 1).
pub data ℤ : Type 0 where
  pos : ℕ → ℤ
  negsuc : ℕ → ℤ

abbrev pub checked_add : ℕ → ℕ → Option ℕ
checked_add a b = if ltb (a + b) (2 ^ 64) then some (a + b) else none

abbrev pub checked_add_signed : ℕ → ℤ → Option ℕ
checked_add_signed a (pos n) = checked_add a n
checked_add_signed a (negsuc n) = if leb (suc n) a then some (a - suc n) else none
