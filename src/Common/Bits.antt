-- ===== src/Common/Bits.antt =====
-- Masks on one byte as arithmetic; each is a table checked by evaluation.
use Prim.Native.Nat.{ℕ, zero, suc, ◌+◌, ◌*◌, ◌/◌, ◌%◌, ◌<◌, bit_and, bit_or, bit_xor}
use mathlib.Core.Path.{◌≡◌, refl}
use mathlib.Core.Bool.{Bool, true, ◌&&◌}
use native.Mathlib.Omega.{arith}
use rs_netty.Common.Tests.{◌==◌, ==→eq}

-- A test holds of all numbers below a bound.
every : (ℕ → Bool) → ℕ → Bool
every test zero = true
every test (suc bound) = every test bound && test bound

every_at : (test : ℕ → Bool) (bound i : ℕ) → i < bound → every test bound ≡ true → test i ≡ true
unfolding every
every_at test zero i below all = absurd (omega arith)
every_at test (suc bound) i below all = ground (arith, every_at test bound i)

module _ (f g : ℕ → ℕ) where
  table_eq : (n : ℕ) → every (λ x. f x == g x) n ≡ true → (i : ℕ) → i < n → f i ≡ g i
  table_eq n e i h = ==→eq _ _ (every_at (λ x. f x == g x) n i h e)

pub and_7f : (b : ℕ) → b < 256 → bit_and b 0x7f ≡ b % 128
unfolding every
and_7f = table_eq (λ b. bit_and b 0x7f) (λ b. b % 128) 256 refl

pub and_80 : (b : ℕ) → b < 256 → bit_and b 0x80 ≡ b / 128 * 128
unfolding every
and_80 = table_eq (λ b. bit_and b 0x80) (λ b. b / 128 * 128) 256 refl

pub and_0f : (b : ℕ) → b < 256 → bit_and b 0x0f ≡ b % 16
unfolding every
and_0f = table_eq (λ b. bit_and b 0x0f) (λ b. b % 16) 256 refl

pub or_80 : (b : ℕ) → b < 128 → bit_or b 0x80 ≡ b + 128
unfolding every
or_80 = table_eq (λ b. bit_or b 0x80) (λ b. b + 128) 128 refl

-- Masking a byte twice with the same key byte gives it back.
xor_table : every (λ m. every (λ x. bit_xor (bit_xor x m) m == x) 256) 256 ≡ true
unfolding every
xor_table = refl

pub xor_twice : (x m : ℕ) → x < 256 → m < 256 → bit_xor (bit_xor x m) m ≡ x
xor_twice x m hx hm = ==→eq _ _ (
    every_at (λ y. bit_xor (bit_xor y m) m == y) 256 x hx
      (every_at (λ k. every (λ y. bit_xor (bit_xor y k) k == y) 256) 256 m hm xor_table))

halves_table : every (λ h. every (λ l. bit_or (h * 16) l == h * 16 + l) 16) 16 ≡ true
unfolding every
halves_table = refl

-- Two half bytes in one.
pub or_halves : (h l : ℕ) → h < 16 → l < 16 → bit_or (h * 16) l ≡ h * 16 + l
or_halves h l hh hl = ==→eq _ _ (
    every_at (λ m. bit_or (h * 16) m == h * 16 + m) 16 l hl
      (every_at (λ k. every (λ m. bit_or (k * 16) m == k * 16 + m) 16) 16 h hh halves_table))
