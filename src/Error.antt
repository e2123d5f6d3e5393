-- ===== src/Error.antt =====
-- src/error.rs: the error type of every operation, and its `Result`.
use rs_netty.Common.{ℕ, String, List, ◌≡◌, refl, ◌⊎◌, inl, inr, Option, none, some}

-- A message: the literal text of the source's `format!`, and the numbers put into its braces, where
-- the model keeps them. Texts of a wrapped error or of user data that the source puts in are left out.
pub data Message : Type 0 where
  fmt : String → List ℕ → Message
  -- no message of the program: a loop of the model ran out of fuel
  out_of_fuel : Message

pub data Error : Type 0 where
  io addr_parse join : Message → Error
  closed channel_closed : Error
  frame_too_large datagram_too_large : ℕ → ℕ → Error
  decode encode pipeline : Message → Error
  missing_datagram_peer : Error

-- What a loop of the model gives when its fuel is used up.
abbrev pub no_fuel : Error
no_fuel = Error.decode out_of_fuel

pub data Result {ℓ} (A : Type ℓ) : Type ℓ where
  ok : A → Result A
  err : Error → Result A

infixl 5 ◌>>=◌ ◌>>◌
abbrev pub ◌>>=◌ {ℓ κ} : {A : Type ℓ} {B : Type κ} → Result A → (A → Result B) → Result B
ok value >>= next = next value
err error >>= next = err error

abbrev pub ◌>>◌ {ℓ} : {B : Type ℓ} → Result (Unit {0}) → Result B → Result B
first >> second = first >>= λ _. second

-- `result.map(f)`
abbrev pub map_ok {ℓ κ} : {A : Type ℓ} {B : Type κ} → (A → B) → Result A → Result B
map_ok f (ok a) = ok (f a)
map_ok f (err e) = err e

pub Result-cases {ℓ} :
    {A : Type ℓ} (r : Result A) → ((a : A) × (r ≡ ok a)) ⊎ ((e : Error) × (r ≡ err e))
Result-cases (ok a) = inl (a, refl)
Result-cases (err e) = inr (e, refl)

-- `option.ok_or_else(|| e)`
abbrev pub ok_or {ℓ} : {A : Type ℓ} → Option A → Error → Result A
ok_or none e = err e
ok_or (some a) e = ok a
