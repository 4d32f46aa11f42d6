-- ===== src/Base/Panics.antt =====
-- What a Rust function gives back: a value, or a panic. The two cargo profiles differ in the
-- arithmetic: a debug build panics where the result does not fit, a release build wraps.
use Prim.Native.Nat.{ℕ, ◌+◌, ◌-◌, ◌%◌, ◌^◌}
use rust_gb_emulator.Base.Tests.{ltb, leb, if◌then◌else◌}

pub data Build : Type 0 where
  debug release : Build

pub data Outcome {ℓ} (A : Type ℓ) : Type ℓ where
  ok : A → Outcome A
  panic : Outcome A

infixl 5 ◌>>=◌
abbrev pub ◌>>=◌ {ℓ κ} : {A : Type ℓ} {B : Type κ} → Outcome A → (A → Outcome B) → Outcome B
ok a >>= f = f a
panic >>= f = panic

-- The result of `+` or `*` at a width, from the exact one.
abbrev pub fit : Build → ℕ → ℕ → Outcome ℕ
fit debug w n = if ltb n (2 ^ w) then ok n else panic
fit release w n = ok (n % 2 ^ w)

-- `x - y` at a width, for x and y of that width.
abbrev pub minus : Build → ℕ → ℕ → ℕ → Outcome ℕ
minus debug w x y = if leb y x then ok (x - y) else panic
minus release w x y = ok (if leb y x then x - y else x + 2 ^ w - y)
