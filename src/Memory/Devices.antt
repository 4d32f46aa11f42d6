-- ===== src/Memory/Devices.antt =====
-- The tick of the components of a well-formed memory.
use rust_gb_emulator.Base.{ℕ, ◌*◌, ◌≤◌, ltb, u16, ◌≡◌, refl, arith, Build, ok, Bool-cases, inl, inr}
use rust_gb_emulator.Timer.Registers.{tick-read}
use rust_gb_emulator.Ppu.Kept.{step-IsVideo}
use rust_gb_emulator.Memory.{Memory, tick_dma, tick_components}
use rust_gb_emulator.Memory.Tick.{fits, tick_dma-goes_on, tick_dma-ends, tick_dma-idle}
use rust_gb_emulator.Memory.Typing.{IsBus}

tick_dma-IsBus : (n : ℕ) (m : Memory) → IsBus m → IsBus (tick_dma n m)
tick_dma-IsBus n m v = elim (Bool-cases m.dma_active) [
  | inl active ↦ elim (Bool-cases (ltb (u16 n) m.dma_cycles_remaining)) [
    | inl more ↦ rw (tick_dma-goes_on n m active more) (ground arith)
    | inr last ↦ rw (tick_dma-ends n m active last) (ground arith)
  ]
  | inr idle ↦ rw (tick_dma-idle n m idle) v
]

tick_dma-ram : (n : ℕ) (m : Memory) → (tick_dma n m).main_memory ≡ m.main_memory
unfolding tick_dma
tick_dma-ram n m = ground arith

-- In both builds a tick of at most 20 M-cycles of a well-formed memory returns, leaves one, and
-- changes no byte of `main_memory`.
pub tick_components-ram :
    (b : Build) (n : ℕ) (m : Memory)
    → IsBus m
    → n ≤ 20
    → (m' : Memory) × (tick_components b n m ≡ ok m') × IsBus m' × (m'.main_memory ≡ m.main_memory)
unfolding tick_components
tick_components-ram b n m v h =
    let (timer', ticked, timer_ok, _) = tick-read b (u16 n) m.timer v.timer_ok (omega arith) in
    let (stepped, stepped_to, ppu_ok, video_ok) =
      step-IsVideo b (n * 4) m.ppu v.ppu_ok v.video_ok (omega arith) in
    let m1 : Memory = record m { timer = timer'; ppu = stepped.0 } in
    let v1 : IsBus m1 = ground arith in
    (
      tick_dma n m1,
      rw (ticked, fits b 32 (n * 4) (omega arith), stepped_to) refl,
      tick_dma-IsBus n m1 v1,
      tick_dma-ram n m1,
    )

pub tick_components-IsBus :
    (b : Build) (n : ℕ) (m : Memory)
    → IsBus m
    → n ≤ 20
    → (m' : Memory) × (tick_components b n m ≡ ok m') × IsBus m'
tick_components-IsBus b n m v h =
    let (m', returns, typed, _) = tick_components-ram b n m v h in (m', returns, typed)
