-- ===== src/Memory/Tick.antt =====
-- The tick of the components, and the time of a DMA.
use rust_gb_emulator.Base.{
  ℕ, ◌+◌, ◌-◌, ◌*◌, ◌/◌, ◌%◌, ◌<◌, ◌≤◌, true, false, ltb, ◌≡◌, refl, arith, ◌∙◌, ap, u16, Build,
  debug, release, ◌^◌, List, [], ◌∷◌, Bool-cases, inl, inr, ok, fit,
}
use native.Mathlib.Nat.{mod-eq_of_lt}
use rust_gb_emulator.Timer
use rust_gb_emulator.Timer.{Timer}
use rust_gb_emulator.Timer.Edges.{IsTimer}
use rust_gb_emulator.Timer.Registers.{tick-read}
use rust_gb_emulator.Ppu.Frames.{IsPpu, step-IsPpu, total}
use rust_gb_emulator.Memory.{Memory, tick_dma, tick_components}

-- The timer and the picture unit are well formed, and a DMA has cycles left while it is active.
pub record IsTicking (m : Memory) : Type 0 where
  pub timer_ok : IsTimer m.timer
  pub ppu_ok : IsPpu m.ppu
  pub dma_left : m.dma_active ≡ true → 0 < m.dma_cycles_remaining
  pub dma_u16 : m.dma_cycles_remaining < 65536

pub tick_dma-goes_on :
    (n : ℕ) (m : Memory)
    → m.dma_active ≡ true
    → ltb (u16 n) m.dma_cycles_remaining ≡ true
    → tick_dma n m ≡ record m { dma_cycles_remaining = m.dma_cycles_remaining - u16 n }
unfolding tick_dma
tick_dma-goes_on n m h k = simp (h, k)

pub tick_dma-ends :
    (n : ℕ) (m : Memory)
    → m.dma_active ≡ true
    → ltb (u16 n) m.dma_cycles_remaining ≡ false
    → tick_dma n m ≡ record m { dma_cycles_remaining = 0; dma_active = false }
unfolding tick_dma
tick_dma-ends n m h k = simp (h, k)

pub tick_dma-idle : (n : ℕ) (m : Memory) → m.dma_active ≡ false → tick_dma n m ≡ m
unfolding tick_dma
tick_dma-idle n m h = simp h

tick_dma-devices :
    (n : ℕ) (m : Memory) → ((tick_dma n m).timer ≡ m.timer) × ((tick_dma n m).ppu ≡ m.ppu)
tick_dma-devices n m = elim (Bool-cases m.dma_active) [
  | inl active ↦ elim (Bool-cases (ltb (u16 n) m.dma_cycles_remaining)) [
    | inl more ↦ rw (tick_dma-goes_on n m active more) (refl, refl)
    | inr last ↦ rw (tick_dma-ends n m active last) (refl, refl)
  ]
  | inr idle ↦ rw (tick_dma-idle n m idle) (refl, refl)
]

tick_dma-IsTicking : (n : ℕ) (m : Memory) → IsTicking m → IsTicking (tick_dma n m)
tick_dma-IsTicking n m v = elim (Bool-cases m.dma_active) [
  | inl active ↦ elim (Bool-cases (ltb (u16 n) m.dma_cycles_remaining)) [
    | inl more ↦ rw (tick_dma-goes_on n m active more) (record {
      timer_ok = v.timer_ok;
      ppu_ok = v.ppu_ok;
      dma_left = λ h. ground arith;
      dma_u16 = omega (arith, v.dma_u16);
    })
    | inr last ↦ rw (tick_dma-ends n m active last) (record {
      timer_ok = v.timer_ok;
      ppu_ok = v.ppu_ok;
      dma_left = λ h. cc;
      dma_u16 = omega arith;
    })
  ]
  | inr idle ↦ rw (tick_dma-idle n m idle) v
]

pub fits : (b : Build) (w n : ℕ) → n < 2 ^ w → fit b w n ≡ ok n
fits debug w n h = ground arith
fits release w n h = ap ok (mod-eq_of_lt h)

-- With the timer and the picture unit well formed, and cycles left while a DMA is active, a tick of
-- at most 20 M-cycles returns in both builds, keeps all this, and moves the counter behind DIV on
-- by four for each M-cycle.
pub tick_components-IsTicking :
    (b : Build) (n : ℕ) (m : Memory)
    → IsTicking m
    → n ≤ 20
    → (m' : Memory) × (tick_components b n m ≡ ok m')
      × IsTicking m'
      × (Timer.read m'.timer 0xFF04 ≡ (m.timer.internal_counter + 4 * n) / 256 % 256)
unfolding tick_components
tick_components-IsTicking b n m v h =
    let (timer', ticked, timer_ok, div) = tick-read b (u16 n) m.timer v.timer_ok (omega arith) in
    let (stepped, stepped_to, ppu_ok) = step-IsPpu b (n * 4) m.ppu v.ppu_ok (omega arith) in
    let m1 = record m { timer = timer'; ppu = stepped.0 } in
    let v1 : IsTicking m1 = record {
      timer_ok = timer_ok;
      ppu_ok = ppu_ok;
      dma_left = v.dma_left;
      dma_u16 = v.dma_u16;
    } in
    (
      tick_dma n m1,
      rw (ticked, fits b 32 (n * 4) (omega arith), stepped_to),
      tick_dma-IsTicking n m1 v1,
      rw (tick_dma-devices n m1).0 (div ∙ (omega arith)),
    )

-- The countdown over ticks of the sizes in the list.
pub dma_ticks : List ℕ → Memory → Memory
dma_ticks [] m = m
dma_ticks (n ∷ rest) m = dma_ticks rest (tick_dma n m)

abbrev pub AllWords : List ℕ → Type 0
AllWords [] = Unit {0}
AllWords (n ∷ rest) = (n < 65536) × AllWords rest

dma_ticks-idle : (sizes : List ℕ) (m : Memory) → m.dma_active ≡ false → dma_ticks sizes m ≡ m
unfolding dma_ticks
dma_ticks-idle [] m idle = refl
dma_ticks-idle (n ∷ rest) m idle = rw (tick_dma-idle n m idle) (dma_ticks-idle rest m idle)

-- A DMA is active exactly while its ticks have not used up the cycles that it has left, 160 after
-- a write to 0xFF46, however the time is cut into ticks.
pub dma_ticks-active :
    (sizes : List ℕ) (m : Memory)
    → m.dma_active ≡ true
    → 0 < m.dma_cycles_remaining
    → AllWords sizes
    → (dma_ticks sizes m).dma_active ≡ ltb (total sizes) m.dma_cycles_remaining
unfolding dma_ticks
dma_ticks-active [] m active h words = ground arith
dma_ticks-active (n ∷ rest) m active h words =
    elim (Bool-cases (ltb (u16 n) m.dma_cycles_remaining)) [
      | inl more ↦
          let m1 : Memory = record m { dma_cycles_remaining = m.dma_cycles_remaining - u16 n } in
          ap (λ (x : Memory). (dma_ticks rest x).dma_active) (tick_dma-goes_on n m active more)
          ∙ dma_ticks-active rest m1 active (ground arith) words.1
          ∙ (ground arith)
      | inr last ↦
          let m1 : Memory = record m { dma_cycles_remaining = 0; dma_active = false } in
          ap (λ (x : Memory). (dma_ticks rest x).dma_active) (tick_dma-ends n m active last)
          ∙ ap (λ (x : Memory). x.dma_active) (dma_ticks-idle rest m1 refl)
          ∙ (ground arith)
    ]
