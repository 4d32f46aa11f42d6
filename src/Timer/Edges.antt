-- ===== src/Timer/Edges.antt =====
-- What one T-cycle does to the counter and to TIMA, in arithmetic.
use rust_gb_emulator.Base.{
  ℕ, zero, suc, ◌+◌, ◌/◌, ◌%◌, ◌^◌, ◌<◌, ◌==◌, if◌then◌else◌, ◌≡◌, refl, arith,
}
use rust_gb_emulator.Base.Masks.{bit_and_ones, bit_and_bit}
use rust_gb_emulator.Timer.{
  Timer, bit_of_rate, get_timer_enable_bit, tick_cycle, advance, falling_edge, increment_tima,
}

-- The T-cycles between two counts of TIMA at a rate of TAC.
abbrev pub period_of_rate : ℕ → ℕ
period_of_rate zero = 1024
period_of_rate (suc zero) = 16
period_of_rate (suc (suc zero)) = 64
period_of_rate _ = 256

abbrev pub period : Timer → ℕ
period t = period_of_rate (t.tac % 4)

pub record IsTimer (t : Timer) : Type 0 where
  pub counter_u16 : t.internal_counter < 65536
  pub tima_u8 : t.tima < 256
  pub tma_u8 : t.tma < 256
  pub tac_3_bits : t.tac < 8
  pub delay : t.overflow_cycles < 5

-- The timer is on where bit 2 of TAC is, and no delay runs.
abbrev pub Counting : Timer → Type 0
Counting t = (t.tac / 4 ≡ 1) × (t.overflow_cycles ≡ 0)

-- The selected bit, read off by division.
enable-rate :
    (r : ℕ) (t : Timer)
    → t.tac / 4 ≡ 1
    → t.tac % 4 ≡ r
    → get_timer_enable_bit t ≡ (t.internal_counter / 2 ^ bit_of_rate r % 2 == 1)
unfolding get_timer_enable_bit bit_of_rate
enable-rate zero t on e =
    ground (arith, bit_and_ones 2 t.tac, bit_and_bit 2 t.tac, bit_and_bit 9 t.internal_counter)
enable-rate (suc zero) t on e =
    ground (arith, bit_and_ones 2 t.tac, bit_and_bit 2 t.tac, bit_and_bit 3 t.internal_counter)
enable-rate (suc (suc zero)) t on e =
    ground (arith, bit_and_ones 2 t.tac, bit_and_bit 2 t.tac, bit_and_bit 5 t.internal_counter)
enable-rate (suc (suc (suc zero))) t on e =
    ground (arith, bit_and_ones 2 t.tac, bit_and_bit 2 t.tac, bit_and_bit 7 t.internal_counter)
enable-rate (suc (suc (suc (suc r)))) t on e = absurd (omega arith)

edge-rate :
    (r : ℕ) (t : Timer)
    → t.tac / 4 ≡ 1
    → t.tac % 4 ≡ r
    → falling_edge (get_timer_enable_bit t) (get_timer_enable_bit (advance t))
      ≡ ((t.internal_counter + 1) % period_of_rate r == 0)
unfolding falling_edge advance bit_of_rate
edge-rate zero t on e = ground (arith, enable-rate 0 t on e, enable-rate 0 (advance t) on e)
edge-rate (suc zero) t on e = ground (arith, enable-rate 1 t on e, enable-rate 1 (advance t) on e)
edge-rate (suc (suc zero)) t on e =
    ground (arith, enable-rate 2 t on e, enable-rate 2 (advance t) on e)
edge-rate (suc (suc (suc zero))) t on e =
    ground (arith, enable-rate 3 t on e, enable-rate 3 (advance t) on e)
edge-rate (suc (suc (suc (suc r)))) t on e = absurd (omega arith)

-- TIMA counts when the counter comes to a multiple of the period.
pub tick_cycle-Counting :
    (t : Timer)
    → Counting t
    → tick_cycle t
      ≡ (if (t.internal_counter + 1) % period t == 0 then increment_tima (advance t) else advance t)
unfolding tick_cycle
tick_cycle-Counting t (on, idle) = ground (arith, edge-rate (t.tac % 4) t on refl)
