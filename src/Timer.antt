-- ===== src/Timer.antt =====
-- src/timer.rs: the registers DIV, TIMA, TMA and TAC over one 16-bit counter.
pub mod Edges
pub mod Counting
pub mod Interrupt
pub mod Registers
mod Examples
use rust_gb_emulator.Base.{
  ℕ, zero, suc, ◌+◌, ◌-◌, ◌*◌, ◌/◌, ◌%◌, ◌<◌, bit_and, bit_or, Bool, true, false, not, ◌&&◌, ltb,
  ◌==◌, ◌!=◌, if◌then◌else◌, u8, u16, ◌<<<◌, ◌>>>◌, Build, Outcome, ok, ◌>>=◌, fit,
}

pub record Timer : Type 0 where
  pub internal_counter : ℕ  -- u16
  pub tima : ℕ  -- u8
  pub tma : ℕ  -- u8
  pub tac : ℕ  -- u8
  pub interrupt_pending : Bool
  pub overflow_cycles : ℕ  -- u8
  pub tima_overflow_value : ℕ  -- u8

unfoldable pub new : Timer
new = record {
  internal_counter = 0xABCC;
  tima = 0;
  tma = 0;
  tac = 0;
  interrupt_pending = false;
  overflow_cycles = 0;
  tima_overflow_value = 0;
}

-- The arms of the `match` on `tac & 0x03`, which is below 4: the last is that of 3, and its own
-- `_ => unreachable!()` has no value left.
unfoldable pub bit_of_rate : ℕ → ℕ
bit_of_rate zero = 9
bit_of_rate (suc zero) = 3
bit_of_rate (suc (suc zero)) = 5
bit_of_rate _ = 7

unfoldable pub get_timer_bit : Timer → ℕ
unfolding bit_of_rate
get_timer_bit t = bit_of_rate (bit_and t.tac 0x03)

unfoldable pub get_timer_enable_bit : Timer → Bool
unfolding get_timer_bit
get_timer_enable_bit t =
    let timer_enabled = bit_and t.tac 0x04 != 0 in
    if not timer_enabled
    then false
    else (let bit_pos = get_timer_bit t in bit_and t.internal_counter (1 <<< bit_pos) != 0)

-- `tima.overflowing_add(1)` and the two branches after it, which `tick` and `write` share.
unfoldable pub increment_tima : Timer → Timer
increment_tima t =
    let new_tima = u8 (t.tima + 1) in
    let overflow = ltb 255 (t.tima + 1) in
    if overflow
    then record t { overflow_cycles = 4; tima_overflow_value = new_tima; tima = new_tima }
    else record t { tima = new_tima }

-- TIMA counts where the selected bit goes from 1 to 0.
unfoldable pub falling_edge : Bool → Bool → Bool
falling_edge old_enable_bit new_enable_bit = old_enable_bit && not new_enable_bit

unfoldable pub count_down : Timer → Timer
count_down t =
    let left = t.overflow_cycles - 1 in
    let t' = record t { overflow_cycles = left } in
    if left == 0 then record t' { tima = t.tma; interrupt_pending = true } else t'

unfoldable pub advance : Timer → Timer
advance t = record t { internal_counter = u16 (t.internal_counter + 1) }

-- The body of the loop of `tick`: one T-cycle.
unfoldable pub tick_cycle : Timer → Timer
unfolding advance count_down
tick_cycle t =
    if ltb 0 t.overflow_cycles
    then advance (count_down t)
    else (let old_enable_bit = get_timer_enable_bit t in
        let t' = advance t in
        let new_enable_bit = get_timer_enable_bit t' in
        if falling_edge old_enable_bit new_enable_bit then increment_tima t' else t')

unfoldable pub tick_cycles : ℕ → Timer → Timer
tick_cycles zero t = t
tick_cycles (suc n) t = tick_cycles n (tick_cycle t)

-- `m_cycles * 4` is a product of type u16.
unfoldable pub tick : Build → ℕ → Timer → Outcome Timer
tick b m_cycles t = do t_cycles ← fit b 16 (m_cycles * 4); ok (tick_cycles t_cycles t)

unfoldable pub read : Timer → ℕ → ℕ
read t address =
    if address == 0xFF04
    then u8 (t.internal_counter >>> 8)
    else if address == 0xFF05
    then t.tima
    else if address == 0xFF06
    then t.tma
    else if address == 0xFF07
    then bit_or t.tac 0xF8
    else 0xFF

write_div : Timer → Timer
write_div t =
    let old_enable_bit = get_timer_enable_bit t in
    let t' = record t { internal_counter = 0 } in
    let new_enable_bit = get_timer_enable_bit t' in
    if falling_edge old_enable_bit new_enable_bit then increment_tima t' else t'

write_tima : Timer → ℕ → Timer
write_tima t value =
    let t' = record t { tima = value } in
    if ltb 0 t'.overflow_cycles then record t' { overflow_cycles = 0 } else t'

write_tac : Timer → ℕ → Timer
write_tac t value =
    let old_enable_bit = get_timer_enable_bit t in
    let t' = record t { tac = bit_and value 0x07 } in
    let new_enable_bit = get_timer_enable_bit t' in
    if falling_edge old_enable_bit new_enable_bit then increment_tima t' else t'

unfoldable pub write : Timer → ℕ → ℕ → Timer
unfolding write_div write_tima write_tac
write t address value =
    if address == 0xFF04
    then write_div t
    else if address == 0xFF05
    then write_tima t value
    else if address == 0xFF06
    then record t { tma = value }
    else if address == 0xFF07
    then write_tac t value
    else t

unfoldable pub clear_interrupt : Timer → Timer
clear_interrupt t = record t { interrupt_pending = false }
