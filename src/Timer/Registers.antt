-- ===== src/Timer/Registers.antt =====
-- The invariant of the timer, its registers, and the timer while it is off.
use rust_gb_emulator.Base.{
  ℕ, zero, suc, ◌+◌, ◌*◌, ◌/◌, ◌%◌, ◌<◌, ◌≡◌, arith, ◌∙◌, Build, debug, release, ok,
}
use rust_gb_emulator.Base.Masks.{bit_and_ones, bit_and_bit}
use rust_gb_emulator.Timer.{
  Timer, new, tick_cycle, tick_cycles, tick, advance, increment_tima, count_down, falling_edge,
  get_timer_enable_bit, read, write, clear_interrupt,
}
use rust_gb_emulator.Timer.Edges.{IsTimer}
use rust_gb_emulator.Timer.Interrupt.{to_overflow, interrupt_time}

tick_cycle-IsTimer : (t : Timer) → IsTimer t → IsTimer (tick_cycle t)
unfolding tick_cycle advance increment_tima count_down
tick_cycle-IsTimer t v = ground arith

tick_cycles-IsTimer : (n : ℕ) (t : Timer) → IsTimer t → IsTimer (tick_cycles n t)
unfolding tick_cycles
tick_cycles-IsTimer zero t v = v
tick_cycles-IsTimer (suc n) t v = tick_cycles-IsTimer n (tick_cycle t) (tick_cycle-IsTimer t v)

-- A new timer is well formed, and each operation keeps it so, a write for any byte.
pub operations-IsTimer :
    (t : Timer) (n address value : ℕ)
    → IsTimer t
    → value < 256
    → IsTimer new
      × IsTimer (tick_cycles n t)
      × IsTimer (write t address value)
      × IsTimer (clear_interrupt t)
unfolding new write increment_tima clear_interrupt
operations-IsTimer t n address value v h =
    (ground arith, tick_cycles-IsTimer n t v, ground (arith, bit_and_ones 3 value), ground arith)

tick_cycle-counter :
    (t : Timer) → (tick_cycle t).internal_counter ≡ (t.internal_counter + 1) % 65536
unfolding tick_cycle advance increment_tima count_down
tick_cycle-counter t = ground arith

pub tick_cycles-counter :
    (n : ℕ) (t : Timer)
    → t.internal_counter < 65536
    → (tick_cycles n t).internal_counter ≡ (t.internal_counter + n) % 65536
unfolding tick_cycles
tick_cycles-counter zero t h = omega arith
tick_cycles-counter (suc n) t h =
    omega (arith, tick_cycle-counter t, tick_cycles-counter n (tick_cycle t))

-- In both builds `tick` returns for fewer than 16384 M-cycles, the timer stays well formed, and
-- DIV is then the upper byte of a counter that has gone on by four per M-cycle, whatever TIMA did.
pub tick-read :
    (b : Build) (m : ℕ) (t : Timer)
    → IsTimer t
    → m < 16384
    → (t' : Timer) × (tick b m t ≡ ok t')
      × IsTimer t'
      × (read t' 0xFF04 ≡ (t.internal_counter + 4 * m) / 256 % 256)
unfolding tick read
tick-read debug m t v h = (
  tick_cycles (m * 4) t,
  ground arith,
  tick_cycles-IsTimer (m * 4) t v,
  ground (arith, tick_cycles-counter (m * 4) t),
)
tick-read release m t v h = (
  tick_cycles (m * 4) t,
  ground arith,
  tick_cycles-IsTimer (m * 4) t v,
  ground (arith, tick_cycles-counter (m * 4) t),
)

tick_cycle-off :
    (t : Timer)
    → t.tac < 4
    → t.overflow_cycles ≡ 0
    → tick_cycle t ≡ record t { internal_counter = (t.internal_counter + 1) % 65536 }
unfolding tick_cycle get_timer_enable_bit falling_edge advance
tick_cycle-off t off idle = ground (arith, bit_and_bit 2 t.tac)

-- While the timer is off and no delay runs, only the counter behind DIV goes on.
pub tick_cycles-off :
    (n : ℕ) (t : Timer)
    → t.internal_counter < 65536
    → t.tac < 4
    → t.overflow_cycles ≡ 0
    → tick_cycles n t ≡ record t { internal_counter = (t.internal_counter + n) % 65536 }
unfolding tick_cycles
tick_cycles-off zero t v off idle = ground arith
tick_cycles-off (suc n) t v off idle =
    ground (arith, tick_cycle-off t off idle, tick_cycles-off n (tick_cycle t))

-- A write to TIMA of a running timer cancels a reload that is on its way: TIMA keeps the value
-- written, and the interrupt flag stays as it was up to the next overflow and its delay.
pub tick_cycles-write :
    (t : Timer) (value n : ℕ)
    → IsTimer t
    → t.tac / 4 ≡ 1
    → value < 256
    → n < to_overflow (write t 0xFF05 value) + 4
    → ((write t 0xFF05 value).tima ≡ value)
      × ((write t 0xFF05 value).overflow_cycles ≡ 0)
      × ((tick_cycles n (write t 0xFF05 value)).interrupt_pending ≡ t.interrupt_pending)
unfolding write
tick_cycles-write t value n v on h e = (
  ground arith,
  ground arith,
  (interrupt_time (write t 0xFF05 value) n (ground arith) (ground arith) e).1 ∙ (ground arith),
)
