-- ===== src/Timer/Examples.antt =====
-- Runs of the timer, and its theorems at concrete timers.
use rust_gb_emulator.Base.{◌≡◌, refl, arith, debug, ok, panic, true, false}
use rust_gb_emulator.Timer.{
  Timer, new, tick_cycle, falling_edge, get_timer_enable_bit, increment_tima, tick_cycles, tick,
  read, write, clear_interrupt,
}
use rust_gb_emulator.Timer.Edges.{IsTimer}
use rust_gb_emulator.Timer.Counting.{tick_cycles-no_overflow}
use rust_gb_emulator.Timer.Interrupt.{interrupt_time}
use rust_gb_emulator.Timer.Registers.{operations-IsTimer, tick-read}

-- TIMA at 254, every 16 T-cycles, from a counter that stands 6 before a multiple.
abbrev fast : Timer
fast = record {
  internal_counter = 1018;
  tima = 254;
  tma = 0x42;
  tac = 5;
  interrupt_pending = false;
  overflow_cycles = 0;
  tima_overflow_value = 0;
}

-- The same timer in the delay after an overflow.
abbrev delayed : Timer
delayed = record fast { tima = 0; overflow_cycles = 3 }

fast_overflows : (tick_cycles 26 fast).tima ≡ 0x42
unfolding tick_cycles tick_cycle falling_edge get_timer_enable_bit increment_tima
fast_overflows = refl

tick_panics : tick debug 16384 new ≡ panic
unfolding tick
tick_panics = refl

interrupt_time_example :
    (tick_cycles 26 fast ≡ record fast {
      internal_counter = 1044;
      tima = 0x42;
      interrupt_pending = true;
      overflow_cycles = 0;
      tima_overflow_value = 0;
    })
    × ((tick_cycles 25 fast).interrupt_pending ≡ false)
interrupt_time_example = interrupt_time fast 25 (omega arith) (omega arith) (omega arith)

tick_cycles-no_overflow_example :
    tick_cycles 10 fast ≡ record fast { internal_counter = 1028; tima = 255 }
tick_cycles-no_overflow_example =
    tick_cycles-no_overflow 10 fast (omega arith) (omega arith) (omega arith)

operations-IsTimer_example :
    IsTimer new
    × IsTimer (tick_cycles 40 fast)
    × IsTimer (write fast 0xFF07 0xFF)
    × IsTimer (clear_interrupt fast)
operations-IsTimer_example = operations-IsTimer fast 40 0xFF07 0xFF (omega arith) (omega arith)

tick-read_example :
    (t' : Timer) × (tick debug 1000 fast ≡ ok t') × IsTimer t' × (read t' 0xFF04 ≡ 19)
tick-read_example = tick-read debug 1000 fast (omega arith) (omega arith)
