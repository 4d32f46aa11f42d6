-- ===== src/Timer/Counting.antt =====
-- TIMA over many T-cycles: how often it counts, and when its overflow raises the interrupt.
use rust_gb_emulator.Base.{
  ℕ, zero, suc, ◌+◌, ◌-◌, ◌/◌, ◌%◌, ◌<◌, true, ◌==◌, if◌then◌else◌, ◌≡◌, arith,
}
use native.Mathlib.Nat.{suc-add}
use rust_gb_emulator.Timer.{Timer, tick_cycle, tick_cycles, advance, increment_tima, count_down}
use rust_gb_emulator.Timer.Edges.{period_of_rate, Counting, tick_cycle-Counting}

-- The multiples of a rate's period that `n` T-cycles reach from the counter `c`.
abbrev pub counts : ℕ → ℕ → ℕ → ℕ
counts r c n = (c + n) / period_of_rate r - c / period_of_rate r

counts-suc :
    (r c n : ℕ) → c < 65536 → counts r c (suc n) ≡ counts r c 1 + counts r ((c + 1) % 65536) n
counts-suc zero c n h = omega arith
counts-suc (suc zero) c n h = omega arith
counts-suc (suc (suc zero)) c n h = omega arith
counts-suc (suc (suc (suc r))) c n h = omega arith

counts-one : (r c : ℕ) → counts r c 1 ≡ (if (c + 1) % period_of_rate r == 0 then 1 else 0)
counts-one zero c = ground arith
counts-one (suc zero) c = ground arith
counts-one (suc (suc zero)) c = ground arith
counts-one (suc (suc (suc r))) c = ground arith

pub tick_cycles-add :
    (n m : ℕ) (t : Timer) → tick_cycles (n + m) t ≡ tick_cycles m (tick_cycles n t)
unfolding tick_cycles
tick_cycles-add zero m t = ground arith
tick_cycles-add (suc n) m t = rw suc-add (tick_cycles-add n m (tick_cycle t))

-- One T-cycle in which TIMA does not pass 255.
tick_cycle-no_overflow :
    (t : Timer)
    → Counting t
    → t.tima + counts (t.tac % 4) t.internal_counter 1 < 256
    → tick_cycle t ≡ record t {
      internal_counter = (t.internal_counter + 1) % 65536;
      tima = t.tima + counts (t.tac % 4) t.internal_counter 1;
    }
unfolding increment_tima advance
tick_cycle-no_overflow t on h =
    ground (arith, tick_cycle-Counting t on, counts-one (t.tac % 4) t.internal_counter)

-- While TIMA does not pass 255 it counts the multiples, and nothing else but the counter changes.
pub tick_cycles-no_overflow :
    (n : ℕ) (t : Timer)
    → t.internal_counter < 65536
    → Counting t
    → t.tima + counts (t.tac % 4) t.internal_counter n < 256
    → tick_cycles n t ≡ record t {
      internal_counter = (t.internal_counter + n) % 65536;
      tima = t.tima + counts (t.tac % 4) t.internal_counter n;
    }
unfolding tick_cycles
tick_cycles-no_overflow zero t v on h = ground arith
tick_cycles-no_overflow (suc n) t v on h = ground (
  arith,
  counts-suc (t.tac % 4) t.internal_counter n,
  tick_cycle-no_overflow t on,
  tick_cycles-no_overflow n (tick_cycle t),
)

-- The T-cycle in which TIMA passes 255: it is 0 at once, and a delay of 4 starts.
pub tick_cycle-overflow :
    (t : Timer)
    → Counting t
    → t.tima ≡ 255
    → counts (t.tac % 4) t.internal_counter 1 ≡ 1
    → tick_cycle t ≡ record t {
      internal_counter = (t.internal_counter + 1) % 65536;
      tima = 0;
      overflow_cycles = 4;
      tima_overflow_value = 0;
    }
unfolding increment_tima advance
tick_cycle-overflow t on h e =
    ground (arith, tick_cycle-Counting t on, counts-one (t.tac % 4) t.internal_counter)

tick_cycle-delay :
    (t : Timer) (k : ℕ)
    → t.overflow_cycles ≡ suc (suc k)
    → tick_cycle t
      ≡ record t { internal_counter = (t.internal_counter + 1) % 65536; overflow_cycles = suc k }
unfolding tick_cycle advance count_down
tick_cycle-delay t k e = ground arith

tick_cycle-reload :
    (t : Timer)
    → t.overflow_cycles ≡ 1
    → tick_cycle t ≡ record t {
      internal_counter = (t.internal_counter + 1) % 65536;
      overflow_cycles = 0;
      tima = t.tma;
      interrupt_pending = true;
    }
unfolding tick_cycle advance count_down
tick_cycle-reload t e = ground arith

-- A delay of k T-cycles ends in the reload of TIMA from TMA, and the interrupt.
pub tick_cycles-reload :
    (k : ℕ) (t : Timer)
    → t.overflow_cycles ≡ suc k
    → tick_cycles (suc k) t ≡ record t {
      internal_counter = (t.internal_counter + suc k) % 65536;
      overflow_cycles = 0;
      tima = t.tma;
      interrupt_pending = true;
    }
unfolding tick_cycles
tick_cycles-reload zero t e = tick_cycle-reload t e
tick_cycles-reload (suc k) t e =
    ground (arith, tick_cycle-delay t k e, tick_cycles-reload k (tick_cycle t))

-- During the delay nothing but the counter and the delay itself changes.
pub tick_cycles-delay :
    (n k : ℕ) (t : Timer)
    → t.internal_counter < 65536
    → t.overflow_cycles ≡ suc (n + k)
    → tick_cycles n t
      ≡ record t { internal_counter = (t.internal_counter + n) % 65536; overflow_cycles = suc k }
unfolding tick_cycles
tick_cycles-delay zero k t v e = ground arith
tick_cycles-delay (suc n) k t v e =
    ground (arith, tick_cycle-delay t (n + k), tick_cycles-delay n k (tick_cycle t))
