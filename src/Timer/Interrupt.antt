-- ===== src/Timer/Interrupt.antt =====
-- When the timer's interrupt comes.
use rust_gb_emulator.Base.{
  ℕ, zero, suc, ◌+◌, ◌-◌, ◌*◌, ◌%◌, ◌<◌, ◌≤◌, true, false, ltb, ◌≡◌, arith, Bool-cases, inl, inr,
  ltb→lt,
}
use rust_gb_emulator.Timer.{Timer, tick_cycles}
use rust_gb_emulator.Timer.Edges.{period_of_rate, period, IsTimer, Counting}
use rust_gb_emulator.Timer.Counting.{
  counts, tick_cycles-add, tick_cycles-no_overflow, tick_cycle-overflow, tick_cycles-reload,
  tick_cycles-delay,
}

-- The T-cycles that a TIMA of `tima` takes, from the counter `c`, up to its last count.
abbrev last_count : ℕ → ℕ → ℕ → ℕ
last_count r c tima = (256 - tima) * period_of_rate r - c % period_of_rate r - 1

-- The T-cycles until TIMA passes 255.
abbrev pub to_overflow : Timer → ℕ
to_overflow t = (256 - t.tima) * period t - t.internal_counter % period t

last_count_lem :
    (r c tima : ℕ)
    → tima < 256
    → (tima + counts r c (last_count r c tima) ≡ 255)
      × (counts r ((c + last_count r c tima) % 65536) 1 ≡ 1)
      × ((256 - tima) * period_of_rate r - c % period_of_rate r ≡ suc (last_count r c tima))
last_count_lem zero c tima h = omega arith
last_count_lem (suc zero) c tima h = omega arith
last_count_lem (suc (suc zero)) c tima h = omega arith
last_count_lem (suc (suc (suc r))) c tima h = omega arith

counts_mono : (r c n m : ℕ) → n ≤ m → counts r c n ≤ counts r c m
counts_mono zero c n m h = omega arith
counts_mono (suc zero) c n m h = omega arith
counts_mono (suc (suc zero)) c n m h = omega arith
counts_mono (suc (suc (suc r))) c n m h = omega arith

-- TIMA passes 255 after exactly `to_overflow t` T-cycles, and shows 0 from there.
at_overflow :
    (t : Timer)
    → IsTimer t
    → Counting t
    → tick_cycles (to_overflow t) t ≡ record t {
      internal_counter = (t.internal_counter + to_overflow t) % 65536;
      tima = 0;
      overflow_cycles = 4;
      tima_overflow_value = 0;
    }
unfolding tick_cycles
at_overflow t v on =
    let r = t.tac % 4 in
    let n = last_count r t.internal_counter t.tima in
    ground (
      arith,
      last_count_lem r t.internal_counter t.tima,
      tick_cycles-add n 1 t,
      tick_cycles-no_overflow n t,
      tick_cycle-overflow (tick_cycles n t),
    )

before_overflow :
    (t : Timer) (n : ℕ)
    → IsTimer t
    → Counting t
    → n < to_overflow t
    → (tick_cycles n t).interrupt_pending ≡ t.interrupt_pending
before_overflow t n v on h =
    let r = t.tac % 4 in
    ground (
      arith,
      last_count_lem r t.internal_counter t.tima,
      counts_mono r t.internal_counter n (last_count r t.internal_counter t.tima),
      tick_cycles-no_overflow n t,
    )

in_delay :
    (t : Timer) (n : ℕ)
    → IsTimer t
    → Counting t
    → n < 4
    → (tick_cycles (to_overflow t + n) t).interrupt_pending ≡ t.interrupt_pending
in_delay t n v on h = ground (
  arith,
  tick_cycles-add (to_overflow t) n t,
  at_overflow t v on,
  tick_cycles-delay n (3 - n) (tick_cycles (to_overflow t) t),
)

-- With the timer on and no delay running, exactly `(256 - TIMA) * period` T-cycles, less the part
-- of the period that is over, and 4 more bring the reload of TIMA from TMA together with the
-- interrupt; at every earlier T-cycle n the interrupt flag is as it was.
pub interrupt_time :
    (t : Timer) (n : ℕ)
    → IsTimer t
    → Counting t
    → n < to_overflow t + 4
    → (tick_cycles (to_overflow t + 4) t ≡ record t {
      internal_counter = (t.internal_counter + to_overflow t + 4) % 65536;
      tima = t.tma;
      interrupt_pending = true;
      overflow_cycles = 0;
      tima_overflow_value = 0;
    })
      × ((tick_cycles n t).interrupt_pending ≡ t.interrupt_pending)
interrupt_time t n v on h = (
  ground (
    arith,
    tick_cycles-add (to_overflow t) 4 t,
    at_overflow t v on,
    tick_cycles-reload 3 (tick_cycles (to_overflow t) t),
  ),
  elim (Bool-cases (ltb n (to_overflow t))) [
    | inl early ↦ before_overflow t n v on (ltb→lt n (to_overflow t) early)
    | inr late ↦ rw (split late) (in_delay t (n - to_overflow t) v on (ground arith))
  ],
)
  where
    split : ltb n (to_overflow t) ≡ false → n ≡ to_overflow t + (n - to_overflow t)
    split late = ground arith
