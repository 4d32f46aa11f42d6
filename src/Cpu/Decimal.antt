-- ===== src/Cpu/Decimal.antt =====
-- DAA after ADD and after SUB of numbers in binary-coded decimal.
use rust_gb_emulator.Base.{
  ℕ, ◌+◌, ◌*◌, ◌-◌, ◌/◌, ◌%◌, ◌<◌, true, false, ◌==◌, ltb, leb, if◌then◌else◌, ◌≡◌, refl, ap, ◌∙◌,
  arith, Build, Outcome, ok, Bytes,
}
use rust_gb_emulator.Cpu.Registers
use rust_gb_emulator.Cpu.Registers.{Registers, Reg8, reg_a, reg_f}
use rust_gb_emulator.Cpu.RegisterLaws.{same_reg, kept, write_r8-IsRegisters, read_r8-write_r8}
use rust_gb_emulator.Cpu.Machine.{
  Machine, Exec, ◌>>=◌, ◌>>◌, read_r8, write_r8, set_registers, tick_internal,
}
use rust_gb_emulator.Cpu.Alu.{add_a, sub_a}
use rust_gb_emulator.Cpu.Rotates.{daa}
use rust_gb_emulator.Cpu.Flags.{flag_bits, Computes, accumulator}
use rust_gb_emulator.Cpu.Takes.{IsMachine}
use rust_gb_emulator.Cpu.RamAccesses.{Leaves, bind-Leaves, then-Leaves}
use rust_gb_emulator.Cpu.RamWords.{tick_at}
use rust_gb_emulator.Cpu.RegisterRuns.{
  SameCounters, two_writes-SameCounters, read_r8-Leaves, write_r8-Leaves,
}
use rust_gb_emulator.Cpu.Additions.{additions}
use rust_gb_emulator.Cpu.Subtractions.{subtractions}
use rust_gb_emulator.Cpu.DecimalTables.{
  bcd, daa_value, daa_flags, sum_flags, difference_flags, sum_test, difference_test, sum_table,
  difference_table, pair_table, bcd-lt, both, flags-range,
}

daa-Leaves :
    (b : Build) (r : Registers) (ram : Bytes) (t : Machine)
    → let a = Registers.read_r8 r reg_a in
      let f = Registers.read_r8 r reg_f in
      daa_value a f < 256
      → daa_flags a f < 256
      → IsMachine t
      → t.cpu.registers ≡ r
      → t.mem.main_memory ≡ ram
      → Leaves
          (daa b t)
          tt
          (Registers.write_r8 (Registers.write_r8 r reg_f (daa_flags a f)) reg_a (daa_value a f))
          ram
unfolding daa
daa-Leaves b r ram t small small' v e k =
    let a = Registers.read_r8 r reg_a in
    let f = Registers.read_r8 r reg_f in
    let r1 = Registers.write_r8 r reg_f (daa_flags a f) in
    let r2 = Registers.write_r8 r1 reg_a (daa_value a f) in
    let writes : ℕ → ℕ → Exec (Unit {0}) =
      λ a f. (do write_r8 reg_f (daa_flags a f); write_r8 reg_a (daa_value a f)) in
    let rest : ℕ → Exec (Unit {0}) = λ a. read_r8 reg_f >>= writes a in
    then-Leaves b t (tick_internal 1) (read_r8 reg_a >>= rest) tt r r2 ram ram
      (tick_at b 1 r ram t v e k (omega arith))
      λ t1 v1 e1 k1.
        bind-Leaves b t1 (read_r8 reg_a) rest a tt r r2 ram ram
          (read_r8-Leaves b reg_a r ram t1 v1 e1 k1)
          λ t2 v2 e2 k2.
            bind-Leaves b t2 (read_r8 reg_f) (writes a) f tt r r2 ram ram
              (read_r8-Leaves b reg_f r ram t2 v2 e2 k2)
              λ t3 v3 e3 k3.
                then-Leaves b t3 (write_r8 reg_f (daa_flags a f)) (write_r8 reg_a (daa_value a f))
                  tt r1 r2 ram ram
                  (write_r8-Leaves b reg_f (daa_flags a f) r ram t3 small' v3 e3 k3)
                  λ t4 v4 e4 k4. write_r8-Leaves b reg_a (daa_value a f) r1 ram t4 small v4 e4 k4

-- A run that returns and leaves a well-formed machine with these bytes in A and F; every other 8-bit
-- register, SP, PC, IME and the RAM are as before.
pub record Adjusts (s : Machine) (o : Outcome (Unit {0} × Machine)) (a f : ℕ) : Type 0 where
  pub machine : Machine
  pub returns : o ≡ ok (tt, machine)
  pub typed : IsMachine machine
  pub value : Registers.read_r8 machine.cpu.registers reg_a ≡ a
  pub flags : Registers.read_r8 machine.cpu.registers reg_f ≡ f
  pub others :
      (y : Reg8)
      → same_reg reg_a y ≡ false
      → same_reg reg_f y ≡ false
      → Registers.read_r8 machine.cpu.registers y ≡ Registers.read_r8 s.cpu.registers y
  pub counters : SameCounters s.cpu.registers machine.cpu.registers
  pub ram : machine.mem.main_memory ≡ s.mem.main_memory

computed-Leaves :
    (s : Machine) (o : Outcome (Unit {0} × Machine)) (a f : ℕ) (v : Computes s o a f)
    → IsMachine s
    → Leaves o tt v.after s.mem.main_memory
unfolding set_registers
computed-Leaves s o a f v w = record {
  machine = set_registers v.after s;
  returns = v.returns;
  typed = record { registers_ok = v.well; bus_ok = w.bus_ok };
  registers_are = refl;
  ram_is = refl;
}

-- DAA behind an operation on A.
then-daa :
    (b : Build) (s : Machine) (e : Exec (Unit {0})) (a f a' f' : ℕ)
    → IsMachine s
    → Computes s (e b s) a f
    → daa_value a f ≡ a'
    → daa_flags a f ≡ f'
    → a' < 256
    → f' < 256
    → f' % 16 ≡ 0
    → Adjusts s ((e >> daa) b s) a' f'
unfolding same_reg kept
then-daa b s e a f a' f' w v same_a same_f small small' low =
    let r = v.after in
    let ram = s.mem.main_memory in
    let x = Registers.read_r8 r reg_a in
    let g = Registers.read_r8 r reg_f in
    let z : daa_value x g ≡ a' = (λ i. daa_value (v.accumulator i) (v.flags i)) ∙ same_a in
    let h : daa_flags x g ≡ f' = (λ i. daa_flags (v.accumulator i) (v.flags i)) ∙ same_f in
    let bound : daa_value x g < 256 = rw z small in
    let bound' : daa_flags x g < 256 = rw h small' in
    let r1 = Registers.write_r8 r reg_f (daa_flags x g) in
    let r2 = Registers.write_r8 r1 reg_a (daa_value x g) in
    let v1 = write_r8-IsRegisters r reg_f (daa_flags x g) v.well bound' in
    let run =
      then-Leaves b s e daa tt r r2 ram ram (computed-Leaves s (e b s) a f v w)
        (λ t u k m. daa-Leaves b r ram t bound bound' u k m) in
    let seen : (y : Reg8)
        → Registers.read_r8 run.machine.cpu.registers y ≡ (
            if same_reg reg_a y
            then daa_value x g
            else if same_reg reg_f y
            then kept reg_f (daa_flags x g)
            else Registers.read_r8 r y) =
      λ y.
        ap (λ q. Registers.read_r8 q y) run.registers_are
        ∙ (read_r8-write_r8 r1 reg_a y (daa_value x g) v1 bound).0
        ∙ ap (λ n. if same_reg reg_a y then daa_value x g else n)
            (read_r8-write_r8 r reg_f y (daa_flags x g) v.well bound').0 in
    let moved = two_writes-SameCounters r reg_f reg_a (daa_flags x g) (daa_value x g) in
    let (sp, pc, ime) = v.counters in
    record {
      machine = run.machine;
      returns = run.returns;
      typed = run.typed;
      value = seen reg_a ∙ z;
      flags = seen reg_f ∙ ap (λ n. n / 16 * 16) h ∙ (omega arith);
      others = λ y not_a not_f. seen y ∙ rw (not_a, not_f) (v.others y not_a not_f);
      counters = rw run.registers_are (moved.0 ∙ sp, moved.1 ∙ pc, moved.2 ∙ ime);
      ram = run.ram_is;
    }

-- On a well-formed machine whose A holds two decimal digits: ADD of two decimal digits and then DAA
-- return and leave the digits of the sum, with Z if they are 00, N and H cleared, and C if the sum is
-- 100 or more; SUB and then DAA leave the digits of the difference, 100 added if it is negative, with Z
-- if it is 0, N set, H cleared, and C if it is negative. Every other 8-bit register, SP, PC, IME and
-- the main memory are as before.
pub decimal :
    (b : Build) (s : Machine) (x y : ℕ)
    → IsMachine s
    → accumulator s ≡ bcd x
    → x < 100
    → y < 100
    → Adjusts s
        ((do add_a (bcd y); daa) b s)
        (bcd ((x + y) % 100))
        (flag_bits ((x + y) % 100 == 0) false false (leb 100 (x + y)))
      × Adjusts s
          ((do sub_a (bcd y); daa) b s)
          (bcd ((x + 100 - y) % 100))
          (flag_bits (x == y) true false (ltb x y))
unfolding sum_test difference_test
decimal b s x y w e h k =
    let v = bcd y in
    let sum = both _ _ _ _ (pair_table sum_test x y sum_table h k) in
    let difference = both _ _ _ _ (pair_table difference_test x y difference_table h k) in
    let added = flags-range ((x + y) % 100 == 0) false false (leb 100 (x + y)) in
    let taken = flags-range (x == y) true false (ltb x y) in
    let ok' = w.registers_ok in
    (
      then-daa b s (add_a v) _ _ _ _ w (additions b v s ok' (bcd-lt y)).0
          (ap (λ n. daa_value ((v + n) % 256) (sum_flags n v)) e ∙ sum.0)
          (ap (λ n. daa_flags ((v + n) % 256) (sum_flags n v)) e ∙ sum.1) (bcd-lt ((x + y) % 100))
          added.0 added.1,
      then-daa b s (sub_a v) _ _ _ _ w (subtractions b v s ok' (bcd-lt y)).0
          (ap (λ n. daa_value ((n + 256 - v) % 256) (difference_flags n v)) e ∙ difference.0)
          (ap (λ n. daa_flags ((n + 256 - v) % 256) (difference_flags n v)) e ∙ difference.1)
          (bcd-lt ((x + 100 - y) % 100)) taken.0 taken.1,
    )
