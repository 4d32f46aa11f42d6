-- ===== src/Cpu/ShiftRuns.antt =====
-- A rotate or shift of a register, whatever its result: the writes of F and of the register.
use rust_gb_emulator.Base.{
  ℕ, ◌*◌, ◌/◌, ◌%◌, ◌<◌, bit_or, Bool, true, false, if◌then◌else◌, ◌==◌, ◌!=◌, ◌≡◌, refl, ap, ◌∙◌,
  arith, Build, Outcome, ok,
}
use rust_gb_emulator.Base.Masks.{byte_table, every_below}
use rust_gb_emulator.Cpu.Registers
use rust_gb_emulator.Cpu.Registers.{
  Registers, Reg8, reg8, reg_a, reg_b, reg_c, reg_d, reg_e, reg_h, reg_l, reg_f,
}
use rust_gb_emulator.Cpu.RegisterLaws.{same_reg, kept, write_r8-IsRegisters, read_r8-write_r8}
use rust_gb_emulator.Cpu.Machine.{
  Machine, Exec, ◌>>=◌, ◌>>◌, read_r8, write_r8, read_operand, write_operand, tick_internal,
}
use rust_gb_emulator.Cpu.Loads.{
  zero_flag, subtract_flag, half_carry_flag, carry_flag, set_if, clear,
}
use rust_gb_emulator.Cpu.Cb.{write_op_cb, read_op_cb, shift_flags}
use rust_gb_emulator.Cpu.Flags.{flag_bits, flags_now}
use rust_gb_emulator.Cpu.Takes.{IsMachine}
use rust_gb_emulator.Cpu.RamAccesses.{Leaves, bind-Leaves, then-Leaves, tick_internal-Leaves}
use rust_gb_emulator.Cpu.RamWords.{tick_at}
use rust_gb_emulator.Cpu.RegisterRuns.{
  SameCounters, two_writes-SameCounters, read_r8-Leaves, write_r8-Leaves,
}

-- The clears of the flags, on the 16 values of F.
shift_mask :
    (out : Bool) (n : ℕ)
    → n < 256
    → clear zero_flag (
        clear subtract_flag
          (clear half_carry_flag (set_if out carry_flag (clear carry_flag (n * 16)))))
      ≡ (if out then 16 else 0)
unfolding every_below
shift_mask true n h =
    byte_table
      (λ k. clear zero_flag (
        clear subtract_flag
          (clear half_carry_flag (bit_or (clear carry_flag (k * 16)) carry_flag))))
      (λ k. 16) n refl h
shift_mask false n h =
    byte_table
      (λ k.
        clear zero_flag (clear subtract_flag (clear half_carry_flag (clear carry_flag (k * 16)))))
      (λ k. 0) n refl h

shift_flags-bits :
    (out result flags : ℕ)
    → flags < 256
    → flags % 16 ≡ 0
    → shift_flags out result flags ≡ flag_bits (result == 0) false false (out != 0)
unfolding shift_flags
shift_flags-bits out result flags h k =
    let upper : flags ≡ flags / 16 * 16 = omega arith in
    ap (λ f. shift_flags out result f) upper
    ∙ ap (λ f. set_if (result == 0) zero_flag f) (shift_mask (out != 0) (flags / 16) (omega arith))
    ∙ set_zero (result == 0) (out != 0)
  where
    set_zero : (z c : Bool) → set_if z zero_flag (if c then 16 else 0) ≡ flag_bits z false false c
    set_zero true true = refl
    set_zero true false = refl
    set_zero false true = refl
    set_zero false false = refl

-- A shift of a register: its result and the bit that leaves, from its byte and F.
abbrev pub shift_op : (ℕ → ℕ → ℕ) → (ℕ → ℕ) → Reg8 → Exec (Unit {0})
shift_op result out x = do
  value ← read_op_cb (reg8 x)
  flags ← read_r8 reg_f
  write_r8 reg_f (shift_flags (out value) (result value flags) flags)
  write_op_cb (reg8 x) (result value flags)

-- A run that has shifted a register: it returns and leaves a well-formed machine, the register holds
-- the result, Z says that it is 0, N and H are clear and C is the bit that left; every other
-- 8-bit register, SP, PC, IME and the RAM are as before.
pub record Shifts (s : Machine) (o : Outcome (Unit {0} × Machine)) (x : Reg8) (result : ℕ)
    (out : Bool) : Type 0 where
  pub machine : Machine
  pub returns : o ≡ ok (tt, machine)
  pub typed : IsMachine machine
  pub value : Registers.read_r8 machine.cpu.registers x ≡ result
  pub flags :
      Registers.read_r8 machine.cpu.registers reg_f ≡ flag_bits (result == 0) false false out
  pub others :
      (y : Reg8)
      → same_reg x y ≡ false
      → same_reg reg_f y ≡ false
      → Registers.read_r8 machine.cpu.registers y ≡ Registers.read_r8 s.cpu.registers y
  pub counters : SameCounters s.cpu.registers machine.cpu.registers
  pub ram : machine.mem.main_memory ≡ s.mem.main_memory

-- The registers that the two writes leave.
abbrev shifted : Registers → Reg8 → ℕ → ℕ → Registers
shifted r x result flags = Registers.write_r8 (Registers.write_r8 r reg_f flags) x result

shift_op-Leaves :
    (b : Build) (s : Machine) (result : ℕ → ℕ → ℕ) (out : ℕ → ℕ) (x : Reg8)
    → IsMachine s
    → let r = s.cpu.registers in
      let v = Registers.read_r8 r x in
      let f = Registers.read_r8 r reg_f in
      let g = shift_flags (out v) (result v f) f in
      result v f < 256
      → g < 256
      → Leaves (shift_op result out x b s) tt (shifted r x (result v f) g) s.mem.main_memory
unfolding read_op_cb write_op_cb read_operand write_operand
shift_op-Leaves b s result out x v small small' =
    let r = s.cpu.registers in
    let ram = s.mem.main_memory in
    let value = Registers.read_r8 r x in
    let f = Registers.read_r8 r reg_f in
    let z = result value f in
    let g = shift_flags (out value) z f in
    let r1 = Registers.write_r8 r reg_f g in
    let r2 = Registers.write_r8 r1 x z in
    let writes : ℕ → ℕ → Exec (Unit {0}) = λ value flags. (do
      write_r8 reg_f (shift_flags (out value) (result value flags) flags)
      write_op_cb (reg8 x) (result value flags)) in
    let rest : ℕ → Exec (Unit {0}) = λ value. read_r8 reg_f >>= writes value in
    bind-Leaves b s (read_op_cb (reg8 x)) rest value tt r r2 ram ram
      (then-Leaves b s (tick_internal 1) (read_r8 x) value r r ram ram
        (tick_internal-Leaves b 1 s v (omega arith)) λ t w e k. read_r8-Leaves b x r ram t w e k)
      λ t w e k.
        bind-Leaves b t (read_r8 reg_f) (writes value) f tt r r2 ram ram
          (read_r8-Leaves b reg_f r ram t w e k)
          λ t2 w2 e2 k2.
            then-Leaves b t2 (write_r8 reg_f g) (write_op_cb (reg8 x) z) tt r1 r2 ram ram
              (write_r8-Leaves b reg_f g r ram t2 small' w2 e2 k2)
              λ t3 w3 e3 k3.
                then-Leaves b t3 (tick_internal 1) (write_r8 x z) tt r1 r2 ram ram
                  (tick_at b 1 r1 ram t3 w3 e3 k3 (omega arith))
                  λ t4 w4 e4 k4. write_r8-Leaves b x z r1 ram t4 small w4 e4 k4

own_value :
    (x : Reg8) (z other : ℕ)
    → same_reg reg_f x ≡ false
    → (if same_reg x x then kept x z else other) ≡ z
unfolding same_reg kept
own_value reg_a z other h = refl
own_value reg_b z other h = refl
own_value reg_c z other h = refl
own_value reg_d z other h = refl
own_value reg_e z other h = refl
own_value reg_h z other h = refl
own_value reg_l z other h = refl
own_value reg_f z other h = cc

own_flags :
    (x : Reg8) (z g f : ℕ)
    → same_reg reg_f x ≡ false
    → g % 16 ≡ 0
    → (if same_reg x reg_f then kept x z else if same_reg reg_f reg_f then kept reg_f g else f) ≡ g
unfolding same_reg kept
own_flags reg_a z g f h k = omega arith
own_flags reg_b z g f h k = omega arith
own_flags reg_c z g f h k = omega arith
own_flags reg_d z g f h k = omega arith
own_flags reg_e z g f h k = omega arith
own_flags reg_h z g f h k = omega arith
own_flags reg_l z g f h k = omega arith
own_flags reg_f z g f h k = cc

-- The two writes, seen at each register.
pub shift_op-Shifts :
    (b : Build) (s : Machine) (result : ℕ → ℕ → ℕ) (out : ℕ → ℕ) (x : Reg8)
    → IsMachine s
    → same_reg reg_f x ≡ false
    → let v = Registers.read_r8 s.cpu.registers x in
      let f = Registers.read_r8 s.cpu.registers reg_f in
      result v f < 256 → Shifts s (shift_op result out x b s) x (result v f) (out v != 0)
shift_op-Shifts b s result out x v other small =
    let r = s.cpu.registers in
    let value = Registers.read_r8 r x in
    let f = Registers.read_r8 r reg_f in
    let z = result value f in
    let bits : Bool → ℕ = λ c. flag_bits (z == 0) false false c in
    let g = shift_flags (out value) z f in
    let now = flags_now r v.registers_ok in
    let e : g ≡ bits (out value != 0) = shift_flags-bits (out value) z f now.0 now.1 in
    let range = bits_range (z == 0) (out value != 0) in
    let small' : g < 256 = rw e range.0 in
    let run = shift_op-Leaves b s result out x v small small' in
    let r1 = Registers.write_r8 r reg_f g in
    let v1 = write_r8-IsRegisters r reg_f g v.registers_ok small' in
    let r2 = Registers.write_r8 r1 x z in
    let seen : (y : Reg8)
        → Registers.read_r8 run.machine.cpu.registers y ≡ (
            if same_reg x y
            then kept x z
            else if same_reg reg_f y
            then kept reg_f g
            else Registers.read_r8 r y) =
      λ y.
        ap (λ q. Registers.read_r8 q y) run.registers_are
        ∙ (read_r8-write_r8 r1 x y z v1 small).0
        ∙ ap (λ n. if same_reg x y then kept x z else n)
            (read_r8-write_r8 r reg_f y g v.registers_ok small').0 in
    record {
      machine = run.machine;
      returns = run.returns;
      typed = run.typed;
      value = seen x ∙ own_value x z (if same_reg reg_f x then kept reg_f g else value) other;
      flags = seen reg_f ∙ own_flags x z g f other (rw e range.1) ∙ e;
      others = λ y not_x not_f. seen y ∙ rw (not_x, not_f) refl;
      counters = rw run.registers_are (two_writes-SameCounters r reg_f x g z);
      ram = run.ram_is;
    }
  where
    bits_range :
        (z c : Bool) → (flag_bits z false false c < 256) × (flag_bits z false false c % 16 ≡ 0)
    bits_range z c = ground arith
