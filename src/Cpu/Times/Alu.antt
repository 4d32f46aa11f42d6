-- ===== src/Cpu/Times/Alu.antt =====
-- The 8-bit arithmetic: what it ticks.
use rust_gb_emulator.Base.{ℕ, ◌+◌, ◌<◌, bit_and, bit_or, bit_xor, true, u8, ◌>>>◌, ◌≡◌, refl, arith}
use rust_gb_emulator.Base.Widths.{bit_and-lt, bit_or-lt, bit_xor-lt}
use rust_gb_emulator.Cpu.Registers.{
  Operand, reg8, reg16, mem_hl, mem_bc, mem_de, reg_a, reg_f, reg_hl,
}
use rust_gb_emulator.Cpu.Machine.{Exec, ◌>>=◌}
use rust_gb_emulator.Cpu.Takes.{
  Takes, Any, IsByte, bind_Takes, then_Takes, weaken_Takes, return-Takes,
}
use rust_gb_emulator.Cpu.Accesses.{
  read_r8-Takes, read_r16-Takes, write_r8-Takes, write_f-Takes, tick_1, read_byte_tick-Takes,
  is_operand, read_operand-Takes, immediate_byte-Takes,
}
use rust_gb_emulator.Cpu.Loads.{carry_flag, wrapping_sub_8}
use rust_gb_emulator.Cpu.Alu.{
  alu_operand, alu_immediate, add_a, adc_a, sub_a, sbc_a, cp_a, and_a, xor_a, or_a, add_a_r,
  adc_a_r, sub_a_r, sbc_a_r, and_a_r, xor_a_r, or_a_r, cp_a_r, add_a_n, adc_a_n, sub_a_n, sbc_a_n,
  and_a_n, xor_a_n, or_a_n, cp_a_n,
}

abbrev pub alu_ticks : Operand → ℕ
alu_ticks mem_hl = 2
alu_ticks _ = 1

alu_operand-Takes :
    (op : Operand)
    → is_operand op ≡ true
    → Takes IsByte (alu_ticks op) (alu_ticks op) (alu_operand op)
unfolding alu_operand is_operand
alu_operand-Takes mem_hl h = bind_Takes (read_r16-Takes reg_hl) λ address k.
    bind_Takes (read_byte_tick-Takes address) λ v l. then_Takes tick_1 (return-Takes v l)
alu_operand-Takes (reg8 x) h = then_Takes tick_1 (read_operand-Takes (reg8 x) refl)
alu_operand-Takes mem_bc h = then_Takes tick_1 (read_operand-Takes mem_bc refl)
alu_operand-Takes mem_de h = then_Takes tick_1 (read_operand-Takes mem_de refl)
alu_operand-Takes (reg16 x) h = cc

-- An operation on a byte that ticks nothing, behind the fetch of its operand.
abbrev OnByte : (ℕ → Exec (Unit {0})) → Type 0
OnByte f = (value : ℕ) → value < 256 → Takes Any 0 0 (f value)

on_operand :
    (op : Operand) (f : ℕ → Exec (Unit {0}))
    → is_operand op ≡ true
    → OnByte f
    → Takes Any (alu_ticks op) (alu_ticks op) (alu_operand op >>= f)
on_operand op f h k =
    weaken_Takes (alu_ticks op) (alu_ticks op) (λ a x. x) (omega arith) (omega arith)
      (bind_Takes (alu_operand-Takes op h) k)

on_immediate : (f : ℕ → Exec (Unit {0})) → OnByte f → Takes Any 2 2 (alu_immediate >>= f)
unfolding alu_immediate
on_immediate f k =
    bind_Takes {V = IsByte} {lo = 2} {hi = 2} {lo' = 0} {hi' = 0}
      (bind_Takes immediate_byte-Takes λ value h. then_Takes tick_1 (return-Takes value h)) k

add_a-Takes : OnByte add_a
unfolding add_a
add_a-Takes value h = bind_Takes (read_r8-Takes reg_a) λ a k.
    then_Takes (write_r8-Takes reg_a (u8 (value + a)) (omega arith))
      (bind_Takes (read_r8-Takes reg_f) λ flags l. write_f-Takes _)

adc_a-Takes : OnByte adc_a
unfolding adc_a
adc_a-Takes value h = bind_Takes (read_r8-Takes reg_a) λ a k.
    bind_Takes (read_r8-Takes reg_f) λ f l.
      then_Takes
        (write_r8-Takes reg_a (u8 (value + a + (bit_and f carry_flag >>> 4))) (omega arith))
        (bind_Takes (read_r8-Takes reg_f) λ flags m. write_f-Takes _)

sub_a-Takes : OnByte sub_a
unfolding sub_a
sub_a-Takes value h = bind_Takes (read_r8-Takes reg_a) λ a k.
    then_Takes (write_r8-Takes reg_a (wrapping_sub_8 a value) (omega arith)) (write_f-Takes _)

sbc_a-Takes : OnByte sbc_a
unfolding sbc_a
sbc_a-Takes value h = bind_Takes (read_r8-Takes reg_a) λ a k.
    bind_Takes (read_r8-Takes reg_f)
      λ f l. then_Takes (write_r8-Takes reg_a _ (omega arith)) (write_f-Takes _)

cp_a-Takes : OnByte cp_a
unfolding cp_a
cp_a-Takes value h = bind_Takes (read_r8-Takes reg_a) λ a k. write_f-Takes _

and_a-Takes : OnByte and_a
unfolding and_a
and_a-Takes value h = bind_Takes (read_r8-Takes reg_a) λ a k.
    then_Takes (write_r8-Takes reg_a (bit_and a value) (bit_and-lt 8 a value k))
      (bind_Takes (read_r8-Takes reg_f) λ flags l. write_f-Takes _)

xor_a-Takes : OnByte xor_a
unfolding xor_a
xor_a-Takes value h = bind_Takes (read_r8-Takes reg_a) λ a k.
    then_Takes (write_r8-Takes reg_a (bit_xor a value) (bit_xor-lt 8 a value k h))
      (bind_Takes (read_r8-Takes reg_f) λ flags l. write_f-Takes _)

or_a-Takes : OnByte or_a
unfolding or_a
or_a-Takes value h = bind_Takes (read_r8-Takes reg_a) λ a k.
    then_Takes (write_r8-Takes reg_a (bit_or a value) (bit_or-lt 8 a value k h))
      (bind_Takes (read_r8-Takes reg_f) λ flags l. write_f-Takes _)

pub add_a_r-Takes :
    (op : Operand) → is_operand op ≡ true → Takes Any (alu_ticks op) (alu_ticks op) (add_a_r op)
unfolding add_a_r
add_a_r-Takes op h = on_operand op add_a h add_a-Takes

pub add_a_n-Takes : Takes Any 2 2 add_a_n
unfolding add_a_n
add_a_n-Takes = on_immediate add_a add_a-Takes

pub adc_a_r-Takes :
    (op : Operand) → is_operand op ≡ true → Takes Any (alu_ticks op) (alu_ticks op) (adc_a_r op)
unfolding adc_a_r
adc_a_r-Takes op h = on_operand op adc_a h adc_a-Takes

pub adc_a_n-Takes : Takes Any 2 2 adc_a_n
unfolding adc_a_n
adc_a_n-Takes = on_immediate adc_a adc_a-Takes

pub sub_a_r-Takes :
    (op : Operand) → is_operand op ≡ true → Takes Any (alu_ticks op) (alu_ticks op) (sub_a_r op)
unfolding sub_a_r
sub_a_r-Takes op h = on_operand op sub_a h sub_a-Takes

pub sub_a_n-Takes : Takes Any 2 2 sub_a_n
unfolding sub_a_n
sub_a_n-Takes = on_immediate sub_a sub_a-Takes

pub sbc_a_r-Takes :
    (op : Operand) → is_operand op ≡ true → Takes Any (alu_ticks op) (alu_ticks op) (sbc_a_r op)
unfolding sbc_a_r
sbc_a_r-Takes op h = on_operand op sbc_a h sbc_a-Takes

pub sbc_a_n-Takes : Takes Any 2 2 sbc_a_n
unfolding sbc_a_n
sbc_a_n-Takes = on_immediate sbc_a sbc_a-Takes

pub and_a_r-Takes :
    (op : Operand) → is_operand op ≡ true → Takes Any (alu_ticks op) (alu_ticks op) (and_a_r op)
unfolding and_a_r
and_a_r-Takes op h = on_operand op and_a h and_a-Takes

pub and_a_n-Takes : Takes Any 2 2 and_a_n
unfolding and_a_n
and_a_n-Takes = on_immediate and_a and_a-Takes

pub xor_a_r-Takes :
    (op : Operand) → is_operand op ≡ true → Takes Any (alu_ticks op) (alu_ticks op) (xor_a_r op)
unfolding xor_a_r
xor_a_r-Takes op h = on_operand op xor_a h xor_a-Takes

pub xor_a_n-Takes : Takes Any 2 2 xor_a_n
unfolding xor_a_n
xor_a_n-Takes = on_immediate xor_a xor_a-Takes

pub or_a_r-Takes :
    (op : Operand) → is_operand op ≡ true → Takes Any (alu_ticks op) (alu_ticks op) (or_a_r op)
unfolding or_a_r
or_a_r-Takes op h = on_operand op or_a h or_a-Takes

pub or_a_n-Takes : Takes Any 2 2 or_a_n
unfolding or_a_n
or_a_n-Takes = on_immediate or_a or_a-Takes

pub cp_a_r-Takes :
    (op : Operand) → is_operand op ≡ true → Takes Any (alu_ticks op) (alu_ticks op) (cp_a_r op)
unfolding cp_a_r
cp_a_r-Takes op h = on_operand op cp_a h cp_a-Takes

pub cp_a_n-Takes : Takes Any 2 2 cp_a_n
unfolding cp_a_n
cp_a_n-Takes = on_immediate cp_a cp_a-Takes
