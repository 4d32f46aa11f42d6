-- ===== src/Ppu/Stat.antt =====
-- The coincidence bit of STAT, and when a step asks for the STAT interrupt.
use rust_gb_emulator.Base.{
  ℕ, ◌+◌, ◌*◌, ◌/◌, ◌%◌, ◌<◌, Bool, true, false, ◌&&◌, ◌||◌, ◌==◌, ◌!=◌, if◌then◌else◌, ◌≡◌, refl,
  ◌∙◌, arith,
}
use rust_gb_emulator.Base.Masks.{bit_and_bit, bit_and_ones, bit_or_bit}
use rust_gb_emulator.Ppu.State.{Ppu, set_mode, set_ly, mode_interrupt}
use rust_gb_emulator.Ppu.Fields.{set_mode_lem, set_ly_lem, mode_bits}
use rust_gb_emulator.Ppu.Kept.{set_ly_kept}

-- The enable bits of STAT: of the modes 0 to 2, and of LY at LYC.
abbrev pub mode_enabled : ℕ → ℕ → Bool
mode_enabled stat mode =
    if mode == 0
    then stat / 8 % 2 == 1
    else if mode == 1
    then stat / 16 % 2 == 1
    else if mode == 2
    then stat / 32 % 2 == 1
    else false

pub set_mode-stat_interrupt :
    (p : Ppu) (mode : ℕ)
    → p.stat < 256
    → mode < 4
    → (set_mode p mode).stat_interrupt
      ≡ (p.stat_interrupt || (p.stat % 4 != mode && mode_enabled p.stat mode))
unfolding set_mode mode_interrupt
set_mode-stat_interrupt p mode h k =
    let s = p.stat / 4 * 4 + mode in
    ground (
      arith,
      mode_bits p.stat mode,
      bit_and_bit 3 s,
      bit_and_bit 4 s,
      bit_and_bit 5 s,
      bit_and_ones 2 p.stat,
    )

pub set_ly-stat_interrupt :
    (p : Ppu) (value : ℕ)
    → p.stat < 256
    → (set_ly p value).stat_interrupt
      ≡ (p.stat_interrupt || (value == p.lyc && p.stat / 64 % 2 == 1))
unfolding set_ly
set_ly-stat_interrupt p value h =
    ground (arith, bit_or_bit 2 p.stat, bit_and_bit 6 (p.stat / 8 * 8 + 4 + p.stat % 4))

-- A step's result as to STAT: the enable bits stay; the coincidence bit stays with LY, and is that of
-- LY and LYC on a new line; and the interrupt is asked for.
pub record StatSteps (p q : Ppu) : Type 0 where
  pub enables : q.stat / 8 ≡ p.stat / 8
  pub coincidence :
      q.stat / 4 % 2 ≡ (if q.ly == p.ly then p.stat / 4 % 2 else if q.ly == p.lyc then 1 else 0)
  pub asked : q.stat_interrupt ≡ (
      p.stat_interrupt
      || (q.stat % 4 != p.stat % 4 && mode_enabled p.stat (q.stat % 4))
      || (q.ly != p.ly && p.stat / 64 % 2 == 1 && (q.ly == p.lyc || (p.ly == 153 && p.lyc == 154))))

-- What `set_ly` and `set_mode` do to the parts of STAT.
pub record LySet (p : Ppu) (value : ℕ) (q : Ppu) : Type 0 where
  pub byte : q.stat < 256
  pub enables : q.stat / 8 ≡ p.stat / 8
  pub coincidence : q.stat / 4 % 2 ≡ (if value == p.lyc then 1 else 0)
  pub mode : q.stat % 4 ≡ p.stat % 4
  pub line : q.ly ≡ value
  pub compare_line : q.lyc ≡ p.lyc
  pub asked : q.stat_interrupt ≡ (p.stat_interrupt || (value == p.lyc && p.stat / 64 % 2 == 1))

pub set_ly-LySet : (p : Ppu) (value : ℕ) → p.stat < 256 → LySet p value (set_ly p value)
set_ly-LySet p value h =
    let known = set_ly_lem p value h in
    let bit : ℕ = if value == p.lyc then 4 else 0 in
    record {
      byte = ground (arith, known);
      enables = ground (arith, known);
      coincidence = ground (arith, known);
      mode = ground (arith, known);
      line = known.1;
      compare_line = (set_ly_kept p value).lyc;
      asked = set_ly-stat_interrupt p value h;
    }

pub record ModeSet (p : Ppu) (mode : ℕ) (q : Ppu) : Type 0 where
  pub byte : q.stat < 256
  pub enables : q.stat / 8 ≡ p.stat / 8
  pub coincidence : q.stat / 4 % 2 ≡ p.stat / 4 % 2
  pub is_mode : q.stat % 4 ≡ mode
  pub line : q.ly ≡ p.ly
  pub asked :
      q.stat_interrupt ≡ (p.stat_interrupt || (p.stat % 4 != mode && mode_enabled p.stat mode))

pub set_mode-ModeSet :
    (p : Ppu) (mode : ℕ) → p.stat < 256 → mode < 4 → ModeSet p mode (set_mode p mode)
set_mode-ModeSet p mode h k =
    let known = set_mode_lem p mode h k in
    record {
      byte = omega (arith, known.0);
      enables = omega (arith, known.0);
      coincidence = omega (arith, known.0);
      is_mode = omega (arith, known.0);
      line = known.1;
      asked = set_mode-stat_interrupt p mode h k;
    }

pub mode_enabled-same : (s t mode : ℕ) → s / 8 ≡ t / 8 → mode_enabled s mode ≡ mode_enabled t mode
mode_enabled-same s t mode e =
    let e16 : s / 16 ≡ t / 16 = omega arith in
    let e32 : s / 32 ≡ t / 32 = omega arith in
    λ i.
      if mode == 0
      then e i % 2 == 1
      else if mode == 1
      then e16 i % 2 == 1
      else if mode == 2
      then e32 i % 2 == 1
      else false

-- A new line below 154, and a new mode after it.
pub new_line : (p q : Ppu) → LySet p (p.ly + 1) q → p.ly < 153 → StatSteps p q
new_line p q v h = record {
  enables = v.enables;
  coincidence = ground (arith, v.coincidence, v.line);
  asked = v.asked ∙ (ground (arith, v.line, v.mode));
}

pub new_line_mode :
    (p q z : Ppu) (mode : ℕ) → LySet p (p.ly + 1) q → ModeSet q mode z → p.ly < 153 → StatSteps p z
new_line_mode p q z mode v w h = record {
  enables = w.enables ∙ v.enables;
  coincidence = w.coincidence ∙ v.coincidence ∙ (ground (arith, v.line, w.line));
  asked =
      w.asked
      ∙ (λ i. v.asked i || (v.mode i != mode && mode_enabled-same q.stat p.stat mode v.enables i))
      ∙ flags p.stat_interrupt (p.stat % 4 != mode && mode_enabled p.stat mode) (p.ly + 1 == p.lyc)
          (p.stat / 64 % 2 == 1)
      ∙ (ground (arith, w.is_mode, w.line, v.line));
}
  where
    flags :
        (before mode_asks at_line enabled : Bool)
        → ((before || (at_line && enabled)) || mode_asks)
          ≡ (before || mode_asks || (true && enabled && (at_line || false)))
    flags before mode_asks at_line enabled = ground arith

-- The end of line 153: the line is 154 for a moment, then 0.
pub wraps :
    (p q q' z : Ppu)
    → LySet p 154 q
    → LySet q 0 q'
    → ModeSet q' 2 z
    → p.ly ≡ 153
    → p.stat % 4 ≡ 1
    → StatSteps p z
wraps p q q' z v v' w last blank =
    let mode : q'.stat % 4 ≡ p.stat % 4 = v'.mode ∙ v.mode in
    let e : q'.stat / 8 ≡ p.stat / 8 = v'.enables ∙ v.enables in
    let e64 : q.stat / 64 ≡ p.stat / 64 = omega (arith, v.enables) in
    let enabled = mode_enabled p.stat 2 in
    record {
      enables = w.enables ∙ e;
      coincidence =
          w.coincidence ∙ v'.coincidence ∙ (ground (arith, v.compare_line, v'.line, w.line, last));
      asked =
          w.asked
          ∙ (λ i. v'.asked i || (mode i != 2 && mode_enabled-same q'.stat p.stat 2 e i))
          ∙ (λ i.
              (v.asked i || (0 == v.compare_line i && e64 i % 2 == 1))
              || (p.stat % 4 != 2 && enabled))
          ∙ (ground (arith, w.is_mode, w.line, v'.line, last, blank));
    }

pub unmoved : (p : Ppu) → StatSteps p p
unmoved p = record { enables = refl; coincidence = ground arith; asked = ground arith }

-- The cycles of the mode play no part.
pub recount :
    (p q : Ppu) (cycles : ℕ) → StatSteps (record p { mode_cycles = cycles }) q → StatSteps p q
recount p q cycles v = record { enables = v.enables; coincidence = v.coincidence; asked = v.asked }
