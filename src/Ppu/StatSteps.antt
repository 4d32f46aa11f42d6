-- ===== src/Ppu/StatSteps.antt =====
-- What each mode's step does to STAT, and a whole step.
use rust_gb_emulator.Base.{
  ℕ, zero, suc, ◌+◌, ◌-◌, ◌/◌, ◌%◌, ◌<◌, ◌≤◌, Bool, true, false, ltb, leb, ◌==◌, if◌then◌else◌, u8,
  ◌≡◌, ◌≢◌, refl, sym, ◌∙◌, arith, Build, debug, release, Outcome, ok, Bool-cases, inl, inr,
}
use rust_gb_emulator.Ppu.State.{Ppu, set_mode, set_ly}
use rust_gb_emulator.Ppu.Window.{render_scanline}
use rust_gb_emulator.Ppu.Step.{
  Stepped, step, step_mode, step_oam_scan, step_drawing, step_hblank, end_line, step_vblank,
}
use rust_gb_emulator.Ppu.Fields.{set_mode_lem, render_scanline_lem}
use rust_gb_emulator.Ppu.Timing.{IsTimed}
use rust_gb_emulator.Ppu.Clock.{step-Arrives, step-step_mode, fed}
use rust_gb_emulator.Ppu.Stat.{
  StatSteps, set_mode-stat_interrupt, LySet, set_ly-LySet, set_mode-ModeSet, new_line,
  new_line_mode, wraps, unmoved, recount,
}

oam_scan-StatSteps : (p : Ppu) → p.stat < 256 → p.stat % 4 ≡ 2 → StatSteps p (step_oam_scan p).0
unfolding step_oam_scan
oam_scan-StatSteps p h m =
    let p' = record p { mode_cycles = p.mode_cycles - 80 } in
    ground (arith, set_mode_lem p' 3, set_mode-stat_interrupt p' 3)

same_flag : (p : Ppu) → (render_scanline p).stat_interrupt ≡ p.stat_interrupt
unfolding render_scanline
same_flag p = ground arith

drawing-StatSteps : (p : Ppu) → p.stat < 256 → p.stat % 4 ≡ 3 → StatSteps p (step_drawing p).0
unfolding step_drawing
drawing-StatSteps p h m =
    let p' = record p { mode_cycles = p.mode_cycles - 172 } in
    let s = set_mode p' 0 in
    ground
      (arith, set_mode_lem p' 0, set_mode-stat_interrupt p' 0, render_scanline_lem s, same_flag s)

same_fed : (cycles : ℕ) (p q : Ppu) → StatSteps (fed cycles p) q → StatSteps p q
same_fed cycles p q v = record { enables = v.enables; coincidence = v.coincidence; asked = v.asked }

either :
    (p : Ppu) (over last : Bool) (a b c : Stepped)
    → (over ≡ true → last ≡ true → StatSteps p a.0)
    → (over ≡ true → last ≡ false → StatSteps p b.0)
    → StatSteps p c.0
    → StatSteps p (if over then if last then a else b else c).0
either p true true a b c h k l = h refl refl
either p true false a b c h k l = k refl refl
either p false last a b c h k l = l

vblank-StatSteps :
    (p : Ppu)
    → p.stat < 256
    → p.stat % 4 ≡ 1
    → 144 ≤ p.ly
    → p.ly < 154
    → StatSteps p (step_vblank p).0
unfolding step_vblank
vblank-StatSteps p h m l g =
    let p' = record p { mode_cycles = p.mode_cycles - 456 } in
    let q = set_ly p' (u8 (p.ly + 1)) in
    let q' = set_ly q 0 in
    let z = set_mode q' 2 in
    let n : u8 (p.ly + 1) ≡ p.ly + 1 = omega arith in
    let v : LySet p' (p.ly + 1) q = rw n (set_ly-LySet p' (p.ly + 1) h) in
    let v' = set_ly-LySet q 0 v.byte in
    let w = set_mode-ModeSet q' 2 v'.byte (omega arith) in
    either p (leb 456 p.mode_cycles) (ltb 153 q.ly) (z, false) (q, false) (p, false)
      (λ over last.
        let at : p.ly ≡ 153 = ground (arith, v.line, last) in
        let next : p.ly + 1 ≡ 154 = omega (arith, at) in
        let v154 : LySet p' 154 q = rw (sym next) v in
        recount p z (p.mode_cycles - 456) (wraps p' q q' z v154 v' w at m))
      (λ over more.
        recount p q (p.mode_cycles - 456) (new_line p' q v (ground (arith, v.line, more))))
      (unmoved p)

end_line-StatSteps : (p q : Ppu) → LySet p (p.ly + 1) q → p.ly < 144 → StatSteps p (end_line q).0
unfolding end_line
end_line-StatSteps p q v l =
    let z = set_mode q 1 in
    let entered =
      new_line_mode p q z 1 v (set_mode-ModeSet q 1 v.byte (omega arith)) (omega arith) in
    let next =
      new_line_mode p q (set_mode q 2) 2 v (set_mode-ModeSet q 2 v.byte (omega arith))
        (omega arith) in
    by_tests (q.ly == 144) (ltb q.ly 144)
      (record z { vblank_interrupt = true; window_line_counter = 0 }, true) (set_mode q 2, false)
      (q, false)
      (record {
        enables = entered.enables;
        coincidence = entered.coincidence;
        asked = entered.asked;
      })
      next (new_line p q v (omega arith))
  where
    by_tests :
        (last visible : Bool) (a b c : Stepped)
        → StatSteps p a.0
        → StatSteps p b.0
        → StatSteps p c.0
        → StatSteps p (if last then a else if visible then b else c).0
    by_tests true visible a b c h k m = h
    by_tests false true a b c h k m = k
    by_tests false false a b c h k m = m

hblank-StatSteps :
    (b : Build) (p : Ppu) (r : Stepped)
    → p.stat < 256
    → p.ly < 144
    → step_hblank b p ≡ ok r
    → StatSteps p r.0
unfolding step_hblank
hblank-StatSteps b p r h l e =
    let p' = record p { mode_cycles = p.mode_cycles - 204 } in
    let q = set_ly p' (p.ly + 1) in
    let ended = end_line-StatSteps p' q (set_ly-LySet p' (p.ly + 1) h) l in
    let over : r ≡ (end_line q) → StatSteps p r.0 =
      λ same. rw same (recount p (end_line q).0 (p.mode_cycles - 204) ended) in
    let more : r ≡ (p, false) → StatSteps p r.0 = λ same. rw same (unmoved p) in
    elim (Bool-cases (leb 204 p.mode_cycles)) [
      | inl on ↦ over (next_line b r on e)
      | inr off ↦ more (ground (arith, e))
    ]
  where
    next_line :
        (c : Build) (s : Stepped)
        → leb 204 p.mode_cycles ≡ true
        → step_hblank c p ≡ ok s
        → s ≡ end_line (set_ly (record p { mode_cycles = p.mode_cycles - 204 }) (p.ly + 1))
    next_line debug s on f = ground (arith, f)
    next_line release s on f = ground (arith, f)

is_step : (a r : Stepped) → ◌≡◌ {A = Outcome Stepped} (ok a) (ok r) → r ≡ a
is_step a r e = cc

step_mode-StatSteps :
    (mode : ℕ) (b : Build) (p : Ppu) (r : Stepped)
    → p.stat < 256
    → p.stat % 4 ≡ mode
    → (mode ≢ 1 → p.ly < 144)
    → (mode ≡ 1 → (144 ≤ p.ly) × (p.ly < 154))
    → step_mode b mode p ≡ ok r
    → StatSteps p r.0
unfolding step_mode
step_mode-StatSteps zero b p r h m visible blank e =
    hblank-StatSteps b p r h (visible (omega arith)) e
step_mode-StatSteps (suc zero) b p r h m visible blank e =
    let (low, high) = blank refl in
    rw (is_step (step_vblank p) r e) (vblank-StatSteps p h m low high)
step_mode-StatSteps (suc (suc zero)) b p r h m visible blank e =
    rw (is_step (step_oam_scan p) r e) (oam_scan-StatSteps p h m)
step_mode-StatSteps (suc (suc (suc zero))) b p r h m visible blank e =
    rw (is_step (step_drawing p) r e) (drawing-StatSteps p h m)
step_mode-StatSteps (suc (suc (suc (suc k)))) b p r h m visible blank e = absurd (omega arith)

-- With the LCD on, what a step of at most 80 cycles does to STAT in both builds: the enable bits stay;
-- bit 2 stays while LY does, and on a new line says whether LY is LYC; and the STAT interrupt is
-- asked for exactly if a mode other than the one before begins that is enabled, or a new line begins
-- with LY at LYC and that is enabled; at the end of line 153, LYC = 154 asks too.
pub step-StatSteps :
    (b : Build) (cycles : ℕ) (p : Ppu)
    → IsTimed p
    → p.lcdc / 128 % 2 ≡ 1
    → cycles ≤ 80
    → (r : Stepped) × (step b cycles p ≡ ok r) × StatSteps p r.0
step-StatSteps b cycles p v on h =
    let (r, returns, arrives) = step-Arrives b cycles p v on h in
    let known = sym (step-step_mode b cycles p v on h) ∙ returns in
    (
      r,
      returns,
      same_fed cycles p r.0 (
          step_mode-StatSteps (p.stat % 4) b (fed cycles p) r v.stat_u8 refl v.visible_line
            v.blank_line known),
    )
