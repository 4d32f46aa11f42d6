-- ===== src/Ppu/Draws.antt =====
-- Runs of steps, and the picture of a frame.
use rust_gb_emulator.Base.{
  ℕ, ◌+◌, ◌*◌, ◌/◌, ◌%◌, ◌<◌, ◌≤◌, false, leb, ◌==◌, if◌then◌else◌, ◌≡◌, ◌≢◌, refl, ap, sym, ◌∙◌,
  arith, Build, ok, List, [], ◌∷◌, Bool-cases, inl, inr,
}
use rust_gb_emulator.Ppu.State.{Ppu}
use rust_gb_emulator.Ppu.Window.{render_scanline}
use rust_gb_emulator.Ppu.Step.{Stepped, step, step_mode}
use rust_gb_emulator.Ppu.Timing.{IsTimed, position, Arrives}
use rust_gb_emulator.Ppu.Clock.{step-Arrives, step-step_mode, passes_vblank, fed}
use rust_gb_emulator.Ppu.Frames.{run, total, AllShort, sum_place, position-lt}
use rust_gb_emulator.Ppu.Kept.{SameRegisters, IsVideo, step_kept}
use rust_gb_emulator.Ppu.Pixels.{colour_at}
use rust_gb_emulator.Ppu.Effects.{Unpainted, step_mode-Unpainted, drawing_ends, step_mode-drawing}
use rust_gb_emulator.Ppu.Picture.{picture, window_lines, Shows, undrawn}
use rust_gb_emulator.Ppu.Drawn.{ends, drawn}

-- A step of a unit, as its mode's, with what is known of its result.
record Known (b : Build) (cycles : ℕ) (q : Ppu) (r : Stepped) : Type 0 where
  returns : step_mode b (q.stat % 4) (fed cycles q) ≡ ok r
  arrives : Arrives q (position q + cycles) (passes_vblank (position q) (position q + cycles)) r
  kept : SameRegisters q r.0

not_drawing :
    (b : Build) (cycles : ℕ) (p q : Ppu) (r : Stepped)
    → Shows p q
    → q.stat % 4 ≢ 3
    → cycles ≤ 80
    → Known b cycles q r
    → Shows p r.0
not_drawing b cycles p q r v n h known =
    let same = step_mode-Unpainted b (q.stat % 4) (fed cycles q) r n known.returns in
    undrawn b cycles p q r v h (record { framebuffer = same.framebuffer; counter = same.counter })
      known.kept known.arrives
      (elim (Bool-cases (q.stat % 4 == 1)) [
        | inl blank ↦ inl (ground arith)
        | inr visible ↦ inr (ground arith)
      ])
      (ground arith)

-- The two ends of a step in the drawing mode.
drawing-result :
    (b : Build) (cycles : ℕ) (q : Ppu) (r : Stepped)
    → q.stat % 4 ≡ 3
    → step_mode b (q.stat % 4) (fed cycles q) ≡ ok r
    → r ≡ (
      if leb 172 (q.mode_cycles + cycles)
          then render_scanline (drawing_ends (fed cycles q))
          else fed cycles q,
      false,
    )
drawing-result b cycles q r m e =
    let at : step_mode b 3 (fed cycles q) ≡ ok r =
      ap (λ n. step_mode b n (fed cycles q)) (sym m) ∙ e in
    cc (at, step_mode-drawing b (fed cycles q))

drawing :
    (b : Build) (cycles : ℕ) (p q : Ppu) (r : Stepped)
    → IsVideo p
    → Shows p q
    → q.stat % 4 ≡ 3
    → cycles ≤ 80
    → Known b cycles q r
    → Shows p r.0
drawing b cycles p q r video v m h known = elim (Bool-cases (leb 172 (q.mode_cycles + cycles))) [
  | inl over ↦
      let s = drawing_ends (fed cycles q) in
      let e : r ≡ (render_scanline s, false) =
        drawing-result b cycles q r m known.returns
        ∙ ap (λ test. (if test then render_scanline s else fed cycles q, false)) over in
      rw e (
        drawn cycles p q s video v (ends cycles q v.timed.stat_u8) m (ground arith) h
          (rw (sym e) known.arrives) (rw (sym (ap (λ (t : Stepped). t.0) e)) known.kept))
  | inr more ↦
      let s = drawing_ends (fed cycles q) in
      let e : r ≡ (fed cycles q, false) =
        drawing-result b cycles q r m known.returns
        ∙ ap (λ test. (if test then render_scanline s else fed cycles q, false)) more in
      let unpainted : Unpainted q r = rw e (record { framebuffer = refl; counter = refl }) in
      undrawn b cycles p q r v h unpainted known.kept known.arrives (inr (ground arith))
        (ground arith)
]

step-Shows :
    (b : Build) (cycles : ℕ) (p q : Ppu)
    → IsVideo p
    → p.lcdc / 128 % 2 ≡ 1
    → Shows p q
    → cycles ≤ 80
    → (r : Stepped) × (step b cycles q ≡ ok r)
      × Shows p r.0
      × (position r.0 ≡ (position q + cycles) % 70224)
step-Shows b cycles p q video on v h =
    let lit : q.lcdc / 128 % 2 ≡ 1 = ground arith in
    let (r, returns, arrives) = step-Arrives b cycles q v.timed lit h in
    let known : Known b cycles q r = record {
      returns = sym (step-step_mode b cycles q v.timed lit h) ∙ returns;
      arrives = arrives;
      kept = step_kept b cycles q r returns;
    } in
    let shows : Shows p r.0 = elim (Bool-cases (q.stat % 4 == 3)) [
      | inl draws ↦ drawing b cycles p q r video v (ground arith) h known
      | inr other ↦ not_drawing b cycles p q r v (ground arith) h known
    ] in
    (r, returns, shows, arrives.place)

run-Shows :
    (b : Build) (steps : List ℕ) (p q : Ppu)
    → IsVideo p
    → p.lcdc / 128 % 2 ≡ 1
    → Shows p q
    → AllShort steps
    → (z : Ppu) × (n : ℕ) × (run b steps q ≡ ok (z, n))
      × Shows p z
      × (position z ≡ (position q + total steps) % 70224)
unfolding run
run-Shows b [] p q video on v h = (q, 0, refl, v, ground (arith, position-lt q v.timed))
run-Shows b (cycles ∷ rest) p q video on v (short, h) =
    let (r, returns, shows, place) = step-Shows b cycles p q video on v short in
    let (z, n, runs, after, place') = run-Shows b rest p r.0 video on shows h in
    (
      z,
      if r.1 then n + 1 else n,
      rw (returns, runs),
      after,
      sum_place (position q) cycles (total rest) (position r.0) (position z) place place',
    )

starts-Shows :
    (p : Ppu) → IsTimed p → p.ly ≡ 0 → p.stat % 4 ≡ 2 → p.window_line_counter ≡ 0 → Shows p p
unfolding window_lines
starts-Shows p v first scans fresh = record {
  timed = v;
  registers = ground arith;
  lcdc = refl;
  counter = let none : (position p + 204) / 456 ≡ 0 = ground arith in rw none (ground arith);
  lines = λ y x y_small x_small passed. absurd (ground arith);
}

-- From the start of a frame, with the LCD on and bytes in the registers, VRAM and OAM, and with no
-- write in between, any steps of at most 80 cycles return in both builds; and where they bring the
-- frame past cycle 252 of a line, each of the line's 160 columns shows the colour of the reference
-- picture, with the window's row that is the count of the lines above that show the window.
pub run-picture :
    (b : Build) (steps : List ℕ) (p : Ppu) (y x : ℕ)
    → IsTimed p
    → IsVideo p
    → p.lcdc / 128 % 2 ≡ 1
    → p.ly ≡ 0
    → p.stat % 4 ≡ 2
    → p.window_line_counter ≡ 0
    → AllShort steps
    → y < 144
    → x < 160
    → y * 456 + 252 ≤ (position p + total steps) % 70224
    → (q : Ppu) × (n : ℕ) × (run b steps p ≡ ok (q, n))
      × (colour_at q.framebuffer y x ≡ picture p y x)
run-picture b steps p y x timed video on first scans fresh h y_small x_small passed =
    let (q, n, runs, shows, place) =
      run-Shows b steps p p video on (starts-Shows p timed first scans fresh) h in
    (q, n, runs, shows.lines y x y_small x_small (rw place passed))
