-- ===== src/Ppu/Sprites.antt =====
-- The sprites of a line: which are drawn.
use rust_gb_emulator.Base.{
  ℕ, zero, suc, ◌+◌, ◌*◌, ◌<◌, ◌&&◌, ltb, leb, if◌then◌else◌, ◌≡◌, refl, ap, sym, ◌∙◌, arith,
  Bool-cases, inl, inr, List, [], ◌∷◌, ◌++◌, length,
}
use rust_gb_emulator.Ppu.State.{Ppu}
use rust_gb_emulator.Ppu.Window.{obj_size, on_line, collect_sprites}
use rust_gb_emulator.Ppu.Reference.{sprite_size, crosses, crossed, first_of}
use rust_gb_emulator.Ppu.Tiles.{bit_tests}

pub obj_size_lem : (p : Ppu) → obj_size p ≡ sprite_size p
unfolding obj_size
obj_size_lem p = ap (λ test. if test then 16 else 8) (bit_tests p.lcdc 2)

on_line_lem : (p : Ppu) (i : ℕ) → on_line p p.ly i ≡ crosses p i
unfolding on_line
on_line_lem p i =
    ap (λ size. leb (p.oam (i * 4)) (p.ly + 16) && ltb (p.ly + 16) (p.oam (i * 4) + size))
      (obj_size_lem p)

appended : (found : List ℕ) (i : ℕ) (rest : List ℕ) → (found ++ i ∷ []) ++ rest ≡ found ++ i ∷ rest
appended [] i rest = refl
appended (x ∷ found) i rest = ap (λ l. x ∷ l) (appended found i rest)

nothing_more : (found : List ℕ) → found ++ [] ≡ found
nothing_more [] = refl
nothing_more (x ∷ found) = ap (λ l. x ∷ l) (nothing_more found)

length-append : (found : List ℕ) (i : ℕ) → length (found ++ i ∷ []) ≡ length found + 1
length-append [] i = refl
length-append (x ∷ found) i = ground (arith, length-append found i)

full : (n : ℕ) → n ≡ 10 → (a b : List ℕ) → (if leb 10 n then a else b) ≡ a
full n h a b = ground arith

not_full : (n : ℕ) → n < 10 → (a b : List ℕ) → (if leb 10 n then a else b) ≡ b
not_full n h a b = ground arith

-- The loop that collects, from a list of fewer than ten on, adds the first ones until there are ten.
collect_sprites_lem :
    (p : Ppu) (left i room : ℕ) (found : List ℕ)
    → length found + suc room ≡ 10
    → collect_sprites p p.ly left i found ≡ found ++ first_of (suc room) (crossed p left i)
unfolding collect_sprites crossed
collect_sprites_lem p zero i room found h = sym (nothing_more found)
collect_sprites_lem p (suc left) i zero found h = elim (Bool-cases (crosses p i)) [
  | inl on ↦
      rw (on_line_lem p i, on)
        (full (length (found ++ i ∷ [])) (omega (arith, length-append found i)) (found ++ i ∷ [])
          (collect_sprites p p.ly left (i + 1) (found ++ i ∷ [])))
  | inr off ↦ rw (on_line_lem p i, off) (collect_sprites_lem p left (i + 1) zero found h)
]
collect_sprites_lem p (suc left) i (suc room) found h = elim (Bool-cases (crosses p i)) [
  | inl on ↦
      rw (on_line_lem p i, on)
        (not_full (length (found ++ i ∷ [])) (omega (arith, length-append found i))
            (found ++ i ∷ []) (collect_sprites p p.ly left (i + 1) (found ++ i ∷ []))
          ∙ collect_sprites_lem p left (i + 1) room (found ++ i ∷ [])
              (omega (arith, length-append found i))
          ∙ appended found i (first_of (suc room) (crossed p left (i + 1))))
  | inr off ↦ rw (on_line_lem p i, off) (collect_sprites_lem p left (i + 1) (suc room) found h)
]

pub collected : (p : Ppu) → collect_sprites p p.ly 40 0 [] ≡ first_of 10 (crossed p 40 0)
collected p = collect_sprites_lem p 40 0 9 [] refl
