-- ===== src/Memory/Dma.antt =====
-- What an OAM DMA copies.
use rust_gb_emulator.Base.{
  ℕ, zero, suc, ◌+◌, ◌-◌, ◌*◌, ◌%◌, ◌<◌, ◌≤◌, Bool, true, false, ltb, ◌==◌, within, if◌then◌else◌,
  ◌<<<◌, set_at, Bytes, ◌≡◌, refl, arith, ◌∙◌, sym, Bool-cases, ap, inl, inr, leb, ◌&&◌,
}
use rust_gb_emulator.Ppu.State.{Ppu}
use rust_gb_emulator.Ppu.State
use rust_gb_emulator.Memory.{Memory, read_8, write_8, bank_offset, set_oam, dma_copy, start_dma}

abbrev with_oam : Memory → Bytes → Memory
with_oam m oam = let p = m.ppu in record m { ppu = record p { oam = oam } }

-- A read outside OAM does not depend on it.
read_8-outside :
    (m : Memory) (oam : Bytes) (address : ℕ)
    → within 0xFE00 0xFE9F address ≡ false
    → read_8 (with_oam m oam) address ≡ read_8 m address
unfolding read_8 State.read bank_offset
read_8-outside m oam address e = rw e

-- A read inside gives its byte.
read_8-inside :
    (m : Memory) (address : ℕ)
    → within 0xFE00 0xFE9F address ≡ true
    → read_8 m address ≡ m.ppu.oam (address - 0xFE00)
unfolding read_8
read_8-inside m address e = rw (not_joypad, not_timer, not_serial, not_ppu, not_vram, e, in_oam)
  where
    in_oam : ltb (address - 0xFE00) 0xA0 ≡ true
    in_oam = ground arith

    not_joypad : (address == 0xFF00) ≡ false
    not_joypad = ground arith

    not_timer : within 0xFF04 0xFF07 address ≡ false
    not_timer = ground arith

    not_serial : within 0xFF01 0xFF02 address ≡ false
    not_serial = ground arith

    not_ppu : within 0xFF40 0xFF4B address ≡ false
    not_ppu = ground arith

    not_vram : within 0x8000 0x9FFF address ≡ false
    not_vram = ground arith

at_index :
    (source j : ℕ)
    → source % 256 ≡ 0
    → j < 160
    → within 0xFE00 0xFE9F (source + j) ≡ true
    → source + j - 0xFE00 ≡ j
at_index source j page below inside = ground arith

read_8-oam_page :
    (m : Memory) (source j : ℕ)
    → source % 256 ≡ 0
    → j < 160
    → within 0xFE00 0xFE9F (source + j) ≡ true
    → read_8 m (source + j) ≡ m.ppu.oam j
read_8-oam_page m source j page below inside =
    read_8-inside m (source + j) inside ∙ ap m.ppu.oam (at_index source j page below inside)

set_oam-inside :
    (m : Memory) (i v : ℕ) → i < 160 → set_oam m i v ≡ with_oam m (set_at m.ppu.oam i v)
unfolding set_oam
set_oam-inside m i v h = let here : ltb i 160 ≡ true = ground arith in rw here refl

-- Writing OAM at `i` changes no read of a DMA's source at another index.
read_8-set_oam :
    (m : Memory) (source i j v : ℕ)
    → source % 256 ≡ 0
    → i < 160
    → j < 160
    → (j == i) ≡ false
    → read_8 (set_oam m i v) (source + j) ≡ read_8 m (source + j)
read_8-set_oam m source i j v page room below other =
    elim (Bool-cases (within 0xFE00 0xFE9F (source + j))) [
      | inl inside ↦
          let kept : (set_oam m i v).ppu.oam j ≡ m.ppu.oam j =
            ap (λ (x : Memory). x.ppu.oam j) (set_oam-inside m i v room) ∙ rw other refl in
          read_8-oam_page (set_oam m i v) source j page below inside
          ∙ kept
          ∙ sym (read_8-oam_page m source j page below inside)
      | inr outside ↦
          ap (λ (x : Memory). read_8 x (source + j)) (set_oam-inside m i v room)
          ∙ read_8-outside m (set_at m.ppu.oam i v) (source + j) outside
    ]

-- One round at `i` and the rounds from `i + 1` on, seen at index `j`.
rounds :
    (i left j x r r' o o' v : ℕ)
    → x ≡ (if leb (i + 1) j && ltb j (i + 1 + left) then r' else o')
    → o' ≡ (if j == i then v else o)
    → ((j == i) ≡ false → r' ≡ r)
    → (j ≡ i → v ≡ r)
    → x ≡ (if leb i j && ltb j (i + suc left) then r else o)
rounds i left j x r r' o o' v e f g h = ground arith

dma_copy-oam :
    (left source i j : ℕ) (m : Memory)
    → source % 256 ≡ 0
    → i + left ≤ 160
    → j < 160
    → (dma_copy source left i m).ppu.oam j
      ≡ (if leb i j && ltb j (i + left) then read_8 m (source + j) else m.ppu.oam j)
unfolding dma_copy
dma_copy-oam zero source i j m page fits below = ground arith
dma_copy-oam (suc left) source i j m page fits below =
    let v = read_8 m (source + i) in
    let m1 = set_oam m i v in
    rounds i left j ((dma_copy source left (i + 1) m1).ppu.oam j) (read_8 m (source + j))
      (read_8 m1 (source + j)) (m.ppu.oam j) (m1.ppu.oam j) v
      (dma_copy-oam left source (i + 1) j m1 page (omega arith) below)
      (ap (λ (x : Memory). x.ppu.oam j) (set_oam-inside m i v (omega arith)))
      (λ other. read_8-set_oam m source i j v page (omega arith) below other)
      (λ e. ap (λ (k : ℕ). read_8 m (source + k)) (sym e))

-- A DMA changes OAM alone.
pub dma_copy-rest :
    (left source i : ℕ) (m : Memory)
    → dma_copy source left i m ≡ with_oam m (dma_copy source left i m).ppu.oam
unfolding dma_copy set_oam
dma_copy-rest zero source i m = refl
dma_copy-rest (suc left) source i m =
    dma_copy-rest left source (i + 1) (set_oam m i (read_8 m (source + i)))

-- A DMA reads the bus as it would be read before the write: its flags are no part of it.
read_8-start :
    (m : Memory) (source address : ℕ)
    → read_8
        (record m { dma_active = true; dma_cycles_remaining = 160; dma_source = source })
        address
      ≡ read_8 m address
unfolding read_8 bank_offset
read_8-start m source address = refl

start_dma-oam :
    (m : Memory) (value j : ℕ)
    → j < 160
    → (start_dma m value).ppu.oam j ≡ read_8 m (value * 256 + j)
unfolding start_dma
start_dma-oam m value j below =
    let source = value <<< 8 in
    let m1 = record m { dma_active = true; dma_cycles_remaining = 160; dma_source = source } in
    let here : (leb 0 j && ltb j 160) ≡ true = ground arith in
    dma_copy-oam 160 source 0 j m1 (omega arith) (omega arith) below
    ∙ ap (λ (x : Bool). if x then read_8 m1 (source + j) else m.ppu.oam j) here
    ∙ read_8-start m source (source + j)

write_8-start :
    (m : Memory) (value : ℕ)
    → m.suppress_io_side_effects ≡ false
    → write_8 m 0xFF46 value ≡ start_dma m value
unfolding write_8
write_8-start m value plain = simp plain

-- While side effects are not suppressed, a write of a byte to 0xFF46 puts into OAM the 160 bytes that a read of the page of that number
-- gave before the write, OAM's own page included; it starts the time of the DMA, and changes no
-- other device, nor the ROM, nor VRAM.
pub write_8-dma_copy :
    (m : Memory) (value j : ℕ)
    → m.suppress_io_side_effects ≡ false
    → j < 160
    → ((write_8 m 0xFF46 value).ppu.oam j ≡ read_8 m (value * 256 + j))
      × ((write_8 m 0xFF46 value).dma_active ≡ true)
      × ((write_8 m 0xFF46 value).dma_cycles_remaining ≡ 160)
      × ((write_8 m 0xFF46 value).timer ≡ m.timer)
      × ((write_8 m 0xFF46 value).serial ≡ m.serial)
      × ((write_8 m 0xFF46 value).joypad ≡ m.joypad)
      × ((write_8 m 0xFF46 value).rom ≡ m.rom)
      × ((write_8 m 0xFF46 value).ppu.vram ≡ m.ppu.vram)
unfolding start_dma
write_8-dma_copy m value j plain below =
    let source = value <<< 8 in
    let m1 = record m { dma_active = true; dma_cycles_remaining = 160; dma_source = source } in
    let rest = dma_copy-rest 160 source 0 m1 in
    let start = write_8-start m value plain in
    (
      ap (λ (x : Memory). x.ppu.oam j) start ∙ start_dma-oam m value j below,
      ap (λ (x : Memory). x.dma_active) start ∙ ap (λ (x : Memory). x.dma_active) rest,
      ap (λ (x : Memory). x.dma_cycles_remaining) start
          ∙ ap (λ (x : Memory). x.dma_cycles_remaining) rest,
      ap (λ (x : Memory). x.timer) start ∙ ap (λ (x : Memory). x.timer) rest,
      ap (λ (x : Memory). x.serial) start ∙ ap (λ (x : Memory). x.serial) rest,
      ap (λ (x : Memory). x.joypad) start ∙ ap (λ (x : Memory). x.joypad) rest,
      ap (λ (x : Memory). x.rom) start ∙ ap (λ (x : Memory). x.rom) rest,
      ap (λ (x : Memory). x.ppu.vram) start ∙ ap (λ (x : Memory). x.ppu.vram) rest,
    )
