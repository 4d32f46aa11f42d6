-- ===== src/Emulator/Cutting.antt =====
-- The inner loop with the forwarding of the serial output, against the loop without it.
use rust_gb_emulator.Base.{
  ℕ, zero, suc, ◌+◌, true, ltb, ◌≡◌, refl, ltb→lt, Option, none, some, release, Outcome, ok, panic,
  Bool-cases, inl, inr, ◌⊎◌,
}
use rust_gb_emulator.Cpu.Machine.{Machine}
use rust_gb_emulator.Cpu.Takes.{IsMachine}
use rust_gb_emulator.Cpu.Interrupts.{handle_interrupts}
use rust_gb_emulator.Emulator.{Forwarded, forward, round, run_cycles, run_forwarding}
use rust_gb_emulator.Emulator.Frames.{round-IsMachine}

-- The loop comes to a round whose slice of the output is cut inside a character.
pub data Cuts : ℕ → Machine → Forwarded → Type 0 where
  cut :
      {cycles : ℕ} {s : Machine} {f : Forwarded} (total : ℕ) (s' : Machine)
      → round release cycles s ≡ ok (total, s')
      → forward s'.mem.serial f ≡ panic
      → Cuts cycles s f
  later :
      {cycles : ℕ} {s : Machine} {f : Forwarded} (total : ℕ) (s' : Machine) (f' : Forwarded)
      → round release cycles s ≡ ok (total, s')
      → forward s'.mem.serial f ≡ ok f'
      → Cuts total s' f'
      → Cuts cycles s f

abbrev pub machine_of : Option (Machine × Forwarded) → Option Machine
machine_of none = none
machine_of (some r) = some r.0

-- What the two loops give.
abbrev pub Agrees : ℕ → ℕ → Machine → Forwarded → Type 0
Agrees fuel cycles s f =
    ((o : Option (Machine × Forwarded)) × (run_forwarding fuel release cycles s f ≡ ok o)
      × (run_cycles fuel release cycles s ≡ ok (machine_of o)))
    ⊎ ((run_forwarding fuel release cycles s f ≡ panic) × Cuts cycles s f)

-- In a release build, from a well-formed machine, the loop of a frame with the forwarding of the
-- serial output gives the machine that the loop without it gives; or it panics, and then it comes to
-- a round after which the slice of the output panics.
pub run_forwarding-run_cycles :
    (fuel cycles : ℕ) (s : Machine) (f : Forwarded) → IsMachine s → Agrees fuel cycles s f
unfolding run_forwarding run_cycles
run_forwarding-run_cycles zero cycles s f v = elim (Bool-cases (ltb cycles 70224)) [
  | inl more ↦ inl (none, rw more refl, rw more refl)
  | inr enough ↦ inl (some (s, f), rw enough refl, rw enough refl)
]
run_forwarding-run_cycles (suc fuel) cycles s f v = elim (Bool-cases (ltb cycles 70224)) [
  | inl more ↦
      let r = round-IsMachine cycles s (ltb→lt cycles 70224 more) v in
      let s' = handle_interrupts r.stepped in
      go more r.taken s' r.returns (forward s'.mem.serial f) refl
        (λ f'. run_forwarding-run_cycles fuel (cycles + r.taken) s' f' r.typed)
  | inr enough ↦ inl (some (s, f), rw enough refl, rw enough refl)
]
  where
    go :
        ltb cycles 70224 ≡ true
        → (taken : ℕ) (s' : Machine) → round release cycles s ≡ ok (cycles + taken, s')
        → (w : Outcome Forwarded) → forward s'.mem.serial f ≡ w
        → ((f' : Forwarded) → Agrees fuel (cycles + taken) s' f')
        → Agrees (suc fuel) cycles s f
    go more taken s' returns (ok f') e rest = elim (rest f') [
      | inl (o, runs, same) ↦ inl (o, rw (more, returns, e) runs, rw (more, returns) same)
      | inr (fails, cuts) ↦
          inr (rw (more, returns, e) fails, later (cycles + taken) s' f' returns e cuts)
    ]
    go more taken s' returns panic e rest =
        inr (rw (more, returns, e) refl, cut (cycles + taken) s' returns e)
