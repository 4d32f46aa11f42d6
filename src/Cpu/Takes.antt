-- ===== src/Cpu/Takes.antt =====
-- A rule for each access of the processor: from a well-formed machine it leaves one, its value is of
-- its type, it counts as many M-cycles as it ticks, and a panic is one of a debug build.
use rust_gb_emulator.Base.{
  ℕ, ◌+◌, ◌<◌, ◌≤◌, Bool, true, false, if◌then◌else◌, ◌≡◌, arith, Build, debug, Outcome, ok, panic,
}
use rust_gb_emulator.Memory.Typing.{IsBus}
use rust_gb_emulator.Cpu.RegisterLaws.{IsRegisters}
use rust_gb_emulator.Cpu.Machine.{Machine, Exec, ◌>>=◌, ◌>>◌, return}

pub record IsMachine (s : Machine) : Type 0 where
  pub registers_ok : IsRegisters s.cpu.registers
  pub bus_ok : IsBus s.mem

abbrev pub ticked : Machine → ℕ
ticked s = s.cpu.instruction_m_cycles_ticked

-- A run from `s` that returned: its value and its machine, and `lo` to `hi` M-cycles counted.
pub record Ran {A : Type 0} (V : A → Type 0) (lo hi : ℕ) (s : Machine) (r : A × Machine)
    : Type 0 where
  pub value : V r.0
  pub typed : IsMachine r.1
  pub least : ticked s + lo ≤ ticked r.1
  pub most : ticked r.1 ≤ ticked s + hi

abbrev pub Runs :
    {A : Type 0} → (A → Type 0) → ℕ → ℕ → Build → Machine → Outcome (A × Machine) → Type 0
Runs V lo hi b s (ok r) = Ran V lo hi s r
Runs V lo hi b s panic = b ≡ debug

pub record Takes {A : Type 0} (V : A → Type 0) (lo hi : ℕ) (e : Exec A) : Type 0 where
  pub runs : (b : Build) (s : Machine) → IsMachine s → Runs V lo hi b s (e b s)

abbrev pub Any : {A : Type 0} → A → Type 0
Any a = Unit {0}

abbrev pub IsByte : ℕ → Type 0
IsByte n = n < 256

abbrev pub IsWord : ℕ → Type 0
IsWord n = n < 65536

further :
    {A B : Type 0} (V : A → Type 0) (W : B → Type 0) (lo hi lo' hi' : ℕ) (b : Build) (s : Machine)
    (f : A → Exec B)
    → ((a : A) → V a → Takes W lo' hi' (f a))
    → (r : A × Machine) → Ran V lo hi s r
    → (o : Outcome (B × Machine)) → Runs W lo' hi' b r.1 o
    → Runs W (lo + lo') (hi + hi') b s o
further V W lo hi lo' hi' b s f rest r ran (ok q) h = record {
  value = h.value;
  typed = h.typed;
  least = omega (arith, ran.least, h.least);
  most = omega (arith, ran.most, h.most);
}
further V W lo hi lo' hi' b s f rest r ran panic h = h

bind-Runs :
    {A B : Type 0} (V : A → Type 0) (W : B → Type 0) (lo hi lo' hi' : ℕ) (b : Build) (s : Machine)
    (f : A → Exec B)
    → ((a : A) → V a → Takes W lo' hi' (f a))
    → (o : Outcome (A × Machine)) → Runs V lo hi b s o
    → Runs W (lo + lo') (hi + hi') b s (elim o [ ok r ↦ f r.0 b r.1 | panic ↦ panic ])
bind-Runs V W lo hi lo' hi' b s f rest (ok r) h =
    further V W lo hi lo' hi' b s f rest r h (f r.0 b r.1) ((rest r.0 h.value).runs b r.1 h.typed)
bind-Runs V W lo hi lo' hi' b s f rest panic h = h

-- The rules of `>>=` and `>>`, of a choice, and of a weaker count.
pub bind_Takes :
    {A B : Type 0} {V : A → Type 0} {W : B → Type 0} {lo hi lo' hi' : ℕ} {e : Exec A}
    {f : A → Exec B}
    → Takes V lo hi e
    → ((a : A) → V a → Takes W lo' hi' (f a))
    → Takes W (lo + lo') (hi + hi') (e >>= f)
bind_Takes {V = V} {W = W} {lo = lo} {hi = hi} {lo' = lo'} {hi' = hi'} {e = e} {f = f} first rest =
    record { runs = λ b s v. bind-Runs V W lo hi lo' hi' b s f rest (e b s) (first.runs b s v) }

pub then_Takes :
    {B : Type 0} {W : B → Type 0} {lo hi lo' hi' : ℕ} {e : Exec (Unit {0})} {f : Exec B}
    → Takes Any lo hi e
    → Takes W lo' hi' f
    → Takes W (lo + lo') (hi + hi') (e >> f)
then_Takes {W = W} {lo = lo} {hi = hi} {lo' = lo'} {hi' = hi'} {e = e} {f = f} first rest = record {
  runs =
      λ b s v. bind-Runs Any W lo hi lo' hi' b s (λ _. f) (λ _ _. rest) (e b s) (first.runs b s v);
}

pub if_Takes :
    {A : Type 0} {V : A → Type 0} {lo hi : ℕ} (test : Bool) {x y : Exec A}
    → Takes V lo hi x
    → Takes V lo hi y
    → Takes V lo hi (if test then x else y)
if_Takes true h k = h
if_Takes false h k = k

weaker :
    {A : Type 0} (V W : A → Type 0) (lo hi lo' hi' : ℕ) (b : Build) (s : Machine)
    → ((a : A) → V a → W a)
    → lo' ≤ lo
    → hi ≤ hi'
    → (o : Outcome (A × Machine)) → Runs V lo hi b s o
    → Runs W lo' hi' b s o
weaker V W lo hi lo' hi' b s f h k (ok r) ran = record {
  value = f r.0 ran.value;
  typed = ran.typed;
  least = omega (arith, ran.least);
  most = omega (arith, ran.most);
}
weaker V W lo hi lo' hi' b s f h k panic ran = ran

pub weaken_Takes :
    {A : Type 0} {V W : A → Type 0} {lo hi : ℕ} (lo' hi' : ℕ) {e : Exec A}
    → ((a : A) → V a → W a)
    → lo' ≤ lo
    → hi ≤ hi'
    → Takes V lo hi e
    → Takes W lo' hi' e
weaken_Takes {V = V} {W = W} {lo = lo} {hi = hi} lo' hi' {e = e} f h k takes = record {
  runs = λ b s v. weaker V W lo hi lo' hi' b s f h k (e b s) (takes.runs b s v);
}

pub return-Takes : {A : Type 0} {V : A → Type 0} (a : A) → V a → Takes V 0 0 (return a)
return-Takes a h = record {
  runs = λ b s v. record { value = h; typed = v; least = omega arith; most = omega arith };
}

-- A run that is known, with its machine at the same count.
pub at_once :
    {A : Type 0} (V : A → Type 0) (a : A) (s s' : Machine)
    → V a
    → IsMachine s'
    → ticked s' ≡ ticked s
    → Ran V 0 0 s (a, s')
at_once V a s s' h v e = record { value = h; typed = v; least = omega arith; most = omega arith }
