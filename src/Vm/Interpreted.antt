-- ===== src/Vm/Interpreted.antt =====
-- `Vm::run_interpreter` against the step relation of the interpreter.
use riscv64_emulator.Prelude.{
  ℕ, zero, suc, ◌≡◌, ◌≢◌, refl, subst, Bool, true, false, Option, none, some,
}
use riscv64_emulator.Prelude.Result.{
  Result, ok, fatal, undefined_behaviour, multiply_high_not_supported,
}
use riscv64_emulator.Cpu.{Cpu}
use riscv64_emulator.Cpu.Laws as CpuLaws
use riscv64_emulator.Memory.{Memory}
use riscv64_emulator.Memory.Accepts as MemoryAccepts
use riscv64_emulator.Exit.{Reason, no_exit}
use riscv64_emulator.Instruction.Decoder.{decode}
use riscv64_emulator.Interpreter.{State, step}
use riscv64_emulator.Interpreter.Steps.{
  IsValid, goes_on, exits, unsupported, divides_badly, UndefinedDivision,
}
use riscv64_emulator.Interpreter.Step.{
  StepEnds, unaligned, fetch_fault, executed, Fetches, step-StepEnds,
}
use riscv64_emulator.Vm.{after_step, run_loop, checked, check_exit, run_interpreter, is_filled}

-- `Reaches t s`: a run from `s` passes through `t`.
pub data Reaches (t : State) : State → Type 0 where
  here : Reaches t t
  next : {s u : State} → step s ≡ ok (true, u) → Reaches t u → Reaches t s

-- A run from `s` ends in `r`, the result of a step that does not return true.
abbrev pub Final : State → Result State → Type 0
Final s (ok s') = (t : State) × Reaches t s × (step t ≡ ok (false, s'))
Final s (fatal m) = (t : State) × Reaches t s × (step t ≡ fatal m)
Final s undefined_behaviour = (t : State) × Reaches t s × (step t ≡ undefined_behaviour)

Final-next : (s u : State) (r : Result State) → step s ≡ ok (true, u) → Final u r → Final s r
Final-next s u (ok s') e (t, reach, last) = (t, Reaches.next e reach, last)
Final-next s u (fatal m) e (t, reach, last) = (t, Reaches.next e reach, last)
Final-next s u undefined_behaviour e (t, reach, last) = (t, Reaches.next e reach, last)

after_step-Final :
    (fuel : ℕ) (s : State) (r : Result State) (d : Result (Bool × State))
    → ((u : State) → run_loop fuel u ≡ some r → Final u r)
    → step s ≡ d
    → after_step (run_loop fuel) d ≡ some r
    → Final s r
after_step-Final fuel s r (ok (true, u)) ih e h = Final-next s u r e (ih u h)
after_step-Final fuel s r (ok (false, u)) ih e h =
    let same : ok u ≡ r = cc in subst (Final s) same (s, Reaches.here, e)
after_step-Final fuel s r (fatal m) ih e h =
    let same : fatal m ≡ r = cc in subst (Final s) same (s, Reaches.here, e)
after_step-Final fuel s r undefined_behaviour ih e h =
    let same : undefined_behaviour ≡ r = cc in subst (Final s) same (s, Reaches.here, e)

pub run_loop-Final :
    (fuel : ℕ) (s : State) (r : Result State) → run_loop fuel s ≡ some r → Final s r
unfolding run_loop
run_loop-Final zero s r h = cc
run_loop-Final (suc fuel) s r h =
    after_step-Final fuel s r (step s) (λ u. run_loop-Final fuel u r) refl h

-- If steps lead from `s` to a state whose step returns false, the loop returns from `s`, with
-- enough fuel, what that step leaves.
pub run_loop_complete :
    {t s : State} (s' : State)
    → Reaches t s
    → step t ≡ ok (false, s')
    → (fuel : ℕ) × (run_loop fuel s ≡ some (ok s'))
unfolding run_loop
run_loop_complete s' here e = (1, rw e)
run_loop_complete s' (next first reach) e =
    let rest = run_loop_complete s' reach e in (suc rest.0, rw first rest.1)

Reaches-IsValid : {t s : State} → Reaches t s → IsValid s → IsValid t
Reaches-IsValid here v = v
Reaches-IsValid (next {s = s} first reach) v =
    Reaches-IsValid reach (keeps _ (step-StepEnds s v) first)
  where
    keeps : {u : State} (r : Result (Bool × State)) → StepEnds s r → r ≡ ok (true, u) → IsValid u
    keeps _ (unaligned _) e = cc
    keeps _ (fetch_fault _ _) e = cc
    keeps {u} _ (executed w f (goes_on {s'} valid same)) e =
        let eq : s' ≡ u = cc in subst IsValid eq valid
    keeps _ (executed w f (exits _ _ _)) e = cc
    keeps _ (executed w f unsupported) e = cc
    keeps _ (executed w f (divides_badly _)) e = cc

-- What the result of a run says.
abbrev pub RunEnds : State → Result State → Type 0
RunEnds s (ok s') =
    (t : State) × Reaches t s
    × (s'.memory ≡ t.memory)
    × (s'.cpu ≡ t.cpu)
    × (s'.exit.reason ≢ Reason.none)
RunEnds s (fatal m) = m ≡ multiply_high_not_supported
RunEnds s undefined_behaviour =
    (t : State) × Reaches t s × (w : ℕ) × Fetches t w × UndefinedDivision t (decode w)

-- How the step that ends a run looks.
abbrev Stops : State → Result (Bool × State) → Type 0
Stops t (ok (b, s')) =
    b ≡ false → (s'.memory ≡ t.memory) × (s'.cpu ≡ t.cpu) × (s'.exit.reason ≢ Reason.none)
Stops t (fatal m) = m ≡ multiply_high_not_supported
Stops t undefined_behaviour = (w : ℕ) × Fetches t w × UndefinedDivision t (decode w)

StepEnds-Stops : (t : State) (r : Result (Bool × State)) → StepEnds t r → Stops t r
StepEnds-Stops t _ (unaligned _) = λ e. (refl, refl, cc)
StepEnds-Stops t _ (fetch_fault _ _) = λ e. (refl, refl, cc)
StepEnds-Stops t _ (executed w f (goes_on valid same)) = λ e. cc
StepEnds-Stops t _ (executed w f (exits m c r)) = λ e. (m, c, r)
StepEnds-Stops t _ (executed w f unsupported) = refl
StepEnds-Stops t _ (executed w f (divides_badly d)) = (w, f, d)

is_filled_of_ne : (r : Reason) → r ≢ Reason.none → is_filled r ≡ true
is_filled_of_ne Reason.none h = absurd (h refl)
is_filled_of_ne _ h = refl

module _ (s : State) (v : IsValid s) where
  last_step : {t : State} (r : Result (Bool × State)) → Reaches t s → step t ≡ r → Stops t r
  last_step {t} r reach e =
      subst (Stops t) e (StepEnds-Stops t (step t) (step-StepEnds t (Reaches-IsValid reach v)))

  Final-RunEnds : (r : Result State) → Final s r → RunEnds s (check_exit r)
  Final-RunEnds (ok s') (t, reach, e) =
      let stops = last_step (ok (false, s')) reach e refl in
      rw (is_filled_of_ne s'.exit.reason stops.2) (t, reach, stops.0, stops.1, stops.2)
  Final-RunEnds (fatal m) (t, reach, e) = last_step (fatal m) reach e
  Final-RunEnds undefined_behaviour (t, reach, e) =
      let stops = last_step undefined_behaviour reach e in (t, reach, stops.0, stops.1, stops.2)

-- When `run_interpreter` returns for a valid memory and cpu, it has stopped in a state that the
-- steps lead to, with its memory and registers and a reason other than None, so the `verify` on
-- the reason never fails; otherwise it met an unsupported multiplication, or a division that C++
-- leaves undefined in a state that the steps lead to.
pub run_interpreter-RunEnds :
    (fuel : ℕ) (memory : Memory) (cpu : Cpu) (r : Result State)
    → MemoryAccepts.IsValid memory
    → CpuLaws.IsValid cpu
    → run_interpreter fuel memory cpu ≡ some r
    → RunEnds (record { memory = memory; cpu = cpu; exit = no_exit }) r
unfolding run_interpreter
run_interpreter-RunEnds fuel memory cpu r vm vc h = go (run_loop fuel start) refl h
  where
    start : State
    start = record { memory = memory; cpu = cpu; exit = no_exit }

    valid : IsValid start
    valid = record { valid_memory = vm; valid_cpu = vc }

    go :
        (o : Option (Result State)) → run_loop fuel start ≡ o → checked o ≡ some r → RunEnds start r
    go none e h' = cc
    go (some last) e h' =
        let same : check_exit last ≡ r = cc in
        subst (RunEnds start) same
          (Final-RunEnds start valid last (run_loop-Final fuel start last e))
