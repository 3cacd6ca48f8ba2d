-- ===== src/Process/Entered.antt =====
-- What the first switch of `process_system_initialize` enters, and where the other process waits.
use rpiosv.Base.{
  ◌+◌, ◌^◌, ◌<◌, ◌≤◌, ◌≡◌, ◌≢◌, refl, ap, sym, ◌∙◌, ℕ, Addr, Bool, null, arith, update,
}
use rpiosv.Memory.{Machine, u32, sub32}
use rpiosv.Kernel.{Kernel, Registers, SavedState, saved_size}
use rpiosv.Scheduler.{process_start}
use rpiosv.Scheduler.Turns.{Running, Switched, popped}
use rpiosv.Process.{Code, first_state, stacksize}
use rpiosv.Process.Switch.{update-at, update-off}
use rpiosv.Process.Start.{nothing}
use rpiosv.Process.Launch.{after_main}

-- The place of the first saved state on a stack.
abbrev pub first_top : Addr → Addr
first_top base = sub32 (u32 (base + stacksize)) saved_size

-- The registers of a process that has just entered its procedure.
abbrev pub entering : (proc arg cleanup base : ℕ) → Registers
entering proc arg cleanup base = record {
  r = update (λ i. 0) 0 arg;
  sp = base + stacksize;
  lr = cleanup;
  pc = proc;
}

-- Two stacks that the kernel made, and one below them that it started on.
pub record Stacks (sp base1 base2 : Addr) : Type 0 where
  pub low : saved_size ≤ sp
  pub below1 : sp ≤ base1
  pub below2 : sp ≤ base2
  pub high1 : base1 + stacksize < 2 ^ 32
  pub high2 : base2 + stacksize < 2 ^ 32
  pub apart : base1 ≢ base2

module _ {sp base1 base2 : Addr} (s : Stacks sp base1 base2) where
  tops_apart : first_top base1 ≢ first_top base2
  tops_apart = λ e. s.apart (omega (arith, e, s.high1, s.high2))

  start_apart1 : sub32 sp saved_size ≢ first_top base1
  start_apart1 = λ e. omega (arith, e, s.low, s.below1, s.high1)

  start_apart2 : sub32 sp saved_size ≢ first_top base2
  start_apart2 = λ e. omega (arith, e, s.low, s.below2, s.high2)

module _ {live : Addr → Bool} {k : Kernel} (run : Running live k nothing) (code : Code)
    (mainproc mainarg : ℕ) (reaper base1 main base2 : Addr) (m1 m2 m3 m4 : Machine) (k' : Kernel)
    (s : Stacks k.registers.sp base1 base2)
    (w : Switched k.current_context_pcb reaper
      (after_main run code mainproc mainarg reaper base1 main base2 m1 m2 m3 m4)
      k')
    (new1 : reaper ≢ k.current_context_pcb) (new2 : main ≢ k.current_context_pcb)
    (two : reaper ≢ main) where
  reaper-top : k'.current_stack_pointer reaper ≡ first_top base1
  unfolding process_start
  reaper-top = rw w.tops (ground (arith, new1, two))

  main-top : k'.current_stack_pointer main ≡ first_top base2
  unfolding process_start
  main-top = rw w.tops (ground (arith, new2))

  reaper-frame : k'.saved (first_top base1) ≡ first_state code.reaper_process null code.cleanup
  unfolding process_start
  reaper-frame =
      let first = first_state code.reaper_process null code.cleanup in
      let second = first_state mainproc mainarg code.cleanup in
      let one = update k.saved (first_top base1) first in
      let two = update one (first_top base2) second in
      ap (λ (f : Addr → SavedState). f (first_top base1)) w.stacks
      ∙ update-off two (sub32 k.registers.sp saved_size) (first_top base1) _ (start_apart1 s)
      ∙ update-off one (first_top base2) (first_top base1) second (λ e. tops_apart s (sym e))
      ∙ update-at k.saved (first_top base1) first

  main-frame : k'.saved (first_top base2) ≡ first_state mainproc mainarg code.cleanup
  unfolding process_start
  main-frame =
      let first = first_state code.reaper_process null code.cleanup in
      let second = first_state mainproc mainarg code.cleanup in
      let one = update k.saved (first_top base1) first in
      let two = update one (first_top base2) second in
      ap (λ (f : Addr → SavedState). f (first_top base2)) w.stacks
      ∙ update-off two (sub32 k.registers.sp saved_size) (first_top base2) _ (start_apart2 s)
      ∙ update-at one (first_top base2) second

  -- The reaper is entered, and the main process waits to enter its procedure.
  pub entered :
      (k'.registers ≡ entering code.reaper_process null code.cleanup base1)
      × (popped main k' ≡ entering mainproc mainarg code.cleanup base2)
  entered =
      let full1 : u32 (first_top base1 + saved_size) ≡ base1 + stacksize = omega (arith, s.high1) in
      let full2 : u32 (first_top base2 + saved_size) ≡ base2 + stacksize = omega (arith, s.high2) in
      (w.resumed ∙ rw (reaper-top, reaper-frame, full1) refl, rw (main-top, main-frame, full2) refl)
