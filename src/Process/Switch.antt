-- ===== src/Process/Switch.antt =====
-- Switches of contexts: a process that is resumed goes on as it was, and a new one enters its
-- procedure.
use rpiosv.Base.{
  ◌+◌, ◌^◌, ◌<◌, ◌≤◌, ◌≡◌, ◌≢◌, refl, ap, sym, ◌∙◌, true, false, ◌==◌, Addr, arith, update,
}
use rpiosv.Interrupts.Level.{Level}
use rpiosv.Memory.{u32, sub32}
use rpiosv.Kernel.{Kernel, SavedState, saved_size, context_switch, cpsr_of, level_of}

level_of-cpsr_of : (l : Level) → level_of (cpsr_of l) ≡ l
unfolding level_of cpsr_of
level_of-cpsr_of true = refl
level_of-cpsr_of false = refl

pub update-at {ℓ} : {A : Type ℓ} (f : Addr → A) (p : Addr) (v : A) → update f p v p ≡ v
update-at f p v = let self : (p == p) ≡ true = ground arith in rw self

pub update-off {ℓ} : {A : Type ℓ} (f : Addr → A) (p r : Addr) (v : A) → p ≢ r → update f p v r ≡ f r
update-off f p r v ne = let other : (r == p) ≡ false = ground (arith, ne) in rw other

-- What a switch pushes.
abbrev pub frame_of : Kernel → SavedState
frame_of k = record {
  cpsr = cpsr_of k.machine.irq;
  r = k.registers.r;
  cleanup = k.registers.lr;
  lr = k.registers.lr;
}

-- `a` gives the processor to `b`; later `b2` gives it back, with `a`'s stack untouched meanwhile: then
-- every register, the stack pointer and the interrupt level are as they were, and execution goes on
-- at the return address of the first call. The frame that `b2` saves must not be that of `a`.
pub context_switch-resume :
    (a b b2 : Addr) (k k2 : Kernel)
    → a ≢ b2
    → saved_size ≤ k.registers.sp
    → k.registers.sp < 2 ^ 32
    → k2.current_stack_pointer a ≡ (context_switch a b k).current_stack_pointer a
    → k2.saved (k2.current_stack_pointer a)
      ≡ (context_switch a b k).saved (k2.current_stack_pointer a)
    → sub32 k2.registers.sp saved_size ≢ k2.current_stack_pointer a
    → ((context_switch b2 a k2).registers ≡ record k.registers { pc = k.registers.lr })
      × ((context_switch b2 a k2).machine.irq ≡ k.machine.irq)
unfolding context_switch
context_switch-resume a b b2 k k2 ne low high sp fr apart =
    let sp' = sub32 k.registers.sp saved_size in
    let mine : update k.current_stack_pointer a sp' a ≡ sp' = ground arith in
    let top : u32 (sp' + saved_size) ≡ k.registers.sp = omega (arith, low, high) in
    let kept : update k2.current_stack_pointer b2 (sub32 k2.registers.sp saved_size) a
        ≡ k2.current_stack_pointer a =
      ground (arith, ne) in
    let at : k2.current_stack_pointer a ≡ sp' = sp ∙ mine in
    let frame : SavedState = record {
      cpsr = cpsr_of k.machine.irq;
      r = k.registers.r;
      cleanup = k.registers.lr;
      lr = k.registers.lr;
    } in
    let same : k2.saved sp' ≡ frame =
      ap k2.saved (sym at) ∙ fr ∙ ap (update k.saved sp' frame) at ∙ update-at k.saved sp' frame in
    let apart' : sub32 k2.registers.sp saved_size ≢ sp' = λ e. apart (e ∙ sym at) in
    let kept' : update k2.saved (sub32 k2.registers.sp saved_size) (frame_of k2) sp' ≡ frame =
      update-off k2.saved (sub32 k2.registers.sp saved_size) sp' (frame_of k2) apart' ∙ same in
    rw (kept, at, kept', top) (refl, level_of-cpsr_of k.machine.irq)
