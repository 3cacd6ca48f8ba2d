-- ===== src/Process/Enter.antt =====
-- What `create_process` and `process_fork` set up.
use rpiosv.Base.{
  ℕ, ◌+◌, ◌^◌, ◌<◌, ◌≡◌, ◌≢◌, refl, sym, ◌∙◌, Bool, Addr, null, arith, update, ap, Option, none,
  some,
}
use rpiosv.Interrupts.Level.{disabled, enabled, set_interrupt_level-restore}
use rpiosv.Memory.{Machine, u32, sub32, salloc}
use rpiosv.Queue.Family.{Contents, Free}
use rpiosv.Kernel.{Kernel, saved_size, context_switch, level_of}
use rpiosv.Scheduler.{process_start}
use rpiosv.Scheduler.Turns.{Ready, Running}
use rpiosv.Scheduler.RoundRobin.{started, process_start-Ready}
use rpiosv.Scheduler.Staying.{started-Free}
use rpiosv.Process.{
  create_process, process_fork, take_pid, set_stack, first_state, stacksize, process_size,
}
use rpiosv.Process.Switch.{update-at, update-off, frame_of}

-- What `create_process` leaves in the kernel.
pub record Created (cleanup proc arg : ℕ) (k : Kernel) : Type 0 where
  pub process : Addr
  pub base : Addr
  pub machine1 : Machine
  pub result : Kernel
  pub first : salloc process_size k.machine ≡ some (process, machine1)
  pub second : salloc stacksize machine1 ≡ some (base, result.machine)
  pub returns : create_process cleanup proc arg k ≡ some (process, result)
  pub pid : result.pid process ≡ k.next_pid
  pub stack : result.stackbase process ≡ base
  pub top : result.current_stack_pointer process ≡ sub32 (u32 (base + stacksize)) saved_size
  pub frame : result.saved (result.current_stack_pointer process) ≡ first_state proc arg cleanup
  pub same_store : result.store ≡ k.store
  pub same_current : result.current_context_pcb ≡ k.current_context_pcb
  pub same_run : result.run_queue ≡ k.run_queue
  pub same_idle : result.idle_process ≡ k.idle_process

-- The kernel that `create_process` leaves.
abbrev made : (cleanup proc arg p base : ℕ) → (m m' : Machine) → Kernel → Kernel
made cleanup proc arg p base m m' k =
    let sp = sub32 (u32 (base + stacksize)) saved_size in
    record k {
      machine = m';
      pid = update k.pid p k.next_pid;
      next_pid = u32 (k.next_pid + 1);
      stackbase = update k.stackbase p base;
      current_stack_pointer = update (update k.current_stack_pointer p null) p sp;
      saved = update k.saved sp (first_state proc arg cleanup);
    }

module _ (cleanup proc arg : ℕ) (k : Kernel) where
  unfoldable pub created_process :
      (p base : Addr) (m m' : Machine)
      → salloc process_size k.machine ≡ some (p, m)
      → salloc stacksize m ≡ some (base, m')
      → Created cleanup proc arg k
  unfolding create_process take_pid set_stack
  created_process p base m m' e e' =
      let sp = sub32 (u32 (base + stacksize)) saved_size in
      let csp' = update k.current_stack_pointer p null in
      record {
        process = p;
        base = base;
        machine1 = m;
        result = made cleanup proc arg p base m m' k;
        first = e;
        second = e';
        returns = rw (create_process, e, set_interrupt_level-restore disabled m.irq, e');
        pid = update-at k.pid p k.next_pid;
        stack = update-at k.stackbase p base;
        top = update-at csp' p sp;
        frame = rw (update-at csp' p sp) (update-at k.saved sp (first_state proc arg cleanup));
        same_store = refl;
        same_current = refl;
        same_run = refl;
        same_idle = refl;
      }

created-enters :
    (cleanup proc arg : ℕ) (k : Kernel) (c : Created cleanup proc arg k) (old : Addr) (k2 : Kernel)
    → c.process ≢ old
    → c.base + stacksize < 2 ^ 32
    → k2.current_stack_pointer c.process ≡ c.result.current_stack_pointer c.process
    → k2.saved (c.result.current_stack_pointer c.process)
      ≡ c.result.saved (c.result.current_stack_pointer c.process)
    → sub32 k2.registers.sp saved_size ≢ c.result.current_stack_pointer c.process
    → ((context_switch old c.process k2).registers
        ≡ record { r = update (λ i. 0) 0 arg; sp = c.base + stacksize; lr = cleanup; pc = proc })
      × ((context_switch old c.process k2).machine.irq ≡ enabled)
unfolding context_switch level_of
created-enters cleanup proc arg k c old k2 ne high at fr apart =
    let sp = c.result.current_stack_pointer c.process in
    let kept : update k2.current_stack_pointer old (sub32 k2.registers.sp saved_size) c.process
        ≡ sp =
      update-off k2.current_stack_pointer old c.process (sub32 k2.registers.sp saved_size)
        (λ e. ne (sym e))
      ∙ at in
    let frame =
      update-off k2.saved (sub32 k2.registers.sp saved_size) sp (frame_of k2) apart
      ∙ fr
      ∙ c.frame in
    let full : u32 (sp + saved_size) ≡ c.base + stacksize = rw c.top (omega (arith, high)) in
    rw (kept, frame, full) (refl, refl)

result_of : Kernel → Option (Addr × Kernel) → Kernel
result_of k none = k
result_of k (some (p, k')) = k'

-- A process that `create_process` made enters its procedure when it is first switched to, at any
-- later state that has kept its saved state: r0 holds the argument, the other registers 0, the
-- stack is empty, the return address is that of `cleanup`, and interrupts are enabled. The stack
-- must end below 2^32, and the frame of the process that is left must not be that of the new one.
pub create_process-enters :
    (cleanup proc arg : ℕ) (k : Kernel) (p base : Addr) (m m' : Machine) (k1 k2 : Kernel)
    (old : Addr)
    → salloc process_size k.machine ≡ some (p, m)
    → salloc stacksize m ≡ some (base, m')
    → create_process cleanup proc arg k ≡ some (p, k1)
    → p ≢ old
    → base + stacksize < 2 ^ 32
    → k2.current_stack_pointer p ≡ k1.current_stack_pointer p
    → k2.saved (k1.current_stack_pointer p) ≡ k1.saved (k1.current_stack_pointer p)
    → sub32 k2.registers.sp saved_size ≢ k1.current_stack_pointer p
    → ((context_switch old p k2).registers
        ≡ record { r = update (λ i. 0) 0 arg; sp = base + stacksize; lr = cleanup; pc = proc })
      × ((context_switch old p k2).machine.irq ≡ enabled)
unfolding created_process result_of
create_process-enters cleanup proc arg k p base m m' k1 k2 old e e' returns ne high at fr apart =
    let c = created_process cleanup proc arg k p base m m' e e' in
    let same : k1 ≡ c.result = ap (result_of k) (sym returns ∙ c.returns) in
    let sp = ap (λ (t : Kernel). t.current_stack_pointer p) same in
    created-enters cleanup proc arg k c old k2 ne high (at ∙ sp)
      (ap k2.saved (sym sp) ∙ fr ∙ ap (λ (t : Kernel). t.saved (t.current_stack_pointer p)) same)
      (λ h. apart (h ∙ sym sp))

-- What `process_fork` leaves.
abbrev pub forked : (cleanup proc arg p base : ℕ) → (m m' : Machine) → Kernel → Kernel
forked cleanup proc arg p base m m' k = process_start p (made cleanup proc arg p base m m' k)

pub process_fork-forked :
    (cleanup proc arg : ℕ) (k : Kernel) (p base : Addr) (m m' : Machine)
    → salloc process_size k.machine ≡ some (p, m)
    → salloc stacksize m ≡ some (base, m')
    → (process_fork cleanup proc arg k ≡ some (p, forked cleanup proc arg p base m m' k))
      × ((forked cleanup proc arg p base m m' k).machine ≡ m')
unfolding process_fork process_start created_process
process_fork-forked cleanup proc arg k p base m m' e e' = (
  rw (process_fork, (created_process cleanup proc arg k p base m m' e e').returns) refl,
  ap (λ l. record m' { irq = l }) (set_interrupt_level-restore disabled m'.irq),
)

module _ {live : Addr → Bool} {k : Kernel} {c : Contents} (run : Running live k c)
    (cleanup proc arg : ℕ) where
  pub forked-Running :
      (p base : Addr) (m m' : Machine)
      → p ≢ null
      → p ≢ k.current_context_pcb
      → Free live k.store c p
      → Running live (forked cleanup proc arg p base m m' k) (started k c p)
  unfolding process_start
  forked-Running p base m m' real other free =
      let k1 = made cleanup proc arg p base m m' k in
      let ready1 : Ready live k1 c = record {
        queues = run.ready.queues;
        run_live = run.ready.run_live;
        idle_real = run.ready.idle_real;
        idle_home = run.ready.idle_home;
        idle_node = run.ready.idle_node;
      } in
      record {
        ready = (process_start-Ready ready1 p real free).0;
        current_free =
            started-Free k1 c p k.current_context_pcb run.ready.run_live (λ e. other (sym e))
              run.current_free;
        current_real = run.current_real;
      }

  -- `process_fork`, when both allocations succeed and the new process is neither the caller nor a
  -- node of a queue: it returns, the new process is last on the run queue, the caller still runs, and
  -- the interrupt level is the one that the second `salloc` left.
  pub process_fork-Running :
      (p base : Addr) (m m' : Machine)
      → salloc process_size k.machine ≡ some (p, m)
      → salloc stacksize m ≡ some (base, m')
      → p ≢ null
      → p ≢ k.current_context_pcb
      → Free live k.store c p
      → (k' : Kernel) × (process_fork cleanup proc arg k ≡ some (p, k'))
        × Running live k' (started k c p)
        × (k'.current_context_pcb ≡ k.current_context_pcb)
        × (k'.machine.irq ≡ m'.irq)
  unfolding process_start
  process_fork-Running p base m m' e e' real other free =
      let (returns, machine) = process_fork-forked cleanup proc arg k p base m m' e e' in
      (
        forked cleanup proc arg p base m m' k,
        returns,
        forked-Running p base m m' real other free,
        refl,
        ap (λ (t : Machine). t.irq) machine,
      )
