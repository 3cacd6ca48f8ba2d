-- ===== src/Interrupts/Irq/Dispatch.antt =====
-- Which interrupt `c_irq_handler` serves, and what a registration changes.
use rpiosv.Base.{
  ℕ, zero, suc, ◌+◌, ◌<◌, ◌≡◌, ◌≢◌, refl, ap, sym, subst, ◌∙◌, true, false, ltb, leb, ◌==◌,
  if◌then◌else◌, Addr, null, update, arith, Bool-cases, inl, inr,
}
use rpiosv.Interrupts.Level.{
  enabled, disabled, enable_interrupts, set_interrupt_level, set_interrupt_level_lem,
}
use rpiosv.Interrupts.Irq.Pending.{ready, raised, ready-raised}
use rpiosv.Interrupts.Irq.{
  Irq, num_irqs, irq_is_basic, irq_is_gpu2, irq_is_gpu1, irq_is_pending, register_irq_handler,
  unregister_irq_handler, serve, irq_loop, c_irq_handler,
}

sum_zero : (n : ℕ) → 0 + n ≡ n
sum_zero n = omega arith

sum_shift : (j n : ℕ) → j + suc n ≡ suc j + n
sum_shift j n = omega arith

module _ {ℓ} {W : Type ℓ} (run : Addr → Irq × W → Irq × W) where
  loop-serves :
      (rounds j n : ℕ) (w : Irq × W)
      → n < rounds
      → ready w.0 (j + n) ≡ true
      → ((i : ℕ) → i < n → ready w.0 (j + i) ≡ false)
      → irq_loop run rounds j w ≡ serve run (j + n) w
  unfolding irq_loop
  loop-serves zero j n w h r lower = absurd (omega arith)
  loop-serves (suc rounds) j zero w h r lower =
      let here : j + 0 ≡ j = omega arith in
      let r' : ready w.0 j ≡ true = subst (λ m. ready w.0 m ≡ true) here r in rw (here, r')
  loop-serves (suc rounds) j (suc n) w h r lower =
      let shift = λ (i : ℕ). sum_shift j i in
      let rest =
        loop-serves rounds (suc j) n w (omega arith) (subst (λ m. ready w.0 m ≡ true) (shift n) r)
          (λ i l. subst (λ m. ready w.0 m ≡ false) (shift i) (lower (suc i) (omega arith))) in
      let here : j + 0 ≡ j = omega arith in
      let head : ready w.0 j ≡ false =
        subst (λ m. ready w.0 m ≡ false) here (lower 0 (omega arith)) in
      rw head (rest ∙ ap (λ m. serve run m w) (sym (shift n)))

  loop-idle :
      (rounds j : ℕ) (w : Irq × W)
      → ((i : ℕ) → i < rounds → ready w.0 (j + i) ≡ false)
      → irq_loop run rounds j w ≡ w
  unfolding irq_loop
  loop-idle zero j w none_ready = refl
  loop-idle (suc rounds) j w none_ready =
      let here : j + 0 ≡ j = omega arith in
      let head : ready w.0 j ≡ false =
        subst (λ m. ready w.0 m ≡ false) here (none_ready 0 (omega arith)) in
      rw head (
        loop-idle rounds (suc j) w λ i l.
          subst (λ m. ready w.0 m ≡ false) (sum_shift j i) (none_ready (suc i) (omega arith)))

  -- The clearer of `n` runs, then, with interrupts enabled, the handler, and interrupts are disabled
  -- again.
  abbrev pub acknowledged : ℕ → Irq × W → Irq × W
  acknowledged n w =
      let cleared = run (w.0.clearers n) w in
      let opened : Irq × W = (record cleared.0 { level = enabled }, cleared.1) in
      let handled = run (opened.0.handlers n) opened in
      (record handled.0 { level = disabled }, handled.1)

  serve-acknowledged : (n : ℕ) (w : Irq × W) → serve run n w ≡ acknowledged n w
  unfolding serve enable_interrupts set_interrupt_level
  serve-acknowledged n w =
      let w1 = run (w.0.clearers n) w in
      let on : enable_interrupts w1.0.level ≡ enabled = set_interrupt_level_lem true w1.0.level in
      rw (serve, on)
        (ap
          (λ l. (
            record (run (w1.0.handlers n) (record w1.0 { level = enabled }, w1.1)).0 { level = l },
            (run (w1.0.handlers n) (record w1.0 { level = enabled }, w1.1)).1,
          ))
          (set_interrupt_level_lem false
            (run (w1.0.handlers n) (record w1.0 { level = enabled }, w1.1)).0.level))

  -- `c_irq_handler` takes one interrupt, the one with the lowest number whose bit is set in its
  -- pending register and that has a handler: its clearer runs, then, with interrupts enabled, its
  -- handler, and interrupts are disabled again.
  pub c_irq_handler-serves :
      (n : ℕ) (w : Irq × W)
      → n < num_irqs
      → raised w.0 n ≡ true
      → ((i : ℕ) → i < n → raised w.0 i ≡ false)
      → c_irq_handler run w ≡ acknowledged n w
  unfolding c_irq_handler
  c_irq_handler-serves n w h r lower =
      loop-serves num_irqs 0 n w h
        (subst (λ m. ready w.0 m ≡ true) (sym (sum_zero n)) (ready-raised w.0 n h ∙ r))
        (λ i l.
          subst (λ m. ready w.0 m ≡ false) (sym (sum_zero i))
            (ready-raised w.0 i (omega (arith, l, h)) ∙ lower i l))
      ∙ ap (λ m. serve run m w) (sum_zero n)
      ∙ serve-acknowledged n w

  -- When no interrupt is both pending and handled, `c_irq_handler` does nothing.
  pub c_irq_handler-idle :
      (w : Irq × W) → ((i : ℕ) → i < num_irqs → ready w.0 i ≡ false) → c_irq_handler run w ≡ w
  unfolding c_irq_handler
  c_irq_handler-idle w none_ready =
      loop-idle num_irqs 0 w
        λ i l. subst (λ m. ready w.0 m ≡ false) (sym (sum_zero i)) (none_ready i l)

-- Whether an interrupt is pending depends on the three pending registers.
pending_same :
    (s t : Irq) (n : ℕ)
    → t.irq_basic_pending ≡ s.irq_basic_pending
    → t.irq_gpu_pending1 ≡ s.irq_gpu_pending1
    → t.irq_gpu_pending2 ≡ s.irq_gpu_pending2
    → irq_is_pending t n ≡ irq_is_pending s n
unfolding irq_is_pending
pending_same s t n e1 e2 e3 = rw (e1, e2, e3)

-- What `s` and `t` have in common when only the entry `n` of the tables has changed.
record Entry (n : ℕ) (handler clearer : Addr) (s t : Irq) : Type 0 where
  handlers : (i : ℕ) → t.handlers i ≡ update s.handlers n handler i
  clearers : (i : ℕ) → t.clearers i ≡ update s.clearers n clearer i
  pending : (i : ℕ) → irq_is_pending t i ≡ irq_is_pending s i

register-Entry :
    (n : ℕ) (handler clearer : Addr) (s : Irq)
    → Entry n handler clearer s (register_irq_handler n handler clearer s)
unfolding register_irq_handler irq_is_basic irq_is_gpu2 irq_is_gpu1
register-Entry n handler clearer s =
    let same = λ (t : Irq) (i : ℕ). pending_same s t i in
    elim (Bool-cases (leb 64 n)) [
      | inl e ↦ rw e (record {
        handlers = λ i. refl;
        clearers = λ i. refl;
        pending = λ i. same _ i refl refl refl;
      })
      | inr e ↦ elim (Bool-cases (leb 32 n)) [
        | inl e' ↦
            let e2 : ltb n 64 ≡ true = ground (arith, e) in
            rw (e, e', e2)
              (record {
                handlers = λ i. refl;
                clearers = λ i. refl;
                pending = λ i. same _ i refl refl refl;
              })
        | inr e' ↦
            let e2 : ltb n 32 ≡ true = ground (arith, e') in
            rw (e, e', e2)
              (record {
                handlers = λ i. refl;
                clearers = λ i. refl;
                pending = λ i. same _ i refl refl refl;
              })
      ]
    ]

unregister-Entry : (n : ℕ) (s : Irq) → Entry n null null s (unregister_irq_handler n s)
unfolding unregister_irq_handler irq_is_basic irq_is_gpu2 irq_is_gpu1
unregister-Entry n s =
    let same = λ (t : Irq) (i : ℕ). pending_same s t i in
    elim (Bool-cases (leb 64 n)) [
      | inl e ↦ rw e (record {
        handlers = λ i. refl;
        clearers = λ i. refl;
        pending = λ i. same _ i refl refl refl;
      })
      | inr e ↦ elim (Bool-cases (leb 32 n)) [
        | inl e' ↦
            let e2 : ltb n 64 ≡ true = ground (arith, e) in
            rw (e, e', e2)
              (record {
                handlers = λ i. refl;
                clearers = λ i. refl;
                pending = λ i. same _ i refl refl refl;
              })
        | inr e' ↦
            let e2 : ltb n 32 ≡ true = ground (arith, e') in
            rw (e, e', e2)
              (record {
                handlers = λ i. refl;
                clearers = λ i. refl;
                pending = λ i. same _ i refl refl refl;
              })
      ]
    ]

-- An interrupt that is registered with a handler is ready when it is pending, with the clearer that
-- was registered, and no other interrupt is affected; once it is unregistered it is not ready.
pub register_irq_handler-ready :
    (n : ℕ) (handler clearer : Addr) (s : Irq)
    → handler ≢ null
    → ((i : ℕ)
        → ready (register_irq_handler n handler clearer s) i
          ≡ (if i == n then irq_is_pending s i else ready s i))
      × ((i : ℕ)
          → (register_irq_handler n handler clearer s).clearers i ≡ update s.clearers n clearer i)
      × (ready (unregister_irq_handler n (register_irq_handler n handler clearer s)) n ≡ false)
register_irq_handler-ready n handler clearer s real =
    let r = register-Entry n handler clearer s in
    let u = unregister-Entry n (register_irq_handler n handler clearer s) in
    (λ i. ground (arith, real, r.handlers i, r.pending i), r.clearers, ground (arith, u.handlers n))
