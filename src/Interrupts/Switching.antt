-- ===== src/Interrupts/Switching.antt =====
-- The timer interrupt of idt/idt.c as the kernel's context switch.
use custom_os.Base.{
  ℕ, zero, suc, ◌≡◌, ◌≢◌, refl, sym, ◌∙◌, false, some, List, [], ◌∷◌, ◌==◌, All, length, arith,
}
use custom_os.Idt.{Idt}
use custom_os.Task.{Tasks, task_next}
use custom_os.Task.Ring.{IsList, Fresh, Distinct, turns, task_next-turns}
use custom_os.Task.Ring.Turns.{task_next-current, turns-zero, turns-suc}
use custom_os.Task.Save.{
  Registers, InterruptFrame, task_save_state, task_save_state-returned, task_save_state-other,
  task_current_save_state-some, returned,
}
use custom_os.Interrupts.{
  Scheduler, Outcome, returns, enters, stops, idt_clock, task_next_enters, interrupt_handler, save,
  back,
}

-- The callback of the timer, number 0x20, is idt_clock.
pub record Ticks (code : ℕ → InterruptFrame → Scheduler → Outcome) (idt : Idt) : Type 0 where
  pub registered : idt.interrupt_callbacks 0x20 ≢ 0
  pub stands : code (idt.interrupt_callbacks 0x20) ≡ idt_clock

module _ (code : ℕ → InterruptFrame → Scheduler → Outcome) (idt : Idt)
    (f : ℕ → InterruptFrame) where
  -- One timer interrupt after the other, each in the task that the last one has resumed; the task `t`
  -- is interrupted with the frame `f t`. The first task has been resumed with the registers `r`.
  pub ticks : ℕ → Registers → Scheduler → Outcome
  ticks zero r s = enters r s
  ticks (suc n) r s = elim (interrupt_handler code idt 0x20 (f s.tasks.current_task) s) [
    | returns s' ↦ stops
    | enters r' s' ↦ ticks n r' s'
    | stops ↦ stops
  ]

  -- The registers behind the interrupts of the tasks of a list, one after the other.
  pub saved_in : List ℕ → (ℕ → Registers) → ℕ → Registers
  saved_in [] registers = registers
  saved_in (t ∷ l) registers = saved_in l (task_save_state registers t (f t))

  -- The scheduler that resumes the current task of `t`, and how it does it.
  abbrev pub resumed : Tasks → (ℕ → Registers) → Outcome
  resumed t registers =
      enters (registers t.current_task)
        (record { tasks = t; registers = registers; directory_of = t.current_task })

  interrupt_handler-clock :
      (s : Scheduler) (t1 : Tasks)
      → Ticks code idt
      → task_next s.tasks ≡ some t1
      → interrupt_handler code idt 0x20 (f s.tasks.current_task) s
        ≡ resumed t1 (task_save_state s.registers s.tasks.current_task (f s.tasks.current_task))
  unfolding interrupt_handler save back task_next_enters idt_clock
  interrupt_handler-clock s t1 h e =
      let set : (idt.interrupt_callbacks 0x20 == 0) ≡ false = ground (arith, h.registered) in
      let saves =
        task_current_save_state-some s.tasks s.registers (f s.tasks.current_task)
          (task_next-current s.tasks t1 e) in
      rw (set, saves, h.stands, idt_clock, e, task_next_enters) refl

  ticks_lem :
      (n : ℕ) (s : Scheduler) (t' : Tasks) (l : List ℕ)
      → Ticks code idt
      → s.directory_of ≡ s.tasks.current_task
      → turns n s.tasks ≡ some (l, t')
      → ticks n (s.registers s.tasks.current_task) s ≡ resumed t' (saved_in l s.registers)
  unfolding ticks saved_in
  ticks_lem zero s t' l h loaded e =
      let (empty, same) = turns-zero s.tasks t' l e in ground (arith, empty, same, loaded)
  ticks_lem (suc n) s t' l h loaded e =
      let (t1, l1, first, more, eq) = turns-suc n s.tasks t' l e in
      let saved = task_save_state s.registers s.tasks.current_task (f s.tasks.current_task) in
      let s1 : Scheduler = record {
        tasks = t1;
        registers = saved;
        directory_of = t1.current_task;
      } in
      let rest : ticks n (saved t1.current_task) s1 ≡ resumed t' (saved_in l1 saved) =
        ticks_lem n s1 t' l1 h refl more in
      rw (interrupt_handler-clock s t1 h first, ticks, eq) rest

  saved_in-starting :
      (t : ℕ) (l : List ℕ) (registers : ℕ → Registers)
      → Fresh t l
      → saved_in l registers t ≡ registers t
  unfolding saved_in
  saved_in-starting t [] registers fresh = refl
  saved_in-starting t (x ∷ l) registers fresh =
      saved_in-starting t l (task_save_state registers x (f x)) fresh.1
      ∙ task_save_state-other registers x (f x) t (λ e. fresh.0 (sym e))

  -- A return to the task `t` with these registers makes its frame again.
  abbrev pub IsKept : (ℕ → Registers) → ℕ → Type 0
  IsKept registers t = returned (registers t) (f t).reserved ≡ f t

  saved_in-IsKept :
      (l : List ℕ) (registers : ℕ → Registers) → Distinct l → All (IsKept (saved_in l registers)) l
  unfolding saved_in
  saved_in-IsKept [] registers distinct = tt
  saved_in-IsKept (x ∷ l) registers distinct =
      let saved = task_save_state registers x (f x) in
      (
        rw (saved_in-starting x l saved distinct.0) (task_save_state-returned registers x (f x)),
        saved_in-IsKept l saved distinct.1,
      )

  -- Context switching: where the timer's callback is idt_clock, the list of the tasks is c ∷ l and its
  -- head runs with its page directory loaded, as many timer interrupts as there are tasks, each in the
  -- task that the last one has resumed, end by resuming the head with its page directory; each task of
  -- the list has been interrupted once, its registers make the frame again with which it was
  -- interrupted, and the registers of every other task are as before.
  pub interrupt_handler-switches :
      (s : Scheduler) (c : ℕ) (l : List ℕ)
      → Ticks code idt
      → IsList s.tasks (c ∷ l)
      → s.tasks.current_task ≡ s.tasks.task_head
      → s.directory_of ≡ s.tasks.current_task
      → (ticks (suc (length l)) (s.registers s.tasks.current_task) s
          ≡ resumed s.tasks (saved_in (c ∷ l) s.registers))
        × All (IsKept (saved_in (c ∷ l) s.registers)) (c ∷ l)
        × ((t : ℕ) → Fresh t (c ∷ l) → saved_in (c ∷ l) s.registers t ≡ s.registers t)
  interrupt_handler-switches s c l h is head loaded = (
    ticks_lem (suc (length l)) s s.tasks (c ∷ l) h loaded (task_next-turns s.tasks c l is head),
    saved_in-IsKept (c ∷ l) s.registers is.distinct,
    λ t fresh. saved_in-starting t (c ∷ l) s.registers fresh,
  )
