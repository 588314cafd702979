-- ===== src/Interrupts.antt =====
-- The handling of interrupts, of idt/idt.c and task/task.c, from the entry of the C code to the return
-- to a program: by the frame on the stack where the handler returns, and by task_return where a task
-- is resumed from its saved registers. The assembly around it, and the acknowledgement by outb, are
-- left out.
pub mod Switching
mod Tests
use custom_os.Base.{
  ℕ, zero, suc, ◌+◌, true, false, Option, none, some, List, [], ◌∷◌, ◌==◌, if◌then◌else◌,
}
use custom_os.Base.Int.{ℤ}
use custom_os.Idt.{Idt, isr80h_handler_command}
use custom_os.Task.{Tasks, task_next, task_switch}
use custom_os.Task.Save.{Registers, InterruptFrame, task_current_save_state}

-- The tasks with their registers by their addresses, and the task whose page directory is loaded, 0
-- for the kernel's.
pub record Scheduler : Type 0 where
  pub tasks : Tasks
  pub registers : ℕ → Registers
  pub directory_of : ℕ

-- How a handler ends: it returns, it resumes a task with these registers, or it stops by a panic or an
-- access through NULL.
pub data Outcome : Type 0 where
  returns : Scheduler → Outcome
  enters : Registers → Scheduler → Outcome
  stops : Outcome

abbrev pub kernel_page : Scheduler → Scheduler
kernel_page s = record s { directory_of = 0 }

-- `task_page`: task_switch to the current task, whose directory is read.
pub task_page : Scheduler → Outcome
task_page s =
    let current = s.tasks.current_task in
    if current == 0
    then stops
    else returns (record s { tasks = task_switch s.tasks current; directory_of = current })

-- `task_next` with its return to user land.
pub task_next_enters : Scheduler → Outcome
task_next_enters s = elim (task_next s.tasks) [
  | none ↦ stops
  | some t ↦
      enters (s.registers t.current_task) (record s { tasks = t; directory_of = t.current_task })
]

-- `idt_clock`
pub idt_clock : InterruptFrame → Scheduler → Outcome
unfolding task_next_enters
idt_clock frame s = task_next_enters s

-- Saving the frame in the current task.
pub save : InterruptFrame → Scheduler → Option Scheduler
save frame s = elim (task_current_save_state s.tasks s.registers frame) [
  | none ↦ none
  | some registers ↦ some (record s { registers = registers })
]

-- The end of a handler: `task_page` where it has returned.
pub back : Outcome → Outcome
unfolding task_page
back (returns s) = task_page s
back (enters r s) = enters r s
back stops = stops

-- `interrupt_handler`; `code` tells which callback stands at an address.
pub interrupt_handler :
    (ℕ → InterruptFrame → Scheduler → Outcome) → Idt → ℕ → InterruptFrame → Scheduler → Outcome
unfolding save back
interrupt_handler code idt interrupt frame s =
    let in_kernel = kernel_page s in
    let callback = idt.interrupt_callbacks interrupt in
    if callback == 0 then back (returns in_kernel) else elim (save frame in_kernel) [
      | none ↦ stops
      | some saved ↦ back (code callback frame saved)
    ]

-- `isr80h_handler` for a command that returns, with the rest of the machine on which commands run;
-- the source calls task_current_save_state by another name. `none` is the panic without a task.
pub isr80h_handler {ℓ} :
    {S : Type ℓ}
    → (ℕ → S → ℕ × S)
    → Idt
    → ℤ
    → InterruptFrame
    → Scheduler
    → S
    → Option (ℕ × Outcome × S)
unfolding save back
isr80h_handler call idt command frame s rest = elim (save frame (kernel_page s)) [
  | none ↦ none
  | some saved ↦
      let (res, rest') = isr80h_handler_command call idt command rest in
      some (res, back (returns saved), rest')
]
