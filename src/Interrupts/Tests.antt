-- ===== src/Interrupts/Tests.antt =====
-- The theorem on context switching with two tasks.
use custom_os.Base.{ℕ, ◌+◌, ◌≡◌, refl, arith, ◌==◌, if◌then◌else◌, [], ◌∷◌, All}
use custom_os.Idt.{Idt, no_desc}
use custom_os.Interrupts.{Scheduler, idt_clock}
use custom_os.Interrupts.Switching.{
  Ticks, ticks, saved_in, resumed, IsKept, interrupt_handler-switches,
}
use custom_os.Task.Ring.{IsList, Fresh}
use custom_os.Task.Save.{InterruptFrame, initial, returned}

-- The tasks at 100 and 200; the first of them runs.
abbrev two : Scheduler
two = record {
  tasks = record {
    next = λ t. if t == 100 then 200 else 0;
    prev = λ t. if t == 200 then 100 else 0;
    task_head = 100;
    task_tail = 200;
    current_task = 100;
  };
  registers = λ t. initial 0x400000;
  directory_of = 100;
}

two-IsList : IsList two.tasks (100 ∷ 200 ∷ [])
two-IsList = omega arith

abbrev idt : Idt
idt = record {
  idt_descriptors = λ i. no_desc;
  interrupt_callbacks = λ i. if i == 0x20 then 0x150000 else 0;
  isr80h_commands = λ i. 0;
}

clock-Ticks : Ticks (λ a. idt_clock) idt
clock-Ticks = record { registered = omega arith; stands = refl }

-- Each task is interrupted at an address of its own.
abbrev frame : ℕ → InterruptFrame
frame t = returned (initial (0x400000 + t)) 7

interrupt_handler-switches_example :
    (ticks (λ a. idt_clock) idt frame 2 (two.registers 100) two
      ≡ resumed
          (λ a. idt_clock)
          idt
          frame
          two.tasks
          (saved_in (λ a. idt_clock) idt frame (100 ∷ 200 ∷ []) two.registers))
    × All
        (IsKept
          (λ a. idt_clock)
          idt
          frame
          (saved_in (λ a. idt_clock) idt frame (100 ∷ 200 ∷ []) two.registers))
        (100 ∷ 200 ∷ [])
    × ((t : ℕ)
        → Fresh t (100 ∷ 200 ∷ [])
        → saved_in (λ a. idt_clock) idt frame (100 ∷ 200 ∷ []) two.registers t ≡ two.registers t)
interrupt_handler-switches_example =
    interrupt_handler-switches (λ a. idt_clock) idt frame two 100 (200 ∷ []) clock-Ticks two-IsList
      refl refl
