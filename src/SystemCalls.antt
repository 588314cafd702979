-- ===== src/SystemCalls.antt =====
-- The commands of isr80h/misc.c, isr80h/io.c and isr80h/heap.c, which the programs call by interrupt
-- 0x80, and task_get_stack_item of task/task.c, by which the commands read their arguments. The
-- page directory of the task and that of the kernel are loaded by assembly: `user` is the memory as
-- the task sees it, by the addresses of its words.
pub mod Allocation
mod Tests
use custom_os.Base.{ℕ, ◌+◌, ◌*◌, ◌%◌, ◌^◌, Memory, ltb, if◌then◌else◌, Option, none, some}
use custom_os.Base.Int.{ℤ}
use custom_os.Idt.{Idt, isr80h_handler_command}
use custom_os.Keyboard.{Input, keyboard_pop}
use custom_os.Process.{World, process_malloc, process_free}
use custom_os.Terminal.{Terminal, terminal_writechar}

-- What the commands see of the machine: the stack pointer that is saved for the current task, the
-- memory of the task, the world of its process, the keyboard's buffers and the terminal.
pub record Machine : Type 0 where
  pub esp : ℕ
  pub user : Memory
  pub world : World
  pub input : Input
  pub terminal : Terminal

abbrev pub word : ℕ
word = 2 ^ 32

pub task_get_stack_item : Machine → ℕ → ℕ
task_get_stack_item m index = m.user ((m.esp + 4 * index) % word)

-- A `char` that is widened to 32 bits: from 128 on it is negative.
abbrev pub widen : ℕ → ℕ
widen c = if ltb c 128 then c else c + 0xFFFFFF00

-- A command that returns a value, or `none` where it writes outside the heap's table.
abbrev pub Command : Type 0
Command = Machine → Option (ℕ × Machine)

pub isr80h_command0_sum : Command
isr80h_command0_sum m =
    let v2 = task_get_stack_item m 1 in
    let v1 = task_get_stack_item m 0 in some ((v1 + v2) % word, m)

pub isr80h_command2_getkey : Command
isr80h_command2_getkey m =
    let (c, input) = keyboard_pop m.input in some (widen c, record m { input = input })

pub isr80h_command3_putchar : Command
isr80h_command3_putchar m =
    let c = task_get_stack_item m 0 % 2 ^ 8 in
    some (0, record m { terminal = terminal_writechar m.terminal c 15 })

pub isr80h_command4_malloc : Command
isr80h_command4_malloc m =
    let size = task_get_stack_item m 0 in
    elim (process_malloc m.world size) [
      | none ↦ none
      | some (ptr, w) ↦ some (ptr, record m { world = w })
    ]

pub isr80h_command5_free : Command
isr80h_command5_free m =
    let ptr_to_free = task_get_stack_item m 0 in
    elim (process_free m.world ptr_to_free) [
      | none ↦ none
      | some w ↦ some (0, record m { world = w })
    ]

-- What is left behind a command: its value, 0 with no machine where it fails.
abbrev pub outcome : Option (ℕ × Machine) → ℕ × Option Machine
outcome none = (0, none)
outcome (some (result, m)) = (result, some m)

-- The call of the command at an address, where `code` tells which command stands there. A machine
-- that a command has left with `none` stays so.
pub call_at : (ℕ → Command) → ℕ → Option Machine → ℕ × Option Machine
call_at code address none = (0, none)
call_at code address (some m) = outcome (code address m)

-- `isr80h_handler_command` on this machine.
pub invoke : (ℕ → Command) → Idt → ℤ → Machine → ℕ × Option Machine
unfolding call_at
invoke code s command m = isr80h_handler_command (call_at code) s command (some m)
