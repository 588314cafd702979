-- ===== src/SystemCalls/Allocation.antt =====
-- A program's memory through the commands 4 and 5: isr80h/heap.c over task/process.c.
use custom_os.Base.{ℕ, ◌+◌, ◌%◌, ◌<◌, ◌≡◌, ◌≢◌, ◌∙◌, refl, Memory, arith, ap, Option, none, some}
use custom_os.Base.Int.{pos}
use custom_os.Heap.{heap_malloc}
use custom_os.Idt.{Idt}
use custom_os.Idt.Tables.{isr80h_handler_command_lem}
use custom_os.Paging.Slots.{IsDirectory}
use custom_os.Process.{World, process_malloc, process_free}
use custom_os.Process.Lifetime.{HasRoom, Freed, process_free-process_malloc}
use custom_os.SystemCalls.{
  Machine, Command, task_get_stack_item, isr80h_command4_malloc, isr80h_command5_free, call_at,
  invoke, outcome, word,
}

-- The command `number` of the table is `command`.
pub record Serves (code : ℕ → Command) (s : Idt) (number : ℕ) (command : Command) : Type 0 where
  pub registered : s.isr80h_commands number ≢ 0
  pub stands : code (s.isr80h_commands number) ≡ command

pub invoke-Serves :
    (code : ℕ → Command) (s : Idt) (number : ℕ) (command : Command) (m : Machine)
    → Serves code s number command
    → number < 1024
    → invoke code s (pos number) m ≡ outcome (command m)
unfolding invoke call_at
invoke-Serves code s number command m serves lt =
    isr80h_handler_command_lem (call_at code) s number (some m) lt serves.registered
    ∙ ap (λ (f : Command). outcome (f m)) serves.stands

-- The machine behind a call that frees has the heap's table `m` and the addresses `ptr`.
abbrev pub MachineFreed : Memory → Memory → Option Machine → Type 0
MachineFreed m ptr none = ⊥
MachineFreed m ptr (some after) = Freed m ptr (some after.world)

malloc_lem :
    (m : Machine) (size p : ℕ) (w : World)
    → task_get_stack_item m 0 ≡ size
    → process_malloc m.world size ≡ some (p, w)
    → isr80h_command4_malloc m ≡ some (p, record m { world = w })
unfolding isr80h_command4_malloc
malloc_lem m size p w item e = rw (isr80h_command4_malloc, item, e) refl

free_lem :
    (m : Machine) (p : ℕ) (entries ptr : Memory)
    → task_get_stack_item m 0 ≡ p
    → Freed entries ptr (process_free m.world p)
    → MachineFreed entries ptr (outcome (isr80h_command5_free m)).1
unfolding isr80h_command5_free
free_lem m p entries ptr item freed =
    rw (isr80h_command5_free, item) (go (process_free m.world p) freed)
  where
    go :
        (r : Option World)
        → Freed entries ptr r
        → MachineFreed entries ptr
            (outcome (elim r [ none ↦ none | some w ↦ some (0, record m { world = w }) ])).1
    go none f = f
    go (some w) f = f

-- Where the commands 4 and 5 are registered, and for the size that is the first item of the program's
-- stack the heap has room, the tables of the page directory are different pages, and the process has a
-- free entry and none with the address that the heap allocates: command 4 returns that address and
-- changes only the process's world; when the program then calls command 5 with the address on its stack,
-- the heap's table and the addresses of the process's allocations are as they were before.
pub invoke-free_malloc :
    (code : ℕ → Command) (s : Idt) (m : Machine) (size c free esp : ℕ) (user : Memory)
    → Serves code s 4 isr80h_command4_malloc
    → Serves code s 5 isr80h_command5_free
    → task_get_stack_item m 0 ≡ size
    → HasRoom m.world.kernel size c
    → IsDirectory m.world.pages m.world.process.page_directory
    → free < 1024
    → m.world.process.ptr free ≡ 0
    → ((j : ℕ) → j < 1024 → m.world.process.ptr j ≢ (heap_malloc m.world.kernel.heap size).0)
    → user (esp % word) ≡ (heap_malloc m.world.kernel.heap size).0
    → (w : World) × (invoke code s (pos 4) m
        ≡ ((heap_malloc m.world.kernel.heap size).0, some (record m { world = w })))
      × MachineFreed m.world.kernel.heap.table.entries m.world.process.ptr
          (invoke code s (pos 5) (record m { world = w; esp = esp; user = user })).1
unfolding task_get_stack_item
invoke-free_malloc code s m size c free esp user h4 h5 item room dir lt empty apart top =
    let p = (heap_malloc m.world.kernel.heap size).0 in
    let (w, allocated, freed) =
      process_free-process_malloc m.world size c free room dir lt empty apart in
    let first : user ((esp + 0) % word) ≡ p = ap user (omega arith) ∙ top in
    let after : Machine = record m { world = w; esp = esp; user = user } in
    (
      w,
      invoke-Serves code s 4 isr80h_command4_malloc m h4 (omega arith)
          ∙ ap outcome (malloc_lem m size p w item allocated),
      rw (invoke-Serves code s 5 isr80h_command5_free after h5 (omega arith))
          (free_lem after p m.world.kernel.heap.table.entries m.world.process.ptr first freed),
    )
