-- ===== src/Task/Save.antt =====
-- The registers of a task, and their saving on an interrupt: task_save_state and task_init of
-- task/task.c, with `struct registers` of task/task.h and `struct interrupt_frame` of idt/idt.h.
use custom_os.Base.{
  ℕ, ◌%◌, ◌==◌, ◌≡◌, ◌≢◌, refl, if◌then◌else◌, Option, none, some, Result, ok, err, eio, arith,
  false, ==_refl,
}
use custom_os.Task.{Tasks}

-- `struct registers`
pub record Registers : Type 0 where
  pub edi : ℕ
  pub esi : ℕ
  pub ebp : ℕ
  pub ebx : ℕ
  pub edx : ℕ
  pub ecx : ℕ
  pub eax : ℕ
  pub ip : ℕ
  pub cs : ℕ
  pub flags : ℕ
  pub esp : ℕ
  pub ss : ℕ

-- `struct interrupt_frame`
pub record InterruptFrame : Type 0 where
  pub edi : ℕ
  pub esi : ℕ
  pub ebp : ℕ
  pub reserved : ℕ
  pub ebx : ℕ
  pub edx : ℕ
  pub ecx : ℕ
  pub eax : ℕ
  pub ip : ℕ
  pub cs : ℕ
  pub flags : ℕ
  pub esp : ℕ
  pub ss : ℕ

-- The registers of the tasks by their addresses, in the order of the assignments.
pub task_save_state : (ℕ → Registers) → ℕ → InterruptFrame → ℕ → Registers
task_save_state registers task frame t =
    if t == task
    then record (registers t) {
      ip = frame.ip;
      cs = frame.cs;
      flags = frame.flags;
      esp = frame.esp;
      ss = frame.ss;
      eax = frame.eax;
      ebp = frame.ebp;
      ebx = frame.ebx;
      ecx = frame.ecx;
      edi = frame.edi;
      edx = frame.edx;
      esi = frame.esi;
    }
    else registers t

-- `none` is the panic.
pub task_current_save_state : Tasks → (ℕ → Registers) → InterruptFrame → Option (ℕ → Registers)
unfolding task_save_state
task_current_save_state s registers frame =
    if s.current_task == 0 then none else some (task_save_state registers s.current_task frame)

abbrev pub user_data_segment : ℕ
user_data_segment = 0x23

abbrev pub user_code_segment : ℕ
user_code_segment = 0x1b

abbrev pub program_virtual_address : ℕ
program_virtual_address = 0x400000

abbrev pub stack_address : ℕ
stack_address = 0x3FF000

-- The registers of a task that starts at `ip`.
abbrev pub initial : ℕ → Registers
initial ip = record {
  edi = 0;
  esi = 0;
  ebp = 0;
  ebx = 0;
  edx = 0;
  ecx = 0;
  eax = 0;
  ip = ip;
  cs = user_code_segment;
  flags = 0;
  esp = stack_address;
  ss = user_data_segment;
}

-- The registers of a new task; `elf_entry` is the entry of the process's ELF file, for a process that
-- has one, and `page_directory` is what paging_new_4gb returns.
pub task_init : ℕ → Option ℕ → Result Registers
task_init page_directory elf_entry =
    if page_directory == 0
    then err eio
    else ok (initial (elim elf_entry [ none ↦ program_virtual_address | some e ↦ e ]))

-- The frame with which the assembly returns to a task with these registers.
abbrev pub returned : Registers → ℕ → InterruptFrame
returned r reserved = record {
  edi = r.edi;
  esi = r.esi;
  ebp = r.ebp;
  reserved = reserved;
  ebx = r.ebx;
  edx = r.edx;
  ecx = r.ecx;
  eax = r.eax;
  ip = r.ip;
  cs = r.cs;
  flags = r.flags;
  esp = r.esp;
  ss = r.ss;
}

pub task_current_save_state-some :
    (s : Tasks) (registers : ℕ → Registers) (frame : InterruptFrame)
    → s.current_task ≢ 0
    → task_current_save_state s registers frame
      ≡ some (task_save_state registers s.current_task frame)
unfolding task_current_save_state
task_current_save_state-some s registers frame live =
    let has : (s.current_task == 0) ≡ false = ground arith in rw (has, task_current_save_state) refl

pub task_save_state-returned :
    (registers : ℕ → Registers) (t : ℕ) (frame : InterruptFrame)
    → returned (task_save_state registers t frame t) frame.reserved ≡ frame
unfolding task_save_state
task_save_state-returned registers t frame = rw (==_refl t) refl

pub task_save_state-other :
    (registers : ℕ → Registers) (t : ℕ) (frame : InterruptFrame) (other : ℕ)
    → other ≢ t
    → task_save_state registers t frame other ≡ registers other
unfolding task_save_state
task_save_state-other registers t frame other ne =
    let off : (other == t) ≡ false = ground arith in rw off refl

-- Saving the state of a current task puts the registers of the interrupted program in its structure,
-- so that a return to it makes the frame again, and leaves the registers of every other task.
pub task_current_save_state_lem :
    (s : Tasks) (registers : ℕ → Registers) (frame : InterruptFrame) (other : ℕ)
    → s.current_task ≢ 0
    → other ≢ s.current_task
    → (saved : ℕ → Registers) × (task_current_save_state s registers frame ≡ some saved)
      × (returned (saved s.current_task) frame.reserved ≡ frame)
      × (saved other ≡ registers other)
unfolding task_current_save_state
task_current_save_state_lem s registers frame other live ne =
    let has : (s.current_task == 0) ≡ false = ground arith in
    let off : (other == s.current_task) ≡ false = ground arith in
    (
      task_save_state registers s.current_task frame,
      rw (has, task_current_save_state) refl,
      rw (==_refl s.current_task) refl,
      rw off refl,
    )

-- A task without an ELF file starts at the fixed address.
pub task_init-binary : (d : ℕ) → d ≢ 0 → task_init d none ≡ ok (initial program_virtual_address)
unfolding task_init
task_init-binary d nz = let has : (d == 0) ≡ false = ground arith in rw (has, task_init) refl

-- A new task starts in user mode: with the privilege level 3 in both segments, at the entry of its
-- program.
pub task_init-user :
    (d entry : ℕ)
    → d ≢ 0
    → (r : Registers) × (task_init d (some entry) ≡ ok r)
      × (r.cs % 4 ≡ 3)
      × (r.ss % 4 ≡ 3)
      × (r.ip ≡ entry)
unfolding task_init
task_init-user d entry nz =
    let has : (d == 0) ≡ false = ground arith in
    (initial entry, rw (has, task_init) refl, refl, refl, refl)
