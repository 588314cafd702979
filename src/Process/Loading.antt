-- ===== src/Process/Loading.antt =====
-- The loading of a program into a new process, of task/process.c: process_load_switch down to the ELF
-- and the binary loader, over the calls of the files.
pub mod Stack
pub mod Mapped
pub mod Missing
mod Tests
use custom_os.Base.{
  ℕ, ◌==◌, if◌then◌else◌, List, Memory, store, Option, none, some, Result, ok, err, Errno, eio,
  einvarg, enomem, ebadpath, efsnotus, erdonly, eunimp, eistkn, einformat, Bool, true, false, not,
}
use custom_os.Base.Int.{pos}
use custom_os.Elf.Loading.{elf_load, free_some}
use custom_os.File.Calls.{FileCalls, mode_r}
use custom_os.Heap.{Kernel, kzalloc}
use custom_os.Process.{process_get, process_get_free_slot, process_switch}
use custom_os.Process.Image.{Filetype, binary, elf, user_program_stack_size, process_map_memory}
use custom_os.Process.System.{
  System, ProcessData, process_init, process_size, set_data, new_task, process_free_process,
}
use custom_os.Text.{strncpy}

-- `res == -EINFORMAT`
abbrev pub is_einformat : Errno → Bool
is_einformat einformat = true
is_einformat other = false

-- What a call leaves: its result, and the system.
abbrev pub Answer : Type 0 → Type 0 → Type 0
Answer F A = Option (Result A × System F)

module _ {F : Type 0} where
  -- `out` of process_load_for_slot behind an error.
  pub load_fails : Errno → System F → ℕ → Answer F ℕ
  load_fails e s process = elim (process_free_process s process) [
    | none ↦ none
    | some s' ↦ some (err e, s')
  ]

  -- The mapping of the program `filetype` and the `stack` of the process with the task, and the entry in
  -- the table.
  pub load_registered : System F → ℕ → ℕ → ℕ → ℕ → Filetype → Answer F ℕ
  unfolding load_fails
  load_registered s process slot task stack filetype =
      let s1 = set_data s process (record (s.data_of process) { task = task }) in
      let (res, pages') =
        process_map_memory s.kernel.memory s.pages (s.pages (s.page_directory task)) filetype
          stack in
      let s2 : System F = record s1 { pages = pages' } in
      elim res [
        | err e ↦ load_fails e s2 process
        | ok _ ↦ some (
          ok process,
          record s2 {
            processes = record (s.processes) {
              processes = store s.processes.processes slot process;
            };
          },
        )
      ]

  -- The part behind the making of the task `task`: an error of task_new is not noticed, and its value is
  -- then followed as a pointer. `none` is that too.
  pub load_mapped : System F → ℕ → ℕ → Result ℕ → Answer F ℕ
  unfolding load_registered
  load_mapped s process slot (err e) = none
  load_mapped s process slot (ok task) = elim (s.data_of process).program [
    | none ↦ none
    | some (p, filetype) ↦ load_registered s process slot task (s.data_of process).stack filetype
  ]

  -- The part behind the loading of the program: the stack, the name, the id and the task.
  pub load_stack : System F → ℕ → ℕ → List ℕ → ℕ × Filetype → Answer F ℕ
  unfolding load_fails load_mapped
  load_stack s process slot filename program =
      let (stack, k1) = kzalloc s.kernel user_program_stack_size in
      let d = s.data_of process in
      let s1 =
        set_data (record s { kernel = k1 }) process
          (record d { program = some program; stack = stack }) in
      if stack == 0 then load_fails enomem s1 process else elim (strncpy d.filename filename 108) [
        | none ↦ none
        | some name ↦
            let named = record (s1.data_of process) { filename = name } in
            let s2 = set_data s1 process named in
            let s3 : System F = record s2 {
              processes = record (s.processes) { id = store s.processes.id process slot };
            } in
            elim (new_task s3 process) [
              | none ↦ none
              | some (res, s4) ↦ load_mapped s4 process slot res
            ]
      ]

module _ {F : Type 0} (calls : FileCalls F) where
  -- `out` of process_load_binary: the descriptor is closed with the result.
  pub binary_closed : Result (ℕ × Filetype) → System F → ℕ → Answer F (ℕ × Filetype)
  binary_closed res s fd = elim (calls.fclose s.files s.kernel fd) [
    | none ↦ none
    | some (k, files) ↦ some (res, record s { kernel = k; files = files })
  ]

  -- `out` behind an error: the data are freed where they have been allocated.
  pub binary_fails : Errno → System F → ℕ → ℕ → Answer F (ℕ × Filetype)
  unfolding binary_closed
  binary_fails e s program_data_ptr fd = elim (free_some s.kernel program_data_ptr) [
    | none ↦ none
    | some k ↦ binary_closed (err e) (record s { kernel = k }) fd
  ]

  -- The part behind fread, with what fread returns.
  pub binary_done : System F → ℕ → ℕ → ℕ → Option (Result ℕ × Kernel × F) → Answer F (ℕ × Filetype)
  unfolding binary_fails binary_closed
  binary_done s ptr filesize fd none = none
  binary_done s ptr filesize fd (some (err e, k, files)) =
      binary_fails eio (record s { kernel = k; files = files }) ptr fd
  binary_done s ptr filesize fd (some (ok n, k, files)) =
      let s1 : System F = record s { kernel = k; files = files } in
      if n == 1
      then binary_closed (ok (ptr, binary ptr filesize)) s1 fd
      else binary_fails eio s1 ptr fd

  -- The part behind fstat.
  pub binary_read : System F → ℕ → ℕ → Answer F (ℕ × Filetype)
  unfolding binary_fails binary_done
  binary_read s filesize fd =
      let (ptr, k1) = kzalloc s.kernel filesize in
      let s1 : System F = record s { kernel = k1 } in
      if ptr == 0
      then binary_fails enomem s1 0 fd
      else binary_done s1 ptr filesize fd (calls.fread s.files k1 ptr filesize 1 fd)

  pub process_load_binary : System F → List ℕ → Answer F (ℕ × Filetype)
  unfolding binary_fails binary_read
  process_load_binary s filename = elim (calls.fopen s.files s.kernel filename mode_r) [
    | none ↦ none
    | some (fd, k, files) ↦
        let s1 : System F = record s { kernel = k; files = files } in
        if fd == 0 then binary_fails eio s1 0 fd else elim (calls.fstat files k fd) [
          | none ↦ none
          | some stat ↦ elim stat [
            | err e ↦ binary_fails e s1 0 fd
            | ok filesize ↦ binary_read s1 filesize fd
          ]
        ]
  ]

  pub process_load_elf : System F → List ℕ → Answer F (ℕ × Filetype)
  process_load_elf s filename = elim (elf_load calls s.kernel s.files filename) [
    | none ↦ none
    | some (res, k, files') ↦
        let s1 : System F = record s { kernel = k; files = files' } in
        elim res [ err e ↦ some (err e, s1) | ok (p, file) ↦ some (ok (p, elf file), s1) ]
  ]

  pub process_load_data : System F → List ℕ → Answer F (ℕ × Filetype)
  unfolding process_load_elf process_load_binary
  process_load_data s filename = elim (process_load_elf s filename) [
    | none ↦ none
    | some (res, s1) ↦ elim res [
      | ok p ↦ some (ok p, s1)
      | err e ↦ if is_einformat e then process_load_binary s1 filename else some (err e, s1)
    ]
  ]

  -- The address of the process. `none` is also the freeing of the pointer that is not set where the slot
  -- is taken.
  pub process_load_for_slot : System F → List ℕ → ℕ → Answer F ℕ
  unfolding load_fails load_stack process_load_data
  process_load_for_slot s filename slot =
      let (process, k1) = kzalloc s.kernel process_size in
      let s1 = set_data (record s { kernel = k1 }) process process_init in
      if not (process_get s.processes (pos slot) == 0)
      then none
      else if process == 0
      then some (err enomem, record s { kernel = k1 })
      else elim (process_load_data s1 filename) [
        | none ↦ none
        | some (res, s2) ↦ elim res [
          | err e ↦ load_fails e s2 process
          | ok program ↦ load_stack s2 process slot filename program
        ]
      ]

  pub process_load : System F → List ℕ → Answer F ℕ
  unfolding process_load_for_slot
  process_load s filename = elim (process_get_free_slot s.processes) [
    | err e ↦ some (err eistkn, s)
    | ok slot ↦ process_load_for_slot s filename slot
  ]

  pub process_load_switch : System F → List ℕ → Answer F ℕ
  unfolding process_load
  process_load_switch s filename = elim (process_load s filename) [
    | none ↦ none
    | some (res, s') ↦ elim res [
      | err e ↦ some (err e, s')
      | ok process ↦
          some (ok process, record s' { processes = process_switch s'.processes process })
    ]
  ]
