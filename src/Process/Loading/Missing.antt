-- ===== src/Process/Loading/Missing.antt =====
-- process_load of task/process.c on a name that cannot be opened.
use mathlib.Core.Path.{subst}
use custom_os.Base.{
  ℕ, ◌+◌, ◌<◌, ◌≤◌, ◌≡◌, refl, false, sym, ap, ◌∙◌, arith, inl, inr, ◌==◌, List, ◌∷◌, ◌++◌, Option,
  some, none, err, ok, Errno, eio, ==_refl,
}
use custom_os.Base.Int.{pos}
use custom_os.Elf.Loading.{elf_load}
use custom_os.Elf.Loading.Refusals.{Grows-some, CannotOpen, elf_load-missing}
use custom_os.File.{Files}
use custom_os.File.Calls.{FileCalls, mode_r}
use custom_os.File.OnHeap.{Filesystem, file_calls}
use custom_os.File.OnHeap.Refused.{fopen_on_heap-refused, fclose-zero}
use custom_os.Heap.{Kernel, kzalloc, heap_align_value_to_upper}
use custom_os.Heap.Filling.{Room, kzalloc-Grows}
use custom_os.Heap.Laws.{blocks_for}
use custom_os.PathParser.{Parts}
use custom_os.PathParser.OnHeap.Refused.{IsRefused}
use custom_os.Process.{Processes, process_get, process_get_free_slot}
use custom_os.Process.Allocations.{process_get_free_slot_lem}
use custom_os.Process.Loading.{
  Answer, load_fails, process_load_elf, process_load_data, process_load_for_slot, process_load,
}
use custom_os.Process.System.{System, process_init, set_data, process_free_process}
use custom_os.Process.System.Fresh.{Leaves, IsBlank, process_free_process-Leaves}
use custom_os.Text.Length.{NoZero}

-- The call fails with the error, and leaves the heap, the tables of processes and tasks and the words of
-- the pages.
abbrev pub FailsWith : {F : Type 0} → Errno → System F → Answer F ℕ → Type 0
FailsWith e s none = ⊥
FailsWith e s (some (res, s')) =
    (res ≡ err e)
    × (s'.kernel.heap ≡ s.kernel.heap)
    × (s'.processes ≡ s.processes)
    × (s'.tasks ≡ s.tasks)
    × (s'.pages ≡ s.pages)

blocks_9364 : blocks_for 9364 ≡ 3
unfolding heap_align_value_to_upper
blocks_9364 = refl

process_get-slot :
    (s : Processes) (slot : ℕ) → slot < 12 → process_get s (pos slot) ≡ s.processes slot
unfolding process_get
process_get-slot s slot lt = ground arith

module _ {F : Type 0} (calls : FileCalls F) where
  load-slot :
      (s : System F) (filename : List ℕ) (slot : ℕ)
      → process_get_free_slot s.processes ≡ ok slot
      → process_load calls s filename ≡ process_load_for_slot calls s filename slot
  unfolding process_load
  load-slot s filename slot e = rw (process_load, e) refl

  -- The system behind the allocation of the process at `p`.
  abbrev allocated : System F → Kernel → ℕ → System F
  allocated s k1 p = set_data (record s { kernel = k1 }) p process_init

  load_data-missing :
      (s : System F) (filename : List ℕ) (k : Kernel) (files : F)
      → elf_load calls s.kernel s.files filename ≡ some (err eio, k, files)
      → process_load_data calls s filename ≡ some (err eio, record s { kernel = k; files = files })
  unfolding process_load_data process_load_elf
  load_data-missing s filename k files e = rw (process_load_data, process_load_elf, e) refl

  load_fails-FailsWith :
      (e : Errno) (s s2 : System F) (process : ℕ) (k : Kernel)
      → k.heap ≡ s.kernel.heap
      → s2.processes ≡ s.processes
      → s2.tasks ≡ s.tasks
      → s2.pages ≡ s.pages
      → Leaves s2 k (process_free_process s2 process)
      → FailsWith e s (load_fails e s2 process)
  unfolding load_fails
  load_fails-FailsWith e s s2 process k heap processes tasks pages leaves =
      go (process_free_process s2 process) leaves
    where
      go :
          (r : Option (System F))
          → Leaves s2 k r
          → FailsWith e s (elim r [ none ↦ none | some s' ↦ some (err e, s') ])
      go none h = h
      go (some s') (a, b, c, d) =
          (refl, ap (λ (x : Kernel). x.heap) a ∙ heap, b ∙ processes, c ∙ tasks, d ∙ pages)

  load_for_slot-failed :
      (s s2 : System F) (filename : List ℕ) (slot : ℕ) (e : Errno)
      → ((kzalloc s.kernel 9364).0 == 0) ≡ false
      → process_get s.processes (pos slot) ≡ 0
      → process_load_data calls
          (allocated s (kzalloc s.kernel 9364).1 (kzalloc s.kernel 9364).0)
          filename
        ≡ some (err e, s2)
      → process_load_for_slot calls s filename slot ≡ load_fails e s2 (kzalloc s.kernel 9364).0
  unfolding process_load_for_slot
  load_for_slot-failed s s2 filename slot e nz free loads =
      rw (process_load_for_slot, nz, free, loads) refl

  process_load_for_slot-FailsWith :
      (s : System F) (filename : List ℕ) (c slot : ℕ)
      → Room s.kernel c
      → c + 4 ≤ s.kernel.heap.table.total
      → process_get s.processes (pos slot) ≡ 0
      → CannotOpen calls s.files filename
      → FailsWith eio s (process_load_for_slot calls s filename slot)
  process_load_for_slot-FailsWith s filename c slot room fits free missing =
      let g =
        kzalloc-Grows s.kernel c 9364 room (omega arith) (omega arith)
          (omega (arith, blocks_9364)) in
      let p = (kzalloc s.kernel 9364).0 in
      let k1 = (kzalloc s.kernel 9364).1 in
      let s1 = allocated s k1 p in
      let room1 : Room k1 (c + 3) = subst (λ (b : ℕ). Room k1 (c + b)) blocks_9364 g.room in
      let m = (kzalloc k1 132).1.memory in
      let k2 : Kernel = record k1 { memory = m } in
      let s2 : System F = record s1 { kernel = k2 } in
      let loads = load_data-missing s1 filename k2 s.files (
        elf_load-missing calls k1 s.files filename (c + 3) room1 (omega (arith, g.total))
          missing) in
      let fresh : s2.data_of p ≡ process_init = rw (==_refl p) refl in
      let blank : IsBlank (s2.data_of p) =
        subst IsBlank (sym fresh)
          (record { allocations = λ j. refl; program = refl; stack = refl; task = refl }) in
      let k : Kernel = record (s.kernel) { memory = m } in
      rw
        (load_for_slot-failed s s2 filename slot eio (Grows-some s.kernel c 9364 room g) free loads)
        (load_fails-FailsWith eio s s2 p k refl refl refl refl
          (process_free_process-Leaves s2 p k blank (g.back m)))

-- For a terminated name that is longer than 108 characters or does not start with the number of a drive,
-- a digit and ":/", on an aligned pool between 0 and 2^31 that is filled up to a block from which on
-- four blocks are free, and with a free slot for processes: process_load over the program's own fopen
-- and fclose fails with -EIO, and the heap, the table of processes, the list of tasks and the page tables
-- are as they were before: the structures of the process and of the ELF file, which it has allocated,
-- are freed again.
pub process_load-FailsWith :
    (filesystem : Option Filesystem) (parts : Parts) (s : System Files) (name rest : List ℕ)
    (c slot : ℕ)
    → NoZero name
    → IsRefused name
    → Room s.kernel c
    → c + 4 ≤ s.kernel.heap.table.total
    → slot < 12
    → s.processes.processes slot ≡ 0
    → FailsWith eio s (process_load (file_calls filesystem parts) s (name ++ 0 ∷ rest))
process_load-FailsWith filesystem parts s name rest c slot terminated refused room fits lt free =
    let calls = file_calls filesystem parts in
    let filename = name ++ 0 ∷ rest in
    let missing : CannotOpen calls s.files filename = record {
      opens =
          λ k. fopen_on_heap-refused filesystem parts s.files k name rest mode_r terminated refused;
      closes = λ k. fclose-zero filesystem parts s.files k;
    } in
    elim (process_get_free_slot_lem s.processes) [
      | inl (e, taken) ↦ absurd (taken slot lt free)
      | inr (j, e, first) ↦ rw (load-slot calls s filename j e) (
          process_load_for_slot-FailsWith calls s filename c j room fits
            (process_get-slot s.processes j (omega (arith, first.1)) ∙ first.2) missing)
    ]
