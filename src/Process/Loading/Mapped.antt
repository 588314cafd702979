-- ===== src/Process/Loading/Mapped.antt =====
-- The end of process_load_for_slot of task/process.c: the mapping of a binary program and its stack in the
-- directory of a new task.

use custom_os.Base.{
  ℕ, ◌+◌, ◌^◌, ◌%◌, ◌<◌, ◌≤◌, ◌≡◌, refl, ap, ◌∙◌, arith, Option, some, none, ok, store, ==_refl,
}
use custom_os.Paging.{paging_get_physical_address}
use custom_os.Paging.Mapping.Kept.{IsBehind}
use custom_os.Paging.Slots.{IsDirectory}
use custom_os.Process.Image.{Filetype, binary, process_map_memory}
use custom_os.Process.Image.Mapped.{process_map_memory-binary, process_map_memory-kept}
use custom_os.Process.Loading.{load_mapped, load_registered}
use custom_os.Process.System.{System, set_data}

-- The page directory of a task.
abbrev pub directory_of : {F : Type 0} → System F → ℕ → ℕ
directory_of s task = s.pages (s.page_directory task)

module _ {F : Type 0} where
  -- The system behind the mapping of the program to `ptr` and of the stack.
  abbrev pub mapped_in : System F → ℕ → ℕ → ℕ → ℕ → ℕ → ℕ → System F
  mapped_in s process slot task ptr size stack =
      record (set_data s process (record (s.data_of process) { task = task })) {
        pages =
            (process_map_memory s.kernel.memory s.pages (directory_of s task) (binary ptr size)
              stack).1;
        processes = record (s.processes) { processes = store s.processes.processes slot process };
      }

  pub load_mapped-binary :
      (s : System F) (process slot task p ptr size stack : ℕ)
      → (s.data_of process).program ≡ some (p, binary ptr size)
      → (s.data_of process).stack ≡ stack
      → (process_map_memory s.kernel.memory s.pages (directory_of s task) (binary ptr size) stack).0
        ≡ ok tt
      → load_mapped s process slot (ok task)
        ≡ some (ok process, mapped_in s process slot task ptr size stack)
  unfolding load_mapped load_registered
  load_mapped-binary s process slot task p ptr size stack program held maps =
      ap
        (λ (o : Option (ℕ × Filetype)). (elim o [
          | none ↦ none
          | some (q, filetype) ↦
              load_registered s process slot task (s.data_of process).stack filetype
        ]))
        program
      ∙ (ap (λ (k : ℕ). load_registered s process slot task k (binary ptr size)) held
          ∙ rw (load_registered, maps) refl)

  -- The task at `task` has the directory `dir`, named by a chunk behind all of its tables.
  pub record HasDirectory (s : System F) (task dir chunk : ℕ) : Type 0 where
    pub at : s.page_directory task ≡ chunk
    pub names : s.pages chunk ≡ dir
    pub directory : IsDirectory s.pages dir
    pub behind : IsBehind s.pages dir chunk

  directory_of-at :
      (s : System F) (task dir chunk : ℕ)
      → HasDirectory s task dir chunk
      → directory_of s task ≡ dir
  directory_of-at s task dir chunk h = ap s.pages h.at ∙ h.names

  module _ (s : System F) (process slot task ptr size stack dir chunk : ℕ)
      (h : HasDirectory s task dir chunk) (page : ptr % 4096 ≡ 0) (low : ptr + size ≤ 2 ^ 31)
      (page' : stack % 4096 ≡ 0) (low' : stack + 16384 ≤ 2 ^ 31) where
    mapped_in-kept : directory_of (mapped_in s process slot task ptr size stack) task ≡ dir
    mapped_in-kept =
        let pages' =
          λ (d : ℕ). (process_map_memory s.kernel.memory s.pages d (binary ptr size) stack).1 in
        ap (λ (d : ℕ). pages' d (s.page_directory task)) (directory_of-at s task dir chunk h)
        ∙ (ap (pages' dir) h.at
            ∙ (process_map_memory-kept s.kernel.memory s.pages dir ptr size stack chunk h.directory
                  page low page' low' h.behind
                ∙ h.names))

    pub mapped_in-physical :
        (i : ℕ)
        → i < size
        → ((process_map_memory s.kernel.memory s.pages
              (directory_of s task)
              (binary ptr size)
              stack).0
            ≡ ok tt)
          × (paging_get_physical_address
                (mapped_in s process slot task ptr size stack).pages
                (directory_of (mapped_in s process slot task ptr size stack) task)
                (0x400000 + i)
              ≡ ptr + i)
    mapped_in-physical i lt =
        let maps =
          process_map_memory-binary s.kernel.memory s.pages dir ptr size stack (0x400000 + i)
            0x3FB000 h.directory page low page' low' (omega arith) (omega arith) (omega arith)
            (omega arith) in
        rw (mapped_in-kept, directory_of-at s task dir chunk h) (maps.0, maps.1 ∙ omega arith)

    pub mapped_in-task :
        ((mapped_in s process slot task ptr size stack).data_of process).task ≡ task
    mapped_in-task = rw (==_refl process) refl
