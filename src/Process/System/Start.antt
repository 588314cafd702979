-- ===== src/Process/System/Start.antt =====
-- The making of the task of a binary program, of task/task.c.
use mathlib.Core.Path.{subst}
use custom_os.Base.{
  ℕ, ◌+◌, ◌*◌, ◌<◌, ◌≤◌, ◌≡◌, ◌≢◌, refl, ap, ◌∙◌, arith, ◌==◌, if◌then◌else◌, Option, some, none,
  Result, ok, store,
}
use custom_os.Heap.{kzalloc, heap_align_value_to_upper}
use custom_os.Heap.Filling.{Room, kzalloc-Grows}
use custom_os.Heap.Laws.{blocks_for}
use custom_os.Elf.Loading.Refusals.{Grows-some}
use custom_os.Paging.Chunk.{Paging4gbChunk, paging_new_4gb}
use custom_os.Paging.Chunk.Identity.{paging_new_4gb-IsIdentity}
use custom_os.Paging.Mapping.Kept.{IsBehind}
use custom_os.Paging.Slots.{IsDirectory}
use custom_os.Process.Image.{binary}
use custom_os.Process.System.{System, task_joined, new_task}
use custom_os.Task.{task_new}
use custom_os.Task.Save.{initial, task_init, task_init-binary}

blocks_64 : blocks_for 64 ≡ 1
unfolding heap_align_value_to_upper
blocks_64 = refl

-- The task stands in block `c`, with a directory of its own that is named by its chunk.
pub record MakesTask {F : Type 0} (s : System F) (c : ℕ) (out : Option (Result ℕ × System F))
    : Type 0 where
  pub made : Paging4gbChunk
  pub joined :
      out
      ≡ some (
        ok (s.kernel.heap.saddr + c * 4096),
        record s {
          kernel = made.kernel;
          pages = made.pages;
          page_directory = store s.page_directory (s.kernel.heap.saddr + c * 4096) made.chunk;
          tasks = task_new s.tasks (s.kernel.heap.saddr + c * 4096);
          registers =
              λ t. if t == s.kernel.heap.saddr + c * 4096 then initial 0x400000 else s.registers t;
        },
      )
  pub directory : IsDirectory made.pages made.directory_entry
  pub named : made.pages made.chunk ≡ made.directory_entry
  pub behind : IsBehind made.pages made.directory_entry made.chunk
  pub below :
      (a : ℕ) → a < s.kernel.heap.saddr + c * 4096 → (made.kernel).memory a ≡ s.kernel.memory a

module _ {F : Type 0} where
  -- What new_task leaves for the task at `task`.
  abbrev joined_at : System F → Paging4gbChunk → ℕ → Option (Result ℕ × System F)
  joined_at s made task = some (
    ok task,
    record s {
      kernel = made.kernel;
      pages = made.pages;
      page_directory = store s.page_directory task made.chunk;
      tasks = task_new s.tasks task;
      registers = λ t. if t == task then initial 0x400000 else s.registers t;
    },
  )

  task_joined-binary :
      (s : System F) (task d : ℕ)
      → d ≢ 0
      → task_joined s task (task_init d none)
        ≡ some (
          ok task,
          record s {
            tasks = task_new s.tasks task;
            registers = λ t. if t == task then initial 0x400000 else s.registers t;
          },
        )
  unfolding task_joined
  task_joined-binary s task d nz = rw (task_init-binary d nz) refl

  pub new_task-MakesTask :
      (s : System F) (c process p ptr size : ℕ)
      → Room s.kernel c
      → c + 1027 ≤ s.kernel.heap.table.total
      → (s.data_of process).program ≡ some (p, binary ptr size)
      → MakesTask s c (new_task s process)
  unfolding new_task
  new_task-MakesTask s c process p ptr size room fits program =
      let g =
        kzalloc-Grows s.kernel c 64 room (omega arith) (omega arith) (omega (arith, blocks_64)) in
      let k1 = (kzalloc s.kernel 64).1 in
      let next : Room k1 (c + 1) = subst (λ (n : ℕ). Room k1 (c + n)) blocks_64 g.room in
      let out = paging_new_4gb k1 s.pages 5 in
      let is =
        paging_new_4gb-IsIdentity k1 s.pages 5 (c + 1) 0 (omega arith) next.aligned next.somewhere
          next.filled (omega (arith, g.total)) (omega arith) in
      record {
        made = out;
        joined =
            rw (new_task, Grows-some s.kernel c 64 room g, program)
              (task_joined-binary
                  (record s {
                    kernel = out.kernel;
                    pages = out.pages;
                    page_directory = store s.page_directory (kzalloc s.kernel 64).0 out.chunk;
                  })
                  (kzalloc s.kernel 64).0 out.chunk is.somewhere
                ∙ ap (λ (t : ℕ). joined_at s out t) g.address);
        directory = is.directory;
        named = is.chunk;
        behind = is.behind;
        below =
            λ a lt. is.below a (omega (arith, g.saddr)) ∙ (g.bytes a ∙ ground (arith, g.address));
      }
