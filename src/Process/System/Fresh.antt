-- ===== src/Process/System/Fresh.antt =====
-- The freeing of a process that has nothing yet, by process_free_process of task/process.c.
use custom_os.Base.{ℕ, zero, suc, ◌+◌, ◌≡◌, refl, arith, ◌==◌, Option, some, none, true}
use custom_os.Elf.Loading.{free_some}
use custom_os.Heap.{Kernel, kfree}
use custom_os.Process.{World, process_terminate_allocations, terminate_from}
use custom_os.Process.System.{
  System, ProcessData, world_of, process_free_program_data, free_rest, process_free_process,
}

terminate_from-none :
    (w : World) (n i : ℕ) → ((j : ℕ) → w.process.ptr j ≡ 0) → terminate_from w n i ≡ some w
unfolding terminate_from
terminate_from-none w zero i zeros = refl
terminate_from-none w (suc n) i zeros =
    let empty : (w.process.ptr i == 0) ≡ true = ground (arith, zeros i) in
    rw (terminate_from, empty) (terminate_from-none w n (i + 1) zeros)

terminate_allocations-none :
    (w : World) → ((j : ℕ) → w.process.ptr j ≡ 0) → process_terminate_allocations w ≡ some w
unfolding process_terminate_allocations
terminate_allocations-none w zeros = terminate_from-none w 1024 0 zeros

-- The kernel is `k`, and the rest is that of `s`.
abbrev pub Leaves : {F : Type 0} → System F → Kernel → Option (System F) → Type 0
Leaves s k none = ⊥
Leaves s k (some s') =
    (s'.kernel ≡ k) × (s'.processes ≡ s.processes) × (s'.tasks ≡ s.tasks) × (s'.pages ≡ s.pages)

-- A process without allocations, program, stack and task.
pub record IsBlank (d : ProcessData) : Type 0 where
  pub allocations : (j : ℕ) → d.ptr j ≡ 0
  pub program : d.program ≡ none
  pub stack : d.stack ≡ 0
  pub task : d.task ≡ 0

pub process_free_process-Leaves :
    {F : Type 0} (s : System F) (process : ℕ) (k : Kernel)
    → IsBlank (s.data_of process)
    → kfree s.kernel process ≡ some k
    → Leaves s k (process_free_process s process)
unfolding process_free_process process_free_program_data free_rest free_some
process_free_process-Leaves s process k blank frees =
    rw
      (
        process_free_process,
        terminate_allocations-none (world_of s process) blank.allocations,
        blank.program,
        free_rest,
        blank.stack,
        blank.task,
        frees,
      )
      (refl, refl, refl, refl)
