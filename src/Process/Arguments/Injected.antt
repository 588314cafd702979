-- ===== src/Process/Arguments/Injected.antt =====
-- What process_inject_arguments of task/process.c leaves for a process without allocations.

use custom_os.Base.{
  ℕ, suc, ◌+◌, ◌*◌, ◌<◌, ◌≤◌, ◌≡◌, refl, sym, ap, ◌∙◌, arith, false, ◌==◌, List, [], ◌∷◌, All,
  length, some, ok,
}
use custom_os.Elf.{u32_at}
use custom_os.Heap.Filling.{Room}
use custom_os.Heap.Laws.{blocks_for, blocks_for_bounds}
use custom_os.Process.{World, process_count_command_arguments, process_malloc}
use custom_os.Process.Arguments.{inject_from, process_inject_arguments}
use custom_os.Process.Arguments.Entries.{process_malloc-Takes}
use custom_os.Process.Arguments.Round.{IsArgument}
use custom_os.Process.Arguments.Rounds.{inject_from-Injects}

count_lem : (args : List (List ℕ)) → process_count_command_arguments args ≡ length args
unfolding process_count_command_arguments
count_lem [] = refl
count_lem (a ∷ args) = ap suc (count_lem args)

-- The array and the loop.
inject_whole :
    (w w1 w2 : World) (args : List (List ℕ)) (argv : ℕ)
    → 0 < length args
    → process_malloc w (4 * length args) ≡ some (argv, w1)
    → (argv == 0) ≡ false
    → inject_from w1 argv 0 args ≡ some (ok tt, w2)
    → process_inject_arguments w args ≡ some (ok (length args, argv), w2)
unfolding process_inject_arguments
inject_whole w w1 w2 args argv some_args took live injected =
    let given : (length args == 0) ≡ false = ground arith in
    rw (process_inject_arguments, count_lem args, given, took, live, injected)
      (ap (λ (n : ℕ). some (ok (n, argv), w2)) (count_lem args))

-- For a process without allocations, and from 1 to 1023 arguments that are terminated strings, on an
-- aligned pool between 0 and 2^31 with enough free blocks behind those that are taken: process_inject_arguments succeeds; argc is the
-- number of the arguments, and argv a new array of the process; its entry for each argument points to
-- 512 bytes of the argument's own, which the process owns too, and which are all 0, as the allocation
-- has left them: none of the arguments is copied, since strncpy stores nothing.
pub process_inject_arguments_lem :
    (w : World) (args : List (List ℕ)) (c : ℕ)
    → Room w.kernel c
    → ((j : ℕ) → w.process.ptr j ≡ 0)
    → 0 < length args
    → length args < 1024
    → c + blocks_for (4 * length args) + length args ≤ w.kernel.heap.table.total
    → All IsArgument args
    → (w' : World) × (argv : ℕ) × (process_inject_arguments w args
        ≡ some (ok (length args, argv), w'))
      × (w'.process.ptr 0 ≡ argv)
      × ((j : ℕ)
          → j < length args
          → u32_at w'.kernel.memory (argv + 4 * j) ≡ w'.process.ptr (1 + j))
      × ((j o : ℕ)
          → j < length args
          → o < 512
          → (w'.kernel).memory (w'.process.ptr (1 + j) + o) ≡ 0)
      × ((i j : ℕ)
          → i < length args
          → j < i
          → w'.process.ptr (1 + j) + 512 ≤ w'.process.ptr (1 + i))
process_inject_arguments_lem w args c room none_owned some_args few fits all =
    let n = length args in
    let size = 4 * n in
    let bounds = blocks_for_bounds size (omega arith) (omega arith) in
    let t =
      process_malloc-Takes w c 0 size room (omega arith) (omega arith) (omega arith)
        (record { used = λ j lt. absurd (omega arith); unused = λ j lo. none_owned j })
        (omega arith) in
    let r =
      inject_from-Injects args t.after t.address 0 (c + blocks_for size) 1 t.grows.room
        (omega (arith, t.grows.total)) t.uses (omega arith)
        (omega (arith, t.at, t.grows.saddr, bounds)) all in
    let live : (t.address == 0) ≡ false = ground (arith, t.at, room.somewhere) in
    let owns = λ (j : ℕ) (lt : j < n). r.owned j lt in
    (
      r.after,
      t.address,
      inject_whole w t.after r.after args t.address (omega arith) t.took live r.done,
      r.kept 0 (omega arith) ∙ t.entry,
      λ j lt.
          ap (λ (q : ℕ). u32_at r.after.kernel.memory (t.address + 4 * q)) (omega arith)
          ∙ (r.pointers j lt ∙ sym (r.owned j lt)),
      λ j o lt less. rw (r.owned j lt) (r.empty j o lt less),
      λ i j lt less. omega (arith, r.owned i lt, r.owned j (omega arith)),
    )
