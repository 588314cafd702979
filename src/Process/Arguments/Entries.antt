-- ===== src/Process/Arguments/Entries.antt =====
-- process_malloc of task/process.c for a process whose first allocations are in use.

use custom_os.Base.{
  ℕ, ◌+◌, ◌-◌, ◌*◌, ◌^◌, ◌<◌, ◌≤◌, ◌≡◌, ◌≢◌, ap, arith, inl, inr, false, ◌==◌, some, ok, Bool-cases,
  store_self, store_ne,
}
use custom_os.Heap.{kzalloc}
use custom_os.Heap.Filling.{Room, Grows, kzalloc-Grows}
use custom_os.Heap.Laws.{blocks_for}
use custom_os.Process.{World, Process, process_malloc, process_find_free_allocation_index, join}
use custom_os.Process.Allocations.{find-cases}
use custom_os.Process.Lifetime.{after_kzalloc, malloc_eq}

-- The first `k` entries of the allocations are in use, and the others are free.
pub record Uses (p : Process) (k : ℕ) : Type 0 where
  pub used : (j : ℕ) → j < k → p.ptr j ≢ 0
  pub unused : (j : ℕ) → k ≤ j → p.ptr j ≡ 0

free_entry :
    (p : Process) (k : ℕ) → Uses p k → k < 1024 → process_find_free_allocation_index p ≡ ok k
unfolding process_find_free_allocation_index
free_entry p k u lt = elim (find-cases p.ptr 0 1024 0) [
  | inl (e, all) ↦ absurd (all k (omega arith) lt (u.unused k (omega arith)))
  | inr (i, e, first) ↦ elim (Bool-cases (i == k)) [
    | inl same ↦
        let s : i ≡ k = ground arith in rw (e, process_find_free_allocation_index) (ap ok s)
    | inr other ↦ absurd (misplaced i first other)
  ]
]
  where
    misplaced :
        (i : ℕ)
        → (0 ≤ i) × (i < 1024) × (p.ptr i ≡ 0) × ((j : ℕ) → 0 ≤ j → j < i → p.ptr j ≢ 0)
        → (i == k) ≡ false
        → ⊥
    misplaced i first other = ground (arith, u.used i, u.unused k, first.3 k)

-- process_malloc with a free entry: the next blocks, which are zeroed, and the next entry.
pub record Takes (w : World) (c k size : ℕ) : Type 0 where
  pub address : ℕ
  pub after : World
  pub took : process_malloc w size ≡ some (address, after)
  pub at : address ≡ w.kernel.heap.saddr + c * 4096
  pub grows : Grows w.kernel c size (address, after.kernel)
  pub uses : Uses after.process (k + 1)
  pub entry : after.process.ptr k ≡ address
  pub others : (j : ℕ) → j < k → after.process.ptr j ≡ w.process.ptr j

pub process_malloc-Takes :
    (w : World) (c k size : ℕ)
    → Room w.kernel c
    → 0 < size
    → size ≤ 2 ^ 32 - 4096
    → c + blocks_for size ≤ w.kernel.heap.table.total
    → Uses w.process k
    → k < 1024
    → Takes w c k size
unfolding join
process_malloc-Takes w c k size room nz small fits u lt =
    let g = kzalloc-Grows w.kernel c size room nz small fits in
    let p = (kzalloc w.kernel size).0 in
    let some_address : p ≢ 0 = λ e. omega (arith, e, g.address, room.somewhere) in
    record {
      address = p;
      after = join (after_kzalloc w size) k p size;
      took = malloc_eq w size k some_address (free_entry w.process k u lt);
      at = g.address;
      grows = g;
      uses = record {
        used = λ j less. ground (arith, u.used j);
        unused = λ j more. ground (arith, u.unused j);
      };
      entry = store_self w.process.ptr k p;
      others = λ j less. store_ne w.process.ptr k j p (omega arith);
    }
