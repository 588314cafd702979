-- ===== src/Process/Lifetime.antt =====
-- The memory of a process from process_malloc to process_free, of task/process.c.
use custom_os.Base.{
  ℕ, ◌+◌, ◌-◌, ◌/◌, ◌%◌, ◌^◌, ◌<◌, ◌≤◌, ◌≡◌, ◌≢◌, ◌∙◌, inl, inr, refl, false, Memory, store,
  store_self, store_ne, sym, ◌==◌, if◌then◌else◌, arith, Bool-cases, ap, ==_iff, Option, none, some,
  ok,
}
use custom_os.Heap.{Kernel, kzalloc, kfree, heap_malloc}
use custom_os.Heap.Search.{IsRun}
use custom_os.Heap.Laws.{IsLow, IsClean, blocks_for, heap_malloc-Reserves, heap_free-heap_malloc}
use custom_os.Heap.KernelHeap.{KernelFreesTo, kzalloc-heap, kfree-FreesTo}
use custom_os.Paging.{paging_map_to}
use custom_os.Paging.Slots.{IsDirectory, align_bounds}
use custom_os.Paging.Mapping.{IsRange, paging_map_to-Maps}
use custom_os.Process.{
  Process, World, process_find_free_allocation_index, process_get_allocation_by_addr,
  process_allocation_unjoin, process_malloc, process_free, join, release, end_of,
}
use custom_os.Process.Allocations.{find-cases, process_allocation_unjoin_lem}

-- The pages of an allocation lie in the address space.
pages_fit :
    (p size : ℕ)
    → p % 4096 ≡ 0
    → p + size ≤ 2 ^ 31
    → (end_of p size % 4096 ≡ 0)
      × (p ≤ end_of p size)
      × (end_of p size < 2 ^ 32)
      × IsRange p ((end_of p size - p) / 4096)
pages_fit p size aligned low =
    let bounds = align_bounds ((p + size) % 2 ^ 32) (omega arith) in
    (bounds.0, omega (arith, bounds), omega (arith, bounds), (aligned, omega (arith, bounds)))

maps_range :
    (m : Memory) (dir p size flags : ℕ)
    → IsDirectory m dir
    → p % 4096 ≡ 0
    → p + size ≤ 2 ^ 31
    → ((paging_map_to m dir p p (end_of p size) flags).0 ≡ ok tt)
      × IsDirectory (paging_map_to m dir p p (end_of p size) flags).1 dir
maps_range m dir p size flags is aligned low =
    let r = pages_fit p size aligned low in
    let maps =
      paging_map_to-Maps m dir p p (end_of p size) flags 0 is r.3 aligned r.0 r.1 r.2 refl
        (omega arith) in
    (maps.succeeds, maps.directory)

-- The world with the heap behind kzalloc.
abbrev pub after_kzalloc : World → ℕ → World
after_kzalloc w size = record w { kernel = (kzalloc w.kernel size).1 }

free_index :
    (p : Process) (c : ℕ)
    → c < 1024
    → p.ptr c ≡ 0
    → (i : ℕ) × (process_find_free_allocation_index p ≡ ok i) × (i < 1024) × (p.ptr i ≡ 0)
unfolding process_find_free_allocation_index
free_index p c lt free = elim (find-cases p.ptr 0 1024 0) [
  | inl (e, all) ↦ absurd (all c (omega arith) lt free)
  | inr (i, e, first) ↦ (i, rw (e, process_find_free_allocation_index) refl, first.1, first.2)
]

pub malloc_eq :
    (w : World) (size i : ℕ)
    → (kzalloc w.kernel size).0 ≢ 0
    → process_find_free_allocation_index w.process ≡ ok i
    → process_malloc w size
      ≡ some
          ((kzalloc w.kernel size).0, join (after_kzalloc w size) i (kzalloc w.kernel size).0 size)
unfolding process_malloc
malloc_eq w size i nz found =
    let got : ((kzalloc w.kernel size).0 == 0) ≡ false = ground arith in
    rw (got, found, process_malloc) refl

allocation_at :
    (p : Process) (x i : ℕ)
    → i < 1024
    → p.ptr i ≡ x
    → ((j : ℕ) → j < 1024 → j ≢ i → p.ptr j ≢ x)
    → process_get_allocation_by_addr p x ≡ some i
unfolding process_get_allocation_by_addr
allocation_at p x i lt at apart = elim (find-cases p.ptr x 1024 0) [
  | inl (e, away) ↦ absurd (away i (omega arith) lt at)
  | inr (j, e, first) ↦ elim (Bool-cases (j == i)) [
    | inl same ↦ let s : j ≡ i = (==_iff j i).0 same in e ∙ ap some s
    | inr other ↦ absurd (apart j first.1 (ground arith) first.2)
  ]
]

-- The world behind a process_free that succeeds has the heap's table `m` and the addresses `ptr`.
abbrev pub Freed : Memory → Memory → Option World → Type 0
Freed m ptr none = ⊥
Freed m ptr (some w) =
    ((j : ℕ) → w.kernel.heap.table.entries j ≡ m j) × ((j : ℕ) → j < 1024 → w.process.ptr j ≡ ptr j)

release-Freed :
    (w : World) (m ptr : Memory) (p i : ℕ)
    → (paging_map_to w.pages w.process.page_directory
        (w.process.ptr i)
        (w.process.ptr i)
        (end_of (w.process.ptr i) (w.process.size i))
        0).0
      ≡ ok tt
    → KernelFreesTo m (kfree w.kernel p)
    → ((j : ℕ) → j < 1024 → (if w.process.ptr j == p then 0 else w.process.ptr j) ≡ ptr j)
    → Freed m ptr (release w p i)
unfolding release
release-Freed w m ptr p i maps frees restored = rw (maps, release) (go (kfree w.kernel p) frees)
  where
    pages : Memory
    pages =
        (paging_map_to w.pages w.process.page_directory (w.process.ptr i) (w.process.ptr i)
          (end_of (w.process.ptr i) (w.process.size i)) 0).1

    go :
        (r : Option Kernel)
        → KernelFreesTo m r
        → Freed m ptr (elim r [
          | none ↦ none
          | some k ↦ some (record {
            kernel = k;
            pages = pages;
            process = process_allocation_unjoin w.process p;
          })
        ])
    go none f = f
    go (some k) f = (f, λ j lt. (process_allocation_unjoin_lem w.process p j lt).0 ∙ restored j lt)

-- The kernel's heap has an aligned pool other than at 0, low in the address space, no entry of a free
-- block but 0, and enough free blocks in a row for the size.
pub record HasRoom (k : Kernel) (size c : ℕ) : Type 0 where
  pub low : IsLow k.heap
  pub clean : IsClean k.heap
  pub aligned : k.heap.saddr % 4096 ≡ 0
  pub somewhere : 0 < k.heap.saddr
  pub asked : 0 < size
  pub fits : size ≤ 2 ^ 32 - 4096
  pub run : IsRun k.heap.table.entries k.heap.table.total c (blocks_for size)

pub address_lem :
    (k : Kernel) (size c : ℕ)
    → HasRoom k size c
    → ((heap_malloc k.heap size).0 ≢ 0)
      × ((heap_malloc k.heap size).0 % 4096 ≡ 0)
      × ((heap_malloc k.heap size).0 + size ≤ 2 ^ 31)
address_lem k size c r =
    let (held, (b, is)) = heap_malloc-Reserves k.heap size c r.low r.asked r.fits r.run in
    (
      omega (arith, is.address, r.somewhere),
      omega (arith, is.address, r.aligned),
      omega (arith, is.address, is.run.fits, held, r.low),
    )

restored :
    (q : Memory) (i p j : ℕ)
    → q i ≡ 0
    → q j ≢ p
    → (if store q i p j == p then 0 else store q i p j) ≡ q j
restored q i p j clear apart = ground arith

-- process_free of the address that has been joined as entry `i`.
free_joined :
    (w : World) (size i p : ℕ)
    → i < 1024
    → w.process.ptr i ≡ 0
    → ((j : ℕ) → j < 1024 → w.process.ptr j ≢ p)
    → IsDirectory w.pages w.process.page_directory
    → p % 4096 ≡ 0
    → p + size ≤ 2 ^ 31
    → KernelFreesTo w.kernel.heap.table.entries (kfree (kzalloc w.kernel size).1 p)
    → Freed w.kernel.heap.table.entries w.process.ptr
        (process_free (join (after_kzalloc w size) i p size) p)
unfolding process_free join
free_joined w size i p below clear apart dir aligned low frees =
    let w2 = join (after_kzalloc w size) i p size in
    let at : w2.process.ptr i ≡ p = store_self w.process.ptr i p in
    let held : w2.process.size i ≡ size = store_self w.process.size i size in
    let located =
      allocation_at w2.process p i below at
        (λ j lt ne. rw (store_ne w.process.ptr i j p (λ e. ne (sym e))) (apart j lt)) in
    let mapped = maps_range w.pages w.process.page_directory p size 7 dir aligned low in
    let unmapped = maps_range w2.pages w.process.page_directory p size 0 mapped.1 aligned low in
    rw (located, process_free)
      (release-Freed w2 w.kernel.heap.table.entries w.process.ptr p i
        (rw (store_self w.process.ptr i p, store_self w.process.size i size) unmapped.0) frees
        (λ j lt. restored w.process.ptr i p j clear (apart j lt)))

-- Where the heap has room for the size, the tables of the page directory are different pages, the
-- process has a free entry and no entry with the address that is allocated, process_malloc returns
-- that address and process_free of it then succeeds: the heap's table and the addresses of the
-- process's allocations are as they were before.
pub process_free-process_malloc :
    (w : World) (size c free : ℕ)
    → HasRoom w.kernel size c
    → IsDirectory w.pages w.process.page_directory
    → free < 1024
    → w.process.ptr free ≡ 0
    → ((j : ℕ) → j < 1024 → w.process.ptr j ≢ (heap_malloc w.kernel.heap size).0)
    → (w' : World) × (process_malloc w size ≡ some ((heap_malloc w.kernel.heap size).0, w'))
      × Freed w.kernel.heap.table.entries w.process.ptr
          (process_free w' (heap_malloc w.kernel.heap size).0)
process_free-process_malloc w size c free room dir lt empty apart =
    let p = (heap_malloc w.kernel.heap size).0 in
    let (nz, aligned, low) = address_lem w.kernel size c room in
    let z = kzalloc-heap w.kernel size nz in
    let (i, found, below, clear) = free_index w.process free lt empty in
    let frees =
      heap_free-heap_malloc w.kernel.heap size c room.low room.clean room.asked room.fits
        room.run in
    (
      join (after_kzalloc w size) i p size,
      malloc_eq w size i (rw z.0 nz) found
          ∙ ap (λ (q : ℕ). some (q, join (after_kzalloc w size) i q size)) z.0,
      free_joined w size i p below clear apart dir aligned low
          (kfree-FreesTo (kzalloc w.kernel size).1 w.kernel.heap.table.entries p (rw z.1 frees)),
    )
