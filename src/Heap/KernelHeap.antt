-- ===== src/Heap/KernelHeap.antt =====
-- The kernel's instance of the heap, memory/heap/kheap.c, over heap_malloc and heap_free.
use custom_os.Base.{
  ℕ, ◌≡◌, ◌≢◌, ◌==◌, if◌then◌else◌, refl, false, Memory, Option, none, some, arith,
}
use custom_os.Heap.{Heap, Kernel, heap_malloc, heap_free, kmalloc, kzalloc, kfree}
use custom_os.Heap.Laws.{FreesTo}
use custom_os.Memory.Laws.{inside, memset_lem}

-- Where heap_malloc returns an address, kzalloc returns it too and leaves the same heap.
pub kzalloc-heap :
    (k : Kernel) (size : ℕ)
    → (heap_malloc k.heap size).0 ≢ 0
    → ((kzalloc k size).0 ≡ (heap_malloc k.heap size).0)
      × ((kzalloc k size).1.heap ≡ (heap_malloc k.heap size).1)
unfolding kzalloc kmalloc
kzalloc-heap k size nz =
    let got : ((heap_malloc k.heap size).0 == 0) ≡ false = ground arith in
    (rw got refl, rw got refl)

-- The bytes behind kzalloc are 0 where it has allocated them.
pub kzalloc-bytes :
    (k : Kernel) (size a : ℕ)
    → (heap_malloc k.heap size).0 ≢ 0
    → (kzalloc k size).1.memory a ≡ (if inside (kzalloc k size).0 size a then 0 else k.memory a)
unfolding kzalloc kmalloc
kzalloc-bytes k size a nz =
    let got : ((heap_malloc k.heap size).0 == 0) ≡ false = ground arith in
    rw got (memset_lem k.memory (heap_malloc k.heap size).0 0 size a)

-- The kernel behind a kfree that succeeds has the table `m`.
abbrev pub KernelFreesTo : Memory → Option Kernel → Type 0
KernelFreesTo m none = ⊥
KernelFreesTo m (some k) = (j : ℕ) → k.heap.table.entries j ≡ m j

pub kfree-FreesTo :
    (k : Kernel) (m : Memory) (p : ℕ) → FreesTo m (heap_free k.heap p) → KernelFreesTo m (kfree k p)
unfolding kfree
kfree-FreesTo k m p f = go (heap_free k.heap p) f
  where
    go :
        (r : Option Heap)
        → FreesTo m r
        → KernelFreesTo m (elim r [ none ↦ none | some heap ↦ some (record k { heap = heap }) ])
    go none e = e
    go (some h) e = e
