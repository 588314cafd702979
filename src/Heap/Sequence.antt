-- ===== src/Heap/Sequence.antt =====
-- Allocations one after the other, of heap.c and kheap.c, from a pool whose last blocks are free.
use custom_os.Base.{
  ℕ, ◌+◌, ◌*◌, ◌<◌, ◌≤◌, ◌≡◌, ◌≢◌, sym, ◌∙◌, ap, arith, ok, Result, err, inl, inr, Bool-cases, ltb,
  ◌==◌,
}
use custom_os.Heap.{Heap, Kernel, heap_get_entry_type, heap_get_start_block, heap_malloc, kzalloc}
use custom_os.Heap.Search.{IsRun, heap_get_start_block-first_fit}
use custom_os.Heap.Laws.{
  IsLow, Reserves, blocks_for, blocks_for_bounds, heap_malloc_blocks-Reserves,
}
use custom_os.Heap.KernelHeap.{kzalloc-heap, kzalloc-bytes}

-- The blocks in front of `c` are taken, and those from there on are free.
pub record IsFilled (h : Heap) (c : ℕ) : Type 0 where
  pub low : IsLow h
  pub taken : (j : ℕ) → j < c → heap_get_entry_type (h.table.entries j) ≢ 0
  pub free : (j : ℕ) → c ≤ j → j < h.table.total → h.table.entries j ≡ 0

-- An allocation of one block takes the block `c`.
pub record TakesNext (h : Heap) (c : ℕ) (out : ℕ × Heap) : Type 0 where
  pub address : out.0 ≡ h.saddr + c * 4096
  pub filled : IsFilled out.1 (c + 1)
  pub saddr : out.1.saddr ≡ h.saddr
  pub total : out.1.table.total ≡ h.table.total

number_of_block : Result ℕ → ℕ
number_of_block (ok b) = b
number_of_block (err e) = 0

pub same_block : (b b' : ℕ) (r : Result ℕ) → r ≡ ok b → r ≡ ok b' → b ≡ b'
unfolding number_of_block
same_block b b' r e e' = ap number_of_block (sym e ∙ e')

reserved_next :
    (h : Heap) (c b : ℕ) (out : ℕ × Heap) → IsFilled h c → b ≤ c → Reserves h 1 out b → b ≡ c
reserved_next h c b out f below r = elim (Bool-cases (ltb b c)) [
  | inl earlier ↦ absurd (f.taken b (ground arith) (r.run.free b (omega arith) (omega arith)))
  | inr later ↦ ground arith
]

Reserves-TakesNext :
    (h : Heap) (c b : ℕ) (out : ℕ × Heap)
    → IsFilled h c
    → c < h.table.total
    → b ≤ c
    → Reserves h 1 out b
    → TakesNext h c out
Reserves-TakesNext h c b out f lt below r =
    let here = reserved_next h c b out f below r in
    record {
      address = omega (arith, r.address, here);
      filled = record {
        low = omega (arith, r.saddr, r.total, f.low);
        taken = λ j lo. elim (Bool-cases (j == c)) [
          | inl last ↦ ground (arith, r.entries j, here)
          | inr before ↦ ground (arith, r.entries j, here, f.taken j (ground arith))
        ];
        free = λ j lo hi.
            ground (arith, r.entries j, here, f.free j (omega arith) (omega (arith, r.total)));
      };
      saddr = r.saddr;
      total = r.total;
    }

pub heap_malloc-TakesNext :
    (h : Heap) (size c : ℕ)
    → 0 < size
    → size ≤ 4096
    → IsFilled h c
    → c < h.table.total
    → TakesNext h c (heap_malloc h size)
unfolding heap_malloc
heap_malloc-TakesNext h size c nz fits f lt =
    let bounds = blocks_for_bounds size nz (omega arith) in
    let one : blocks_for size ≡ 1 = omega (arith, bounds) in
    let run : IsRun h.table.entries h.table.total c 1 = record {
      fits = omega arith;
      free = λ j lo hi. ground (arith, f.free j lo);
    } in
    let (b, found, is) = heap_malloc_blocks-Reserves h 1 c f.low (omega arith) run in
    let (b', found', below, is') = heap_get_start_block-first_fit h 1 c (omega arith) run in
    let same = same_block b b' (heap_get_start_block h 1) found found' in
    rw one (Reserves-TakesNext h c b _ f lt (omega (arith, same, below)) is)

-- kzalloc of at most one block: the address, and the kernel's heap behind it.
pub record Allocates (k : Kernel) (c : ℕ) (out : ℕ × Kernel) : Type 0 where
  pub address : out.0 ≡ k.heap.saddr + c * 4096
  pub filled : IsFilled (out.1.heap) (c + 1)
  pub saddr : out.1.heap.saddr ≡ k.heap.saddr
  pub total : out.1.heap.table.total ≡ k.heap.table.total
  pub below : (a : ℕ) → a < k.heap.saddr + c * 4096 → out.1.memory a ≡ k.memory a

pub kzalloc-Allocates :
    (k : Kernel) (size c : ℕ)
    → 0 < size
    → size ≤ 4096
    → 0 < k.heap.saddr
    → IsFilled k.heap c
    → c < k.heap.table.total
    → Allocates k c (kzalloc k size)
kzalloc-Allocates k size c nz fits somewhere f lt =
    let t = heap_malloc-TakesNext k.heap size c nz fits f lt in
    let got : (heap_malloc k.heap size).0 ≢ 0 = ground (arith, t.address) in
    let z = kzalloc-heap k size got in
    let at : (kzalloc k size).0 ≡ k.heap.saddr + c * 4096 = z.0 ∙ t.address in
    record {
      address = at;
      filled = rw z.1 t.filled;
      saddr = rw z.1 t.saddr;
      total = rw z.1 t.total;
      below = λ a lt. kzalloc-bytes k size a got ∙ ground (arith, at);
    }
