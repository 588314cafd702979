-- ===== src/Heap/Filling.antt =====
-- Allocations of any size one after the other, of memory/heap/kheap.c, from a pool whose last blocks are
-- free, with the bytes that they hand out and the freeing of the last one.
use custom_os.Base.{
  ℕ, ◌+◌, ◌-◌, ◌*◌, ◌^◌, ◌%◌, ◌<◌, ◌≤◌, ◌≡◌, ◌≢◌, refl, ◌∙◌, ap, arith, inl, inr, Bool-cases, ltb,
  if◌then◌else◌, Memory, some, none,
}
use mathlib.Core.Path.{subst}
use custom_os.Base.Int.{ℤ, pos, negsuc}
use custom_os.Heap.{
  Heap, Kernel, heap_get_entry_type, heap_get_start_block, heap_malloc, heap_malloc_blocks,
  heap_free, heap_mark_blocks_free, heap_address_to_block, kzalloc, kfree,
}
use custom_os.Heap.Mark.{chain_entry}
use custom_os.Heap.Search.{IsRun, heap_get_start_block-first_fit}
use custom_os.Heap.Laws.{
  IsClean, FreesTo, Reserves, blocks_for, blocks_for_bounds, heap_malloc_blocks-Reserves,
  heap_free-heap_malloc,
}
use custom_os.Heap.KernelHeap.{kzalloc-heap, kzalloc-bytes}
use custom_os.Heap.Sequence.{IsFilled, same_block}
use custom_os.Memory.Laws.{inside}

-- The kernel's pool is aligned and not at 0; its first `c` blocks are taken, and the others are free.
pub record Room (k : Kernel) (c : ℕ) : Type 0 where
  pub filled : IsFilled k.heap c
  pub aligned : k.heap.saddr % 4096 ≡ 0
  pub somewhere : 0 < k.heap.saddr

chain_entry-taken : (b n j : ℕ) → heap_get_entry_type (chain_entry b n j) ≢ 0
chain_entry-taken b n j = ground arith

IsFilled-IsClean : (h : Heap) (c : ℕ) → IsFilled h c → IsClean h
IsFilled-IsClean h c f j lt e = elim (Bool-cases (ltb j c)) [
  | inl earlier ↦ absurd (f.taken j (ground arith) e)
  | inr later ↦ f.free j (ground arith) lt
]

Heap-eq :
    (h h' : Heap)
    → h'.saddr ≡ h.saddr
    → h'.table.total ≡ h.table.total
    → ((j : ℕ) → h'.table.entries j ≡ h.table.entries j)
    → h' ≡ h
Heap-eq h h' es et e =
    λ i. record { table = record { entries = λ j. e j i; total = et i }; saddr = es i }

-- heap_free of the address that heap_malloc has just returned gives back the heap itself.
heap_free-back :
    (h h' : Heap) (p : ℕ)
    → h'.saddr ≡ h.saddr
    → h'.table.total ≡ h.table.total
    → FreesTo h.table.entries (heap_free h' p)
    → heap_free h' p ≡ some h
unfolding heap_free heap_mark_blocks_free
heap_free-back h h' p es et f = go (heap_address_to_block h' p) f
  where
    go :
        (r : ℤ)
        → FreesTo h.table.entries
            (elim r [ pos block ↦ some (heap_mark_blocks_free h' block) | negsuc n ↦ none ])
        → (elim r [ pos block ↦ some (heap_mark_blocks_free h' block) | negsuc n ↦ none ]) ≡ some h
    go (pos block) f = ap some (Heap-eq h (heap_mark_blocks_free h' block) es et f)
    go (negsuc n) f = absurd f

-- The kernel's heap behind kzalloc of a size, where the blocks from `c` on are free.
pub record Grows (k : Kernel) (c size : ℕ) (out : ℕ × Kernel) : Type 0 where
  pub address : out.0 ≡ k.heap.saddr + c * 4096
  pub room : Room out.1 (c + blocks_for size)
  pub fits : size ≤ blocks_for size * 4096
  pub saddr : out.1.heap.saddr ≡ k.heap.saddr
  pub total : out.1.heap.table.total ≡ k.heap.table.total
  pub bytes : (a : ℕ) → out.1.memory a ≡ (if inside out.0 size a then 0 else k.memory a)
  pub back :
      (m : Memory) → kfree (record (out.1) { memory = m }) out.0 ≡ some (record k { memory = m })

Reserves-first :
    (h : Heap) (n c b : ℕ) (out : ℕ × Heap)
    → IsFilled h c
    → 0 < n
    → b ≤ c
    → Reserves h n out b
    → b ≡ c
Reserves-first h n c b out f nz below r = elim (Bool-cases (ltb b c)) [
  | inl earlier ↦ absurd (f.taken b (ground arith) (r.run.free b (omega arith) (omega arith)))
  | inr later ↦ ground arith
]

Reserves-IsFilled :
    (h : Heap) (n c : ℕ) (out : ℕ × Heap)
    → IsFilled h c
    → Reserves h n out c
    → IsFilled out.1 (c + n)
Reserves-IsFilled h n c out f r = record {
  low = omega (arith, r.saddr, r.total, f.low);
  taken = λ j lt. ground (arith, r.entries j, f.taken j, chain_entry-taken c n j);
  free = λ j lo hi. ground (arith, r.entries j, f.free j (omega arith) (omega (arith, r.total)));
}

-- The heap behind heap_malloc.
malloc_Reserves :
    (h : Heap) (size c : ℕ)
    → IsFilled h c
    → 0 < size
    → size ≤ 2 ^ 32 - 4096
    → c + blocks_for size ≤ h.table.total
    → Reserves h (blocks_for size) (heap_malloc h size) c
unfolding heap_malloc
malloc_Reserves h size c f nz fits lt =
    let n = blocks_for size in
    let pos = (blocks_for_bounds size nz fits).0 in
    let run : IsRun h.table.entries h.table.total c n = record {
      fits = lt;
      free = λ j lo hi. ground (arith, f.free j lo);
    } in
    let (b, found, is) = heap_malloc_blocks-Reserves h n c f.low pos run in
    let (b', found', below, is') = heap_get_start_block-first_fit h n c pos run in
    let same = same_block b b' (heap_get_start_block h n) found found' in
    let here = Reserves-first h n c b _ f pos (omega (arith, same, below)) is in
    subst (λ (x : ℕ). Reserves h n (heap_malloc_blocks h n) x) here is

kfree-back :
    (k : Kernel) (h : Heap) (p : ℕ)
    → heap_free k.heap p ≡ some h
    → kfree k p ≡ some (record k { heap = h })
unfolding kfree
kfree-back k h p e = rw (e, kfree) refl

pub kzalloc-Grows :
    (k : Kernel) (c size : ℕ)
    → Room k c
    → 0 < size
    → size ≤ 2 ^ 32 - 4096
    → c + blocks_for size ≤ k.heap.table.total
    → Grows k c size (kzalloc k size)
kzalloc-Grows k c size room nz fits lt =
    let r = malloc_Reserves k.heap size c room.filled nz fits lt in
    let some_address : (heap_malloc k.heap size).0 ≢ 0 =
      λ e. omega (arith, e, r.address, room.somewhere) in
    let z = kzalloc-heap k size some_address in
    let frees =
      heap_free-heap_malloc k.heap size c room.filled.low (IsFilled-IsClean k.heap c room.filled) nz
        fits r.run in
    let back =
      heap_free-back k.heap (heap_malloc k.heap size).1 (heap_malloc k.heap size).0 r.saddr r.total
        frees in
    record {
      address = z.0 ∙ r.address;
      room = record {
        filled = rw z.1 (Reserves-IsFilled k.heap (blocks_for size) c _ room.filled r);
        aligned = rw (z.1, r.saddr) room.aligned;
        somewhere = rw (z.1, r.saddr) room.somewhere;
      };
      fits = (blocks_for_bounds size nz fits).1;
      saddr = rw z.1 r.saddr;
      total = rw z.1 r.total;
      bytes = λ a. kzalloc-bytes k size a some_address;
      back = λ m.
          kfree-back (record ((kzalloc k size).1) { memory = m }) k.heap (kzalloc k size).0
            (rw (z.0, z.1) back);
    }
