-- ===== src/Heap/Laws.antt =====
-- heap_malloc and heap_free of memory/heap/heap.c: sizes, addresses, and the pair of them.
use custom_os.Base.{
  ℕ, ◌+◌, ◌-◌, ◌*◌, ◌/◌, ◌%◌, ◌^◌, ◌<◌, ◌≤◌, ◌≡◌, ◌≢◌, refl, true, false, Option, none, some,
  Memory, ltb, if◌then◌else◌, arith, ok,
}
use custom_os.Base.Int.{pos}
use custom_os.Heap.{
  Heap, Table, heap_align_value_to_upper, heap_malloc, heap_malloc_blocks, heap_free,
  heap_get_start_block, heap_mark_blocks_taken, heap_mark_blocks_free, heap_address_to_block,
  heap_create, kheap_init, heap_get_entry_type,
}
use custom_os.Heap.Search.{IsRun, heap_get_start_block-first_fit}
use custom_os.Heap.Mark.{
  chain_entry, heap_mark_blocks_taken_lem, heap_mark_blocks_free_lem, IsChain-chain_entry,
}
use custom_os.Memory.Laws.{inside, memset_lem}

-- For a size of at most 2 ^ 32 - 4096, heap_align_value_to_upper returns the least multiple of 4096
-- that is not below it.
pub heap_align_value_to_upper_bounds :
    (val : ℕ)
    → val ≤ 2 ^ 32 - 4096
    → (heap_align_value_to_upper val % 4096 ≡ 0)
      × (val ≤ heap_align_value_to_upper val)
      × (heap_align_value_to_upper val < val + 4096)
unfolding heap_align_value_to_upper
heap_align_value_to_upper_bounds val h = ground arith

-- The blocks that a request takes.
abbrev pub blocks_for : ℕ → ℕ
blocks_for size = heap_align_value_to_upper size / 4096

pub blocks_for_bounds :
    (size : ℕ)
    → 0 < size
    → size ≤ 2 ^ 32 - 4096
    → (0 < blocks_for size)
      × (size ≤ blocks_for size * 4096)
      × (blocks_for size * 4096 < size + 4096)
blocks_for_bounds size h k = omega (arith, heap_align_value_to_upper_bounds size k)

-- The pool lies in the lower half of the address space, so that no address wraps.
abbrev pub IsLow : Heap → Type 0
IsLow h = h.saddr + h.table.total * 4096 ≤ 2 ^ 31

pub heap_address_to_block_lem :
    (h : Heap) (a b o : ℕ)
    → IsLow h
    → b < h.table.total
    → o < 4096
    → a ≡ h.saddr + b * 4096 + o
    → heap_address_to_block h a ≡ pos b
unfolding heap_address_to_block
heap_address_to_block_lem h a b o low inb ino e = ground arith

-- A reservation: the address of block `b`, and the table with the chain of `n` blocks in it.
pub record Reserves (h : Heap) (n : ℕ) (out : ℕ × Heap) (b : ℕ) : Type 0 where
  pub address : out.0 ≡ h.saddr + b * 4096
  pub run : IsRun h.table.entries h.table.total b n
  pub saddr : out.1.saddr ≡ h.saddr
  pub total : out.1.table.total ≡ h.table.total
  pub entries :
      (j : ℕ)
      → out.1.table.entries j ≡ (if inside b n j then chain_entry b n j else h.table.entries j)

pub heap_malloc_blocks-Reserves :
    (h : Heap) (n c : ℕ)
    → IsLow h
    → 0 < n
    → IsRun h.table.entries h.table.total c n
    → (b : ℕ) × (heap_get_start_block h n ≡ ok b) × Reserves h n (heap_malloc_blocks h n) b
unfolding heap_malloc_blocks
heap_malloc_blocks-Reserves h n c low nz run =
    let (b, found, below, is) = heap_get_start_block-first_fit h n c nz run in
    (
      b,
      found,
      rw (found, heap_malloc_blocks)
          (record {
            address = omega (arith, is.fits);
            run = is;
            saddr = saddr_kept b;
            total = total_kept b;
            entries = λ j. heap_mark_blocks_taken_lem h b n j nz;
          }),
    )
  where
    saddr_kept : (b : ℕ) → (heap_mark_blocks_taken h b n).saddr ≡ h.saddr
    saddr_kept b = refl

    total_kept : (b : ℕ) → (heap_mark_blocks_taken h b n).table.total ≡ h.table.total
    total_kept b = refl

-- Where the pool has enough free blocks in a row, heap_malloc of a size from 1 to 2 ^ 32 - 4096
-- returns the address of a run of free blocks that holds the size, marks that run as one chain, and
-- leaves every other entry, the size of the table and the start of the pool as they were.
pub heap_malloc-Reserves :
    (h : Heap) (size c : ℕ)
    → IsLow h
    → 0 < size
    → size ≤ 2 ^ 32 - 4096
    → IsRun h.table.entries h.table.total c (blocks_for size)
    → (size ≤ blocks_for size * 4096)
      × ((b : ℕ) × Reserves h (blocks_for size) (heap_malloc h size) b)
unfolding heap_malloc
heap_malloc-Reserves h size c low nz fits run =
    let bounds = blocks_for_bounds size nz fits in
    let (b, found, is) = heap_malloc_blocks-Reserves h (blocks_for size) c low bounds.0 run in
    (bounds.1, (b, is))

-- heap_free succeeds, and leaves the table `m`.
abbrev pub FreesTo : Memory → Option Heap → Type 0
FreesTo m none = ⊥
FreesTo m (some h) = (j : ℕ) → h.table.entries j ≡ m j

-- heap_free of an address in block `b` of the table frees from that block on.
pub heap_free-eq :
    (h : Heap) (a b o : ℕ)
    → IsLow h
    → b < h.table.total
    → o < 4096
    → a ≡ h.saddr + b * 4096 + o
    → heap_free h a ≡ some (heap_mark_blocks_free h b)
unfolding heap_free
heap_free-eq h a b o low inb ino e = rw (heap_address_to_block_lem h a b o low inb ino e, heap_free)

pub heap_free-Reserves :
    (h h' : Heap) (n p b : ℕ)
    → IsLow h
    → 0 < n
    → Reserves h n (p, h') b
    → ((j : ℕ) → inside b n j ≡ true → h.table.entries j ≡ 0)
    → FreesTo h.table.entries (heap_free h' p)
heap_free-Reserves h h' n p b low nz r zeros =
    let inb : b < h'.table.total = omega (arith, r.run.fits, r.total) in
    let low' : IsLow h' = omega (arith, r.total, r.saddr) in
    rw (heap_free-eq h' p b 0 low' inb (omega arith) (omega (arith, r.address, r.saddr))) λ j.
      ground (
        arith,
        heap_mark_blocks_free_lem h' b n j nz (omega (arith, r.run.fits, r.total))
            (IsChain-chain_entry h.table.entries h'.table.entries b n nz r.entries),
        r.entries j,
        zeros j,
      )

-- Every free entry of the table is 0.
abbrev pub IsClean : Heap → Type 0
IsClean h =
    (j : ℕ)
    → j < h.table.total
    → heap_get_entry_type (h.table.entries j) ≡ 0
    → h.table.entries j ≡ 0

-- Where enough blocks in a row are free and every free entry is 0, heap_free of the address that
-- heap_malloc has just returned for a size from 1 to 2 ^ 32 - 4096 succeeds, and gives back the
-- table as it was before heap_malloc.
pub heap_free-heap_malloc :
    (h : Heap) (size c : ℕ)
    → IsLow h
    → IsClean h
    → 0 < size
    → size ≤ 2 ^ 32 - 4096
    → IsRun h.table.entries h.table.total c (blocks_for size)
    → FreesTo h.table.entries (heap_free (heap_malloc h size).1 (heap_malloc h size).0)
heap_free-heap_malloc h size c low clean nz fits run =
    let (b, is) = (heap_malloc-Reserves h size c low nz fits run).1 in
    heap_free-Reserves h (heap_malloc h size).1 (blocks_for size) (heap_malloc h size).0 b low
      (blocks_for_bounds size nz fits).0 is
      λ j inb. clean j (ground (arith, is.run.fits)) (is.run.free j (ground arith) (ground arith))

-- A block that is taken before heap_malloc keeps its entry, and is not in the run that heap_malloc
-- reserves.
pub Reserves-taken :
    (h : Heap) (n b j : ℕ) (out : ℕ × Heap)
    → Reserves h n out b
    → heap_get_entry_type (h.table.entries j) ≢ 0
    → (out.1.table.entries j ≡ h.table.entries j) × (inside b n j ≡ false)
Reserves-taken h n b j out r taken =
    (ground (arith, r.entries j, r.run.free j), ground (arith, r.run.free j))

-- Where both ends are aligned and the table has an entry for each block between them, heap_create
-- succeeds, frees the entries of the table and writes no other.
pub heap_create_lem :
    (h : Heap) (ptr end : ℕ) (t : Table) (j : ℕ)
    → ptr % 4096 ≡ 0
    → end % 4096 ≡ 0
    → t.total ≡ (end + 2 ^ 32 - ptr) % 2 ^ 32 / 4096
    → ((heap_create h ptr end t).0 ≡ ok tt)
      × ((heap_create h ptr end t).1.saddr ≡ ptr)
      × ((heap_create h ptr end t).1.table.total ≡ t.total)
      × ((heap_create h ptr end t).1.table.entries j ≡ (if ltb j t.total then 0 else t.entries j))
unfolding heap_create
heap_create_lem h ptr end t j p e n = ground (arith, memset_lem t.entries 0 0 t.total j)

-- kheap_init succeeds: the pool begins at 0x1000000, and each of its 25600 blocks is free.
pub kheap_init_lem :
    (h : Heap) (m : Memory) (j : ℕ)
    → ((kheap_init h m).0 ≡ ok tt)
      × ((kheap_init h m).1.saddr ≡ 0x1000000)
      × ((kheap_init h m).1.table.total ≡ 25600)
      × ((kheap_init h m).1.table.entries j ≡ (if ltb j 25600 then 0 else m j))
unfolding kheap_init
kheap_init_lem h m j =
    heap_create_lem h 0x1000000 0x7400000 (record { entries = m; total = 25600 }) j refl refl refl
