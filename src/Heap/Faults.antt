-- ===== src/Heap/Faults.antt =====
-- Where heap_malloc of memory/heap/heap.c does not reserve what was asked for.
use custom_os.Base.{ℕ, ◌-◌, ◌/◌, ◌^◌, ◌<◌, ◌≡◌, ◌⊎◌, inl, inr, arith, ok}
use custom_os.Heap.{
  Heap, heap_align_value_to_upper, heap_malloc, heap_malloc_blocks, heap_get_start_block,
  heap_mark_blocks_taken, heap_get_entry_type,
}
use custom_os.Heap.Search.{IsRun, heap_get_start_block-Sound}
use custom_os.Heap.Mark.{heap_mark_blocks_taken_lem}

heap_malloc_blocks-ok :
    (h : Heap) (n b : ℕ)
    → heap_get_start_block h n ≡ ok b
    → (heap_malloc_blocks h n).1 ≡ heap_mark_blocks_taken h b n
unfolding heap_malloc_blocks
heap_malloc_blocks-ok h n b e = rw (e, heap_malloc_blocks)

-- Where heap_get_start_block returns a block and the table has no run of `n` > 0 free blocks there,
-- the last block of the table is free, and heap_malloc_blocks marks the entry behind the end of the
-- table as taken.
pub heap_malloc_blocks_overruns :
    (h : Heap) (n b : ℕ)
    → 0 < n
    → heap_get_start_block h n ≡ ok b
    → ¬ (IsRun h.table.entries h.table.total b n)
    → (heap_get_entry_type (h.table.entries (h.table.total - 1)) ≡ 0)
      × (heap_get_entry_type ((heap_malloc_blocks h n).1.table.entries h.table.total) ≡ 1)
heap_malloc_blocks_overruns h n b nz e no_run = elim (heap_get_start_block-Sound h n b nz e) [
  | inl run ↦ absurd (no_run run)
  | inr tail ↦ (
    tail.2 (h.table.total - 1) (omega (arith, tail.0)) (omega (arith, tail.0)),
    rw (heap_malloc_blocks-ok h n b e)
        (ground (arith, tail.0, tail.1, heap_mark_blocks_taken_lem h b n h.table.total nz)),
  )
]

heap_malloc_blocks-zero :
    (h : Heap) (j : ℕ) → (heap_malloc_blocks h 0).1.table.entries j ≡ h.table.entries j
unfolding heap_malloc_blocks
heap_malloc_blocks-zero h j = ground arith

-- A request of 0 bytes, or of more than 2 ^ 32 - 4096, changes no entry of the table.
pub heap_malloc-nothing :
    (h : Heap) (size j : ℕ)
    → (size ≡ 0) ⊎ (2 ^ 32 - 4096 < size)
    → size < 2 ^ 32
    → (heap_malloc h size).1.table.entries j ≡ h.table.entries j
unfolding heap_malloc
heap_malloc-nothing h size j huge w =
    let none_asked : heap_align_value_to_upper size / 4096 ≡ 0 = align_zero size huge w in
    rw (none_asked, heap_malloc) (heap_malloc_blocks-zero h j)
  where
    align_zero :
        (v : ℕ)
        → (v ≡ 0) ⊎ (2 ^ 32 - 4096 < v)
        → v < 2 ^ 32
        → heap_align_value_to_upper v / 4096 ≡ 0
    align_zero v (inl e) b = ground arith
    align_zero v (inr e) b = ground arith
