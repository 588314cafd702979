-- ===== src/Heap/Tests.antt =====
-- Runs of memory/heap/heap.c and memory/heap/kheap.c, and each theorem on them at one input.
use custom_os.Base.{
  ℕ, ◌+◌, ◌*◌, ◌%◌, ◌<◌, ◌≤◌, ◌≡◌, refl, Memory, store, Option, none, some, ltb, if◌then◌else◌, ok,
  arith,
}
use custom_os.Heap.{
  Heap, Table, Kernel, heap_malloc, heap_malloc_blocks, heap_free, heap_create, kzalloc, kfree,
  heap_align_value_to_upper, heap_get_entry_type, heap_get_start_block,
}
use custom_os.Heap.Search.{IsRun, heap_get_start_block-first_fit}
use custom_os.Heap.Laws.{
  IsClean, Reserves, FreesTo, blocks_for, heap_align_value_to_upper_bounds, heap_malloc-Reserves,
  heap_free-heap_malloc, heap_create_lem,
}
use custom_os.Heap.Faults.{heap_malloc_blocks_overruns}
use custom_os.Heap.Invariant.{IsHeap, FreesWell, heap_malloc-IsHeap, heap_free-IsHeap}

-- Eight blocks, the first two of them an allocation.
abbrev two_taken : Memory
two_taken = store (store (λ j. 0) 0 0xC1) 1 0x01

abbrev demo : Heap
demo = record { table = record { entries = two_taken; total = 8 }; saddr = 0x1000000 }

demo_run : IsRun two_taken 8 3 (blocks_for 5000)
unfolding heap_align_value_to_upper
demo_run = record { fits = omega arith; free = λ j lo hi. ground arith }

demo-IsHeap : IsHeap demo
demo-IsHeap = record {
  low = omega arith;
  kinds = λ j lt. ground arith;
  forward = λ j lt l. ground arith;
  backward = λ j lt l. ground arith;
}

demo-IsClean : IsClean demo
demo-IsClean = λ j lt e. ground arith

heap_malloc-Reserves_example :
    (5000 ≤ blocks_for 5000 * 4096)
    × ((b : ℕ) × Reserves demo (blocks_for 5000) (heap_malloc demo 5000) b)
heap_malloc-Reserves_example =
    heap_malloc-Reserves demo 5000 3 (omega arith) (omega arith) (omega arith) demo_run

heap_free-heap_malloc_example :
    FreesTo two_taken (heap_free (heap_malloc demo 5000).1 (heap_malloc demo 5000).0)
heap_free-heap_malloc_example =
    heap_free-heap_malloc demo 5000 3 (omega arith) demo-IsClean (omega arith) (omega arith)
      demo_run

heap_malloc-IsHeap_example : IsHeap (heap_malloc demo 5000).1
heap_malloc-IsHeap_example =
    heap_malloc-IsHeap demo 5000 3 demo-IsHeap (omega arith) (omega arith) demo_run

heap_free-IsHeap_example : FreesWell (heap_free demo 0x1000010)
heap_free-IsHeap_example =
    heap_free-IsHeap demo 0x1000010 0 16 demo-IsHeap (omega arith) (omega arith) refl refl

heap_align_value_to_upper_bounds_example :
    (heap_align_value_to_upper 4097 % 4096 ≡ 0)
    × (4097 ≤ heap_align_value_to_upper 4097)
    × (heap_align_value_to_upper 4097 < 4097 + 4096)
heap_align_value_to_upper_bounds_example = heap_align_value_to_upper_bounds 4097 (omega arith)

-- One taken block, then one that is free, at the end of the table.
abbrev short : Heap
short = record { table = record { entries = store (λ j. 0) 0 0x41; total = 2 }; saddr = 0x1000000 }

short-start : heap_get_start_block short 2 ≡ ok 1
unfolding heap_get_start_block
short-start = refl

heap_malloc_blocks_overruns_example :
    (heap_get_entry_type (short.table.entries 1) ≡ 0)
    × (heap_get_entry_type ((heap_malloc_blocks short 2).1.table.entries 2) ≡ 1)
heap_malloc_blocks_overruns_example =
    heap_malloc_blocks_overruns short 2 1 (omega arith) short-start
      (λ run. absurd (omega (arith, run.fits)))

abbrev garbage : Table
garbage = record { entries = λ j. 0x41; total = 8 }

heap_create_lem_example :
    ((heap_create demo 0x2000 0xA000 garbage).0 ≡ ok tt)
    × ((heap_create demo 0x2000 0xA000 garbage).1.saddr ≡ 0x2000)
    × ((heap_create demo 0x2000 0xA000 garbage).1.table.total ≡ 8)
    × ((heap_create demo 0x2000 0xA000 garbage).1.table.entries 7 ≡ (if ltb 7 8 then 0 else 0x41))
heap_create_lem_example = heap_create_lem demo 0x2000 0xA000 garbage 7 refl refl refl

heap_get_start_block-first_fit_example :
    (b : ℕ) × (heap_get_start_block demo 2 ≡ ok b) × (b ≤ 3) × IsRun two_taken 8 b 2
heap_get_start_block-first_fit_example =
    heap_get_start_block-first_fit demo 2 3 (omega arith)
      (record { fits = omega arith; free = λ j lo hi. ground arith })

abbrev kernel : Kernel
kernel = record { heap = demo; memory = λ j. 7 }

kzalloc-address : (kzalloc kernel 3).0 ≡ 0x1002000
unfolding kzalloc
kzalloc-address = refl

kzalloc-clears :
    ((kzalloc kernel 3).1.memory 0x1002002 ≡ 0) × ((kzalloc kernel 3).1.memory 0x1002003 ≡ 7)
unfolding kzalloc
kzalloc-clears = (refl, refl)

abbrev freed : Option Kernel → ℕ → ℕ
freed none j = 99
freed (some k) j = k.heap.table.entries j

kfree-clears : (freed (kfree kernel 0x1000000) 0 ≡ 0) × (freed (kfree kernel 0x1000000) 1 ≡ 0)
unfolding kfree
kfree-clears = (refl, refl)
