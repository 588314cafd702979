-- ===== src/Heap/Invariant.antt =====
-- The well-formedness of the block table, which heap_malloc and heap_free of memory/heap/heap.c keep.
use custom_os.Base.{
  ℕ, zero, suc, ◌+◌, ◌-◌, ◌*◌, ◌^◌, ◌<◌, ◌≤◌, ◌≡◌, inl, inr, Bool, true, false, ◌||◌, Option, none,
  some, ◌==◌, if◌then◌else◌, arith, Bool-cases,
}
use custom_os.Heap.{Heap, heap_malloc, heap_free, heap_mark_blocks_free}
use custom_os.Heap.Search.{IsRun}
use custom_os.Heap.Mark.{IsChain, heap_mark_blocks_free_lem}
use custom_os.Heap.Laws.{
  IsLow, Reserves, blocks_for, blocks_for_bounds, heap_malloc-Reserves, heap_free-eq,
}
use custom_os.Memory.Laws.{inside}

-- The entry of a block that continues an allocation.
abbrev pub continues : ℕ → Bool
continues e = (e == 0x01) || (e == 0x81)

-- The entry of a block that begins an allocation.
abbrev pub begins : ℕ → Bool
begins e = (e == 0x41) || (e == 0xC1)

-- The entry says that the next block belongs to the same allocation.
abbrev pub links : ℕ → Bool
links e = (e == 0x81) || (e == 0xC1)

-- Each entry is free, or begins or continues an allocation; a block is followed by one that
-- continues the allocation exactly where its entry says so, and never behind the end of the table.
pub record IsHeap (h : Heap) : Type 0 where
  pub low : IsLow h
  pub kinds :
      (j : ℕ)
      → j < h.table.total
      → ((h.table.entries j == 0) || continues (h.table.entries j) || begins (h.table.entries j))
        ≡ true
  pub forward :
      (j : ℕ)
      → j < h.table.total
      → links (h.table.entries j) ≡ true
      → (j + 1 < h.table.total) × (continues (h.table.entries (j + 1)) ≡ true)
  pub backward :
      (j : ℕ)
      → j < h.table.total
      → continues (h.table.entries j) ≡ true
      → (0 < j) × (links (h.table.entries (j - 1)) ≡ true)

module _ (h : Heap) (is : IsHeap h) where
  Reserves-kinds :
      (n b j : ℕ) (out : ℕ × Heap)
      → Reserves h n out b
      → j < h.table.total
      → ((out.1.table.entries j == 0)
          || continues (out.1.table.entries j)
          || begins (out.1.table.entries j))
        ≡ true
  Reserves-kinds n b j out r lt = ground (arith, r.entries j, is.kinds j)

  Reserves-forward :
      (n b j : ℕ) (out : ℕ × Heap)
      → Reserves h n out b
      → j < h.table.total
      → links (out.1.table.entries j) ≡ true
      → (j + 1 < h.table.total) × (continues (out.1.table.entries (j + 1)) ≡ true)
  Reserves-forward n b j out r lt l =
      ground (arith, r.entries j, r.entries (j + 1), is.forward j, r.run.free (j + 1), r.run.fits)

  Reserves-backward :
      (n b j : ℕ) (out : ℕ × Heap)
      → 0 < n
      → Reserves h n out b
      → j < h.table.total
      → continues (out.1.table.entries j) ≡ true
      → (0 < j) × (links (out.1.table.entries (j - 1)) ≡ true)
  Reserves-backward n b j out nz r lt l =
      ground (arith, r.entries j, r.entries (j - 1), is.backward j, r.run.free (j - 1), r.run.fits)

  pub Reserves-IsHeap : (n b : ℕ) (out : ℕ × Heap) → 0 < n → Reserves h n out b → IsHeap out.1
  Reserves-IsHeap n b out nz r = record {
    low = omega (arith, is.low, r.total, r.saddr);
    kinds = λ j lt. Reserves-kinds n b j out r (omega (arith, r.total));
    forward = λ j lt l. rw r.total (Reserves-forward n b j out r (omega (arith, r.total)) l);
    backward = λ j lt l. Reserves-backward n b j out nz r (omega (arith, r.total)) l;
  }

  -- The blocks of the allocation that holds block `b`, from `b` on.
  record Extent (b n : ℕ) : Type 0 where
    some_block : 0 < n
    fits : b + n ≤ h.table.total
    chain : IsChain h.table.entries b n
    rest : (j : ℕ) → b < j → j < b + n → continues (h.table.entries j) ≡ true

  Extent-one : (b : ℕ) → b < h.table.total → links (h.table.entries b) ≡ false → Extent b 1
  Extent-one b lt last = record {
    some_block = omega arith;
    fits = omega arith;
    chain = record {
      linked = λ j lo hi. absurd (omega arith);
      ends = λ j e. let p : j ≡ b = omega arith in rw p (ground (arith, is.kinds b));
    };
    rest = λ j lo hi. absurd (omega arith);
  }

  Extent-suc :
      (b n : ℕ)
      → links (h.table.entries b) ≡ true
      → continues (h.table.entries (b + 1)) ≡ true
      → Extent (b + 1) n
      → Extent b (suc n)
  Extent-suc b n l c x = record {
    some_block = omega arith;
    fits = omega (arith, x.fits);
    chain = record {
      linked = λ j lo hi. elim (Bool-cases (j == b)) [
        | inl here ↦ ground arith
        | inr later ↦ x.chain.linked j (ground arith) (omega arith)
      ];
      ends = λ j e. x.chain.ends j (omega arith);
    };
    rest = λ j lo hi. elim (Bool-cases (j == b + 1)) [
      | inl here ↦ ground arith
      | inr later ↦ x.rest j (ground arith) (omega arith)
    ];
  }

  extent : (k b : ℕ) → b < h.table.total → h.table.total < b + k → (n : ℕ) × Extent b n
  extent zero b lt fuel = absurd (omega arith)
  extent (suc k) b lt fuel = elim (Bool-cases (links (h.table.entries b))) [
    | inl more ↦
        let next = is.forward b lt more in
        let (n, x) = extent k (b + 1) next.0 (omega arith) in (suc n, Extent-suc b n more next.1 x)
    | inr last ↦ (1, Extent-one b lt last)
  ]

  module _ (b n : ℕ) (first : begins (h.table.entries b) ≡ true) (x : Extent b n) where
    freed_at :
        (j : ℕ)
        → (heap_mark_blocks_free h b).table.entries j
          ≡ (if inside b n j then 0 else h.table.entries j)
    freed_at j = heap_mark_blocks_free_lem h b n j x.some_block x.fits x.chain

    freed-IsHeap : IsHeap (heap_mark_blocks_free h b)
    unfolding heap_mark_blocks_free
    freed-IsHeap = record {
      low = is.low;
      kinds = λ j lt. ground (arith, freed_at j, is.kinds j);
      forward = λ j lt l. ground (arith, freed_at j, freed_at (j + 1), is.forward j);
      backward = λ j lt l.
          ground (arith, freed_at j, freed_at (j - 1), is.backward j, x.chain.ends (j - 1));
    }

-- heap_malloc of a size from 1 to 2 ^ 32 - 4096 keeps the block table well-formed, where enough
-- blocks in a row are free.
pub heap_malloc-IsHeap :
    (h : Heap) (size c : ℕ)
    → IsHeap h
    → 0 < size
    → size ≤ 2 ^ 32 - 4096
    → IsRun h.table.entries h.table.total c (blocks_for size)
    → IsHeap (heap_malloc h size).1
heap_malloc-IsHeap h size c is nz fits run =
    let (b, r) = (heap_malloc-Reserves h size c is.low nz fits run).1 in
    Reserves-IsHeap h is (blocks_for size) b (heap_malloc h size) (blocks_for_bounds size nz fits).0
      r

-- The heap after a heap_free that succeeds is well-formed, and one that fails is refuted.
abbrev pub FreesWell : Option Heap → Type 0
FreesWell none = ⊥
FreesWell (some h) = IsHeap h

-- heap_free of an address in the first block of an allocation of a well-formed table succeeds, and
-- the table stays well-formed.
pub heap_free-IsHeap :
    (h : Heap) (a b o : ℕ)
    → IsHeap h
    → b < h.table.total
    → o < 4096
    → a ≡ h.saddr + b * 4096 + o
    → begins (h.table.entries b) ≡ true
    → FreesWell (heap_free h a)
heap_free-IsHeap h a b o is lt lo e first =
    let (n, x) = extent h is (h.table.total + 1) b lt (omega arith) in
    rw (heap_free-eq h a b o is.low lt lo e) (freed-IsHeap h is b n first x)
