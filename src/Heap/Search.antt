-- ===== src/Heap/Search.antt =====
-- The first-fit search of heap_get_start_block in memory/heap/heap.c.
use custom_os.Base.{
  ℕ, zero, suc, ◌+◌, ◌<◌, ◌≤◌, ◌≡◌, refl, ◌⊎◌, inl, inr, true, false, Option, none, some, Memory,
  ◌==◌, if◌then◌else◌, arith, Bool-cases, ==_iff, ok,
}
use custom_os.Heap.{Heap, heap_get_start_block, heap_get_entry_type, search}

-- Every block from `b` up to `e` is free.
abbrev pub FreeFrom : Memory → ℕ → ℕ → Type 0
FreeFrom m b e = (j : ℕ) → b ≤ j → j < e → heap_get_entry_type (m j) ≡ 0

-- The `n` blocks from `b` are free and stand in a table of `total` blocks.
pub record IsRun (m : Memory) (total b n : ℕ) : Type 0 where
  pub fits : b + n ≤ total
  pub free : FreeFrom m b (b + n)

-- What the loop keeps at block `i`.
abbrev Scanning : Memory → ℕ → ℕ → ℕ → Option ℕ → Type 0
Scanning m want i bc none = bc ≡ 0
Scanning m want i bc (some s) = (s + bc ≡ i) × (0 < bc) × (bc < want) × FreeFrom m s i

-- The blocks that the loop counts at present begin at or below `c`.
abbrev StartsBelow : ℕ → ℕ → Option ℕ → Type 0
StartsBelow c i none = i ≤ c
StartsBelow c i (some s) = s ≤ c

FreeFrom-suc :
    (m : Memory) (b i : ℕ) → FreeFrom m b i → heap_get_entry_type (m i) ≡ 0 → FreeFrom m b (i + 1)
FreeFrom-suc m b i f e j lo hi = elim (Bool-cases (j == i)) [
  | inl same ↦ let p : j ≡ i = (==_iff j i).0 same in rw p e
  | inr other ↦ f j lo (ground arith)
]

module _ (m : Memory) (want total : ℕ) where
  -- What the search returns: a run of `want` blocks at or before `c`.
  abbrev FoundBy : ℕ → Option ℕ → Type 0
  FoundBy c r = (b : ℕ) × (r ≡ some b) × (b ≤ c) × IsRun m total b want

  -- A free block is counted, and the search stops when the count is reached.
  grow :
      (i bc b c : ℕ) (rest : Option ℕ)
      → b + bc ≡ i
      → i < total
      → FreeFrom m b (i + 1)
      → b ≤ c
      → ((bc + 1 == want) ≡ false → FoundBy c rest)
      → FoundBy c (if bc + 1 == want then some b else rest)
  grow i bc b c rest at inside free below next = elim (Bool-cases (bc + 1 == want)) [
    | inl full ↦
        let e : i + 1 ≡ b + want = omega (arith, (==_iff (bc + 1) want).0 full) in
        rw full (b, refl, below, record { fits = omega arith; free = rw e at free })
    | inr more ↦ rw more (next more)
  ]

  free_here : (i : ℕ) → (heap_get_entry_type (m i) == 0) ≡ true → FreeFrom m i (i + 1)
  free_here i free = FreeFrom-suc m i i (λ j lo hi. absurd (omega arith)) ((==_iff _ _).0 free)

  -- A run at `c` is found, there or before it.
  search-IsRun :
      (rounds i bc : ℕ) (bs : Option ℕ) (c : ℕ)
      → i + rounds ≡ total
      → Scanning m want i bc bs
      → StartsBelow c i bs
      → 0 < want
      → IsRun m total c want
      → FoundBy c (search m want rounds i bc bs)
  unfolding search
  search-IsRun zero i bc none c at s below pos run = absurd (omega (arith, run.fits))
  search-IsRun zero i bc (some b) c at s below pos run = absurd (omega (arith, run.fits))
  search-IsRun (suc rounds) i bc none c at s below pos run =
      elim (Bool-cases (heap_get_entry_type (m i) == 0)) [
        | inl free ↦ rw free (
            grow i bc i c _ (omega arith) (omega arith) (free_here i free) below λ more.
              search-IsRun rounds (i + 1) (bc + 1) (some i) c (omega arith)
                (omega arith, omega arith, ground arith, free_here i free) below pos run)
        | inr busy ↦ rw busy (
            search-IsRun rounds (i + 1) 0 none c (omega arith) refl (ground (arith, run.free i)) pos
              run)
      ]
  search-IsRun (suc rounds) i bc (some b) c at s below pos run =
      elim (Bool-cases (heap_get_entry_type (m i) == 0)) [
        | inl free ↦ rw free (
            grow i bc b c _ s.0 (omega arith) (FreeFrom-suc m b i s.3 ((==_iff _ _).0 free)) below
              λ more.
                search-IsRun rounds (i + 1) (bc + 1) (some b) c (omega arith)
                  (
                    omega arith,
                    omega arith,
                    ground arith,
                    FreeFrom-suc m b i s.3 ((==_iff _ _).0 free),
                  )
                  below pos run)
        | inr busy ↦ rw busy (
            search-IsRun rounds (i + 1) 0 none c (omega arith) refl (ground (arith, run.free i)) pos
              run)
      ]

  -- What the search returns, where it returns a block: a run, or free blocks up to the end of the
  -- table, which are too few.
  abbrev pub Sound : Option ℕ → Type 0
  Sound none = Unit
  Sound (some b) = IsRun m total b want ⊎ ((b < total) × (total < b + want) × FreeFrom m b total)

  grow-Sound :
      (i bc b : ℕ) (rest : Option ℕ)
      → b + bc ≡ i
      → i < total
      → FreeFrom m b (i + 1)
      → ((bc + 1 == want) ≡ false → Sound rest)
      → Sound (if bc + 1 == want then some b else rest)
  grow-Sound i bc b rest at inside free next = elim (Bool-cases (bc + 1 == want)) [
    | inl full ↦
        let e : i + 1 ≡ b + want = omega (arith, (==_iff (bc + 1) want).0 full) in
        rw full (inl (record { fits = omega arith; free = rw e at free }))
    | inr more ↦ rw more (next more)
  ]

  search-Sound :
      (rounds i bc : ℕ) (bs : Option ℕ)
      → i + rounds ≡ total
      → Scanning m want i bc bs
      → 0 < want
      → Sound (search m want rounds i bc bs)
  unfolding search
  search-Sound zero i bc none at s pos = tt
  search-Sound zero i bc (some b) at s pos =
      let e : i ≡ total = omega arith in inr (omega arith, omega arith, rw e at s.3)
  search-Sound (suc rounds) i bc none at s pos =
      elim (Bool-cases (heap_get_entry_type (m i) == 0)) [
        | inl free ↦ rw free (
            grow-Sound i bc i _ (omega arith) (omega arith) (free_here i free) λ more.
              search-Sound rounds (i + 1) (bc + 1) (some i) (omega arith)
                (omega arith, omega arith, ground arith, free_here i free) pos)
        | inr busy ↦ rw busy (search-Sound rounds (i + 1) 0 none (omega arith) refl pos)
      ]
  search-Sound (suc rounds) i bc (some b) at s pos =
      elim (Bool-cases (heap_get_entry_type (m i) == 0)) [
        | inl free ↦ rw free (
            grow-Sound i bc b _ s.0 (omega arith) (FreeFrom-suc m b i s.3 ((==_iff _ _).0 free))
              λ more.
                search-Sound rounds (i + 1) (bc + 1) (some b) (omega arith)
                  (
                    omega arith,
                    omega arith,
                    ground arith,
                    FreeFrom-suc m b i s.3 ((==_iff _ _).0 free),
                  )
                  pos)
        | inr busy ↦ rw busy (search-Sound rounds (i + 1) 0 none (omega arith) refl pos)
      ]

-- Where the table has `n` > 0 free blocks in a row at some block `c`, heap_get_start_block returns
-- the first block of such a run, at `c` or before it.
pub heap_get_start_block-first_fit :
    (h : Heap) (n c : ℕ)
    → 0 < n
    → IsRun h.table.entries h.table.total c n
    → (b : ℕ) × (heap_get_start_block h n ≡ ok b)
      × (b ≤ c)
      × IsRun h.table.entries h.table.total b n
unfolding heap_get_start_block
heap_get_start_block-first_fit h n c nz run =
    let (b, found, below, is) =
      search-IsRun h.table.entries n h.table.total h.table.total 0 0 none c (omega arith) refl
        (omega arith) nz run in
    (b, rw (found, heap_get_start_block), below, is)

-- Where it returns a block at all, for `n` > 0, that is a run or begins the free blocks at the end
-- of the table, which are fewer than `n`.
pub heap_get_start_block-Sound :
    (h : Heap) (n b : ℕ)
    → 0 < n
    → heap_get_start_block h n ≡ ok b
    → Sound h.table.entries n h.table.total (some b)
unfolding heap_get_start_block
heap_get_start_block-Sound h n b pos e =
    let found = search h.table.entries n h.table.total 0 0 none in
    let sound =
      search-Sound h.table.entries n h.table.total h.table.total 0 0 none (omega arith) refl pos in
    let p : found ≡ some b = ground arith in rw p at sound
