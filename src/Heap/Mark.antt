-- ===== src/Heap/Mark.antt =====
-- What heap_mark_blocks_taken writes, and that heap_mark_blocks_free undoes it (memory/heap/heap.c).
use custom_os.Base.{
  ℕ, zero, suc, ◌+◌, ◌-◌, ◌/◌, ◌%◌, ◌<◌, ◌≤◌, ◌≡◌, ◌≢◌, inl, inr, Memory, store, ltb, ◌==◌,
  if◌then◌else◌, arith, Bool-cases,
}
use custom_os.Heap.{Heap, mark_taken, mark_free, heap_mark_blocks_taken, heap_mark_blocks_free}
use custom_os.Memory.Laws.{inside}

-- The entry of block `j` of an allocation of `n` blocks from `b`.
abbrev pub chain_entry : ℕ → ℕ → ℕ → ℕ
chain_entry b n j =
    if j == b then (if ltb 1 n then 0xC1 else 0x41) else if j + 1 == b + n then 0x01 else 0x81

mark_taken_lem :
    (m : Memory) (rounds i end_block entry j : ℕ)
    → i + rounds ≡ end_block + 1
    → mark_taken m rounds i end_block entry j ≡ (
        if inside i rounds j
        then (if j == i then entry else if j == end_block then 0x01 else 0x81)
        else m j)
unfolding mark_taken
mark_taken_lem m zero i end_block entry j at = ground arith
mark_taken_lem m (suc rounds) i end_block entry j at = ground (
  arith,
  mark_taken_lem (store m i entry) rounds (i + 1) end_block
      (if i + 1 == end_block then 0x01 else 0x81) j (omega arith),
)

-- The `n` > 0 blocks from `b` get the entries of an allocation, and the others stay.
pub heap_mark_blocks_taken_lem :
    (h : Heap) (b n j : ℕ)
    → 0 < n
    → (heap_mark_blocks_taken h b n).table.entries j
      ≡ (if inside b n j then chain_entry b n j else h.table.entries j)
unfolding heap_mark_blocks_taken
heap_mark_blocks_taken_lem h b n j pos = ground (
  arith,
  mark_taken_lem h.table.entries n b (b + n - 1) (if ltb 1 n then 0xC1 else 0x41) j (omega arith),
)

-- The entries from `b` up to `e` are linked: all but the last have a next block.
pub record IsChain (m : Memory) (b n : ℕ) : Type 0 where
  pub linked : (j : ℕ) → b ≤ j → j + 1 < b + n → m j / 128 % 2 ≡ 1
  pub ends : (j : ℕ) → j + 1 ≡ b + n → m j / 128 % 2 ≡ 0

mark_free_lem :
    (m : Memory) (rounds i n j : ℕ)
    → 0 < n
    → n ≤ rounds
    → IsChain m i n
    → mark_free m rounds i j ≡ (if inside i n j then 0 else m j)
unfolding mark_free
mark_free_lem m zero i n j pos fits c = absurd (omega arith)
mark_free_lem m (suc rounds) i n j pos fits c = elim (Bool-cases (n == 1)) [
  | inl one ↦ ground (arith, c.ends i)
  | inr more ↦
      let longer : n ≢ 1 = ground arith in
      let shorter : IsChain (store m i 0) (i + 1) (n - 1) = record {
        linked = λ k lo hi. ground (arith, c.linked k);
        ends = λ k e. ground (arith, c.ends k);
      } in
      ground (
        arith,
        c.linked i,
        mark_free_lem (store m i 0) rounds (i + 1) (n - 1) j (omega arith) (omega arith) shorter,
      )
]

-- heap_mark_blocks_free frees the chain that begins at `b`, and nothing else.
pub heap_mark_blocks_free_lem :
    (h : Heap) (b n j : ℕ)
    → 0 < n
    → b + n ≤ h.table.total
    → IsChain h.table.entries b n
    → (heap_mark_blocks_free h b).table.entries j ≡ (if inside b n j then 0 else h.table.entries j)
unfolding heap_mark_blocks_free
heap_mark_blocks_free_lem h b n j pos fits c =
    mark_free_lem h.table.entries (h.table.total - b) b n j pos (omega arith) c

-- What heap_mark_blocks_taken writes is a chain.
pub IsChain-chain_entry :
    (m m' : Memory) (b n : ℕ)
    → 0 < n
    → ((j : ℕ) → m' j ≡ (if inside b n j then chain_entry b n j else m j))
    → IsChain m' b n
IsChain-chain_entry m m' b n nz is = record {
  linked = λ j lo hi. ground (arith, is j);
  ends = λ j e. ground (arith, is j);
}
