-- ===== src/Paging/Chunk/Tables.antt =====
-- The outer loop of paging_new_4gb of memory/paging/paging.c: table after table.
use custom_os.Base.{
  ℕ, zero, suc, ◌+◌, ◌*◌, ◌%◌, ◌^◌, ◌<◌, ◌≤◌, ◌≡◌, refl, ◌∙◌, ap, arith, ◌⊎◌, inl, inr, Bool-cases,
  ◌==◌, Memory,
}
use custom_os.Heap.{Kernel, kzalloc}
use custom_os.Heap.Sequence.{IsFilled, kzalloc-Allocates}
use custom_os.Paging.{table_of}
use custom_os.Paging.Chunk.{new_tables}
use custom_os.Paging.Chunk.Words.{one_table, one_table-named, one_table-word, one_table-others}

-- What the outer loop leaves, from table `i` to `i + n`: table `j` is the page at `e0 + j * 4096`.
pub record Tables (k : Kernel) (m : Memory) (dir flags e0 n i c : ℕ) (out : Kernel × Memory)
    : Type 0 where
  pub filled : IsFilled (out.0.heap) (c + n)
  pub saddr : out.0.heap.saddr ≡ k.heap.saddr
  pub total : out.0.heap.table.total ≡ k.heap.table.total
  pub named : (j : ℕ) → i ≤ j → j < i + n → table_of (out.1 (dir + 4 * j)) ≡ e0 + j * 4096
  pub words :
      (j b : ℕ)
      → i ≤ j
      → j < i + n
      → b < 1024
      → out.1 (e0 + j * 4096 + 4 * b) ≡ (j * 1024 + b) * 4096 + flags
  pub others :
      (a : ℕ)
      → (a < e0 + i * 4096) ⊎ (e0 + (i + n) * 4096 ≤ a)
      → (a < dir + 4 * i) ⊎ (dir + 4 * (i + n) ≤ a)
      → out.1 a ≡ m a
  pub below : (a : ℕ) → a < e0 + i * 4096 → (out.0).memory a ≡ k.memory a

-- The first table in front of the others.
Tables-before :
    (k k1 : Kernel) (m : Memory) (dir flags e0 n i c : ℕ) (out : Kernel × Memory)
    → flags < 4096
    → i + suc n ≤ 1024
    → dir + 4096 ≤ e0
    → e0 % 4096 ≡ 0
    → k1.heap.saddr ≡ k.heap.saddr
    → k1.heap.table.total ≡ k.heap.table.total
    → ((a : ℕ) → a < e0 + i * 4096 → k1.memory a ≡ k.memory a)
    → Tables k1 (one_table m dir flags i (e0 + i * 4096)) dir flags e0 n (i + 1) (c + 1) out
    → Tables k m dir flags e0 (suc n) i c out
Tables-before k k1 m dir flags e0 n i c out small room before aligned same same' kept t = record {
  filled = let e : c + suc n ≡ c + 1 + n = omega arith in rw e t.filled;
  saddr = t.saddr ∙ same;
  total = t.total ∙ same';
  named = λ j lo hi. elim (Bool-cases (j == i)) [
    | inl here ↦
        let e : j ≡ i = ground arith in
        rw (e, t.others (dir + 4 * i) (inl (omega arith)) (inl (omega arith)))
          (one_table-named m dir flags i (e0 + i * 4096) (omega arith) small)
    | inr later ↦ t.named j (ground arith) (omega arith)
  ];
  words = λ j b lo hi hb. elim (Bool-cases (j == i)) [
    | inl here ↦
        let e : j ≡ i = ground arith in
        rw (e, t.others (e0 + i * 4096 + 4 * b) (inl (omega arith)) (inr (omega arith)))
          (one_table-word m dir flags i (e0 + i * 4096) b (omega arith) hb small (omega arith))
    | inr later ↦ t.words j b (ground arith) (omega arith) hb
  ];
  others = λ a h h'.
      t.others a (page_before a h) (word_before a h')
      ∙ one_table-others m dir flags i (e0 + i * 4096) a (page_here a h) (word_here a h');
  below = λ a lt. t.below a (omega arith) ∙ kept a lt;
}
  where
    page_before :
        (a : ℕ)
        → (a < e0 + i * 4096) ⊎ (e0 + (i + suc n) * 4096 ≤ a)
        → (a < e0 + (i + 1) * 4096) ⊎ (e0 + (i + 1 + n) * 4096 ≤ a)
    page_before a (inl lo) = inl (omega arith)
    page_before a (inr hi) = inr (omega arith)

    page_here :
        (a : ℕ)
        → (a < e0 + i * 4096) ⊎ (e0 + (i + suc n) * 4096 ≤ a)
        → (a < e0 + i * 4096) ⊎ (e0 + i * 4096 + 4096 ≤ a)
    page_here a (inl lo) = inl lo
    page_here a (inr hi) = inr (omega arith)

    word_before :
        (a : ℕ)
        → (a < dir + 4 * i) ⊎ (dir + 4 * (i + suc n) ≤ a)
        → (a < dir + 4 * (i + 1)) ⊎ (dir + 4 * (i + 1 + n) ≤ a)
    word_before a (inl lo) = inl (omega arith)
    word_before a (inr hi) = inr (omega arith)

    word_here :
        (a : ℕ)
        → (a < dir + 4 * i) ⊎ (dir + 4 * (i + suc n) ≤ a)
        → (a < dir + 4 * i) ⊎ (dir + 4 * (i + 1) ≤ a)
    word_here a (inl lo) = inl lo
    word_here a (inr hi) = inr (omega arith)

new_tables-step :
    (k : Kernel) (m : Memory) (dir flags n i e : ℕ)
    → (kzalloc k 4096).0 ≡ e
    → new_tables k m dir flags (i * 4194304 % 2 ^ 32) (suc n) i
      ≡ new_tables
          (kzalloc k 4096).1
          (one_table m dir flags i e)
          dir
          flags
          ((i + 1) * 4194304 % 2 ^ 32)
          n
          (i + 1)
unfolding new_tables one_table
new_tables-step k m dir flags n i e entry =
    let next : (i * 4194304 % 2 ^ 32 + 4194304) % 2 ^ 32 ≡ (i + 1) * 4194304 % 2 ^ 32 =
      omega arith in
    ap
      (λ o.
        new_tables (kzalloc k 4096).1 (one_table m dir flags i (kzalloc k 4096).0) dir flags o n
          (i + 1))
      next
    ∙ ap
        (λ x.
          new_tables (kzalloc k 4096).1 (one_table m dir flags i x) dir flags
            ((i + 1) * 4194304 % 2 ^ 32) n (i + 1))
        entry

pub new_tables-Tables :
    (n dir flags e0 i c : ℕ) (k : Kernel) (m : Memory)
    → flags < 4096
    → i + n ≤ 1024
    → dir + 4096 ≤ e0
    → e0 % 4096 ≡ 0
    → 0 < k.heap.saddr
    → IsFilled k.heap c
    → c + n ≤ k.heap.table.total
    → k.heap.saddr + c * 4096 ≡ e0 + i * 4096
    → Tables k m dir flags e0 n i c (new_tables k m dir flags (i * 4194304 % 2 ^ 32) n i)
unfolding new_tables
new_tables-Tables zero dir flags e0 i c k m small room before aligned somewhere f fits at = record {
  filled = let e : c + 0 ≡ c = omega arith in rw e f;
  saddr = refl;
  total = refl;
  named = λ j lo hi. absurd (omega arith);
  words = λ j b lo hi hb. absurd (omega arith);
  others = λ a h h'. refl;
  below = λ a lt. refl;
}
new_tables-Tables (suc n) dir flags e0 i c k m small room before aligned somewhere f fits at =
    let z = kzalloc-Allocates k 4096 c (omega arith) (omega arith) somewhere f (omega arith) in
    let e = e0 + i * 4096 in
    let entry : (kzalloc k 4096).0 ≡ e = z.address ∙ at in
    let later =
      new_tables-Tables n dir flags e0 (i + 1) (c + 1) (kzalloc k 4096).1
        (one_table m dir flags i e) small (omega arith) before aligned
        (omega (arith, z.saddr, somewhere)) z.filled (omega (arith, z.total))
        (omega (arith, z.saddr)) in
    rw (new_tables-step k m dir flags n i e entry) (
      Tables-before k (kzalloc k 4096).1 m dir flags e0 n i c _ small room before aligned z.saddr
        z.total (λ a lt. z.below a (omega (arith, at))) later)
