-- ===== src/Paging/Chunk/Words.antt =====
-- The inner loop of paging_new_4gb of memory/paging/paging.c: the words of one table.
use custom_os.Base.{
  ℕ, zero, suc, ◌+◌, ◌*◌, ◌/◌, ◌%◌, ◌^◌, ◌<◌, ◌≤◌, ◌≡◌, ◌≢◌, refl, ◌∙◌, ap, arith, ◌⊎◌, inl, inr,
  Bool-cases, ◌==◌, Memory, store, store_self, store_ne, bit_or,
}
use custom_os.Base.Bits.{bit_or_fields, bit_or_high}
use custom_os.Paging.{table_of}
use custom_os.Paging.Chunk.{fill_table}

fill_table-out :
    (entry offset flags n b a : ℕ) (m : Memory)
    → (a < entry + 4 * b) ⊎ (entry + 4 * (b + n) ≤ a)
    → fill_table m entry offset flags n b a ≡ m a
unfolding fill_table
fill_table-out entry offset flags zero b a m h = refl
fill_table-out entry offset flags (suc n) b a m h =
    fill_table-out entry offset flags n (b + 1) a _ (apart h)
    ∙ store_ne m (entry + 4 * b) a _ (ne h)
  where
    apart :
        (a < entry + 4 * b) ⊎ (entry + 4 * (b + suc n) ≤ a)
        → (a < entry + 4 * (b + 1)) ⊎ (entry + 4 * (b + 1 + n) ≤ a)
    apart (inl lo) = inl (omega arith)
    apart (inr hi) = inr (omega arith)

    ne : (a < entry + 4 * b) ⊎ (entry + 4 * (b + suc n) ≤ a) → entry + 4 * b ≢ a
    ne (inl lo) e = omega arith
    ne (inr hi) e = omega arith

fill_table-at :
    (entry offset flags n b k : ℕ) (m : Memory)
    → b ≤ k
    → k < b + n
    → fill_table m entry offset flags n b (entry + 4 * k)
      ≡ bit_or ((offset + k * 4096) % 2 ^ 32) flags
unfolding fill_table
fill_table-at entry offset flags zero b k m lo hi = absurd (omega arith)
fill_table-at entry offset flags (suc n) b k m lo hi = elim (Bool-cases (k == b)) [
  | inl here ↦
      let e : k ≡ b = ground arith in
      rw e (
        fill_table-out entry offset flags n (b + 1) (entry + 4 * b) _ (inl (omega arith))
        ∙ store_self m (entry + 4 * b) _)
  | inr later ↦ fill_table-at entry offset flags n (b + 1) k _ (ground arith) (omega arith)
]

-- The entry of the directory for a table.
named_table : (e flags : ℕ) → e % 4096 ≡ 0 → flags < 4096 → table_of (bit_or (bit_or e flags) 2) ≡ e
named_table e flags aligned small =
    let page : e ≡ e / 4096 * 2 ^ 12 = omega arith in
    let (s, low, or) = bit_or_high 12 (e / 4096) flags 2 small (omega arith) in
    let fields = bit_or_fields 12 (e / 4096) flags small in
    let whole : bit_or (bit_or e flags) 2 ≡ e + s =
      ap (λ x. bit_or (bit_or x flags) 2) page
      ∙ (ap (λ x. bit_or x 2) fields ∙ (or ∙ omega arith)) in
    rw whole (omega arith)

-- One word of a table.
word_lem :
    (j b flags : ℕ)
    → j < 1024
    → b < 1024
    → flags < 4096
    → bit_or ((j * 4194304 + b * 4096) % 2 ^ 32) flags ≡ (j * 1024 + b) * 4096 + flags
word_lem j b flags hj hb small =
    let page : (j * 4194304 + b * 4096) % 2 ^ 32 ≡ (j * 1024 + b) * 2 ^ 12 = omega arith in
    rw page (bit_or_fields 12 (j * 1024 + b) flags small)

-- One more table, with its entry in the directory.
unfoldable pub one_table : Memory → ℕ → ℕ → ℕ → ℕ → Memory
one_table m dir flags i e =
    store (fill_table m e (i * 4194304 % 2 ^ 32) flags 1024 0) (dir + 4 * i)
      (bit_or (bit_or e flags) 2)

pub one_table-named :
    (m : Memory) (dir flags i e : ℕ)
    → e % 4096 ≡ 0
    → flags < 4096
    → table_of (one_table m dir flags i e (dir + 4 * i)) ≡ e
unfolding one_table
one_table-named m dir flags i e aligned small =
    rw
      (store_self (fill_table m e (i * 4194304 % 2 ^ 32) flags 1024 0) (dir + 4 * i)
        (bit_or (bit_or e flags) 2))
      (named_table e flags aligned small)

pub one_table-word :
    (m : Memory) (dir flags i e b : ℕ)
    → i < 1024
    → b < 1024
    → flags < 4096
    → dir + 4096 ≤ e
    → one_table m dir flags i e (e + 4 * b) ≡ (i * 1024 + b) * 4096 + flags
unfolding one_table
one_table-word m dir flags i e b hi hb small before =
    let whole : i * 4194304 % 2 ^ 32 ≡ i * 4194304 = omega arith in
    store_ne (fill_table m e (i * 4194304 % 2 ^ 32) flags 1024 0) (dir + 4 * i) (e + 4 * b) _
      (λ same. omega arith)
    ∙ (fill_table-at e (i * 4194304 % 2 ^ 32) flags 1024 0 b m (omega arith) (omega arith)
        ∙ rw whole (word_lem i b flags hi hb small))

pub one_table-others :
    (m : Memory) (dir flags i e a : ℕ)
    → (a < e) ⊎ (e + 4096 ≤ a)
    → (a < dir + 4 * i) ⊎ (dir + 4 * (i + 1) ≤ a)
    → one_table m dir flags i e a ≡ m a
unfolding one_table
one_table-others m dir flags i e a apart apart' =
    store_ne (fill_table m e (i * 4194304 % 2 ^ 32) flags 1024 0) (dir + 4 * i) a _ (other apart')
    ∙ fill_table-out e (i * 4194304 % 2 ^ 32) flags 1024 0 a m (outside apart)
  where
    other : (a < dir + 4 * i) ⊎ (dir + 4 * (i + 1) ≤ a) → dir + 4 * i ≢ a
    other (inl lo) same = omega arith
    other (inr hi) same = omega arith

    outside : (a < e) ⊎ (e + 4096 ≤ a) → (a < e + 4 * 0) ⊎ (e + 4 * (0 + 1024) ≤ a)
    outside (inl lo) = inl (omega arith)
    outside (inr hi) = inr (omega arith)
