-- ===== src/Paging/Chunk/Identity.antt =====
-- The tables that paging_new_4gb of memory/paging/paging.c makes, against the identity.
use custom_os.Base.{
  ℕ, ◌+◌, ◌-◌, ◌*◌, ◌/◌, ◌%◌, ◌^◌, ◌<◌, ◌≤◌, ◌≡◌, ◌≢◌, ◌∙◌, ap, arith, Memory, store, store_self,
  store_ne,
}
use custom_os.Heap.{Kernel, kzalloc}
use custom_os.Heap.Sequence.{IsFilled, kzalloc-Allocates}
use custom_os.Paging.{table_of, paging_get, paging_get_physical_address, paging_align_to_lower_page}
use custom_os.Paging.Slots.{IsDirectory, slot, paging_get-slot}
use custom_os.Paging.Mapping.Kept.{IsBehind}
use custom_os.Paging.Chunk.{Paging4gbChunk, new_tables, paging_new_4gb}
use custom_os.Paging.Chunk.Tables.{new_tables-Tables}

-- The directory `dir` names the pages from `e0` on, and the words there map each page to itself.
record MapsItself (m : Memory) (dir flags e0 : ℕ) : Type 0 where
  aligned : (dir % 4096 ≡ 0) × (e0 % 4096 ≡ 0)
  before : dir + 4096 ≤ e0
  named : (j : ℕ) → j < 1024 → table_of (m (dir + 4 * j)) ≡ e0 + j * 4096
  words :
      (j b : ℕ) → j < 1024 → b < 1024 → m (e0 + j * 4096 + 4 * b) ≡ (j * 1024 + b) * 4096 + flags

MapsItself-IsDirectory :
    (m : Memory) (dir flags e0 : ℕ) → MapsItself m dir flags e0 → IsDirectory m dir
MapsItself-IsDirectory m dir flags e0 t = record {
  aligned = t.aligned.0;
  apart = λ i j hi hj ne same. ne (omega (arith, same, t.named i hi, t.named j hj));
  separate = λ i hi same. omega (arith, same, t.named i hi, t.before);
}

MapsItself-get :
    (m : Memory) (dir flags e0 virt : ℕ)
    → MapsItself m dir flags e0
    → virt < 2 ^ 32
    → virt % 4096 ≡ 0
    → paging_get m dir virt ≡ virt + flags
MapsItself-get m dir flags e0 virt t small page =
    let d = virt / 4194304 in
    let b = virt % 4194304 / 4096 in
    let stands : slot m dir virt ≡ e0 + d * 4096 + 4 * b =
      ap (λ p. p + 4 * b) (t.named d (omega arith)) in
    paging_get-slot m dir virt page
    ∙ (ap m stands ∙ (t.words d b (omega arith) (omega arith) ∙ omega arith))

MapsItself-physical :
    (m : Memory) (dir flags e0 virt : ℕ)
    → MapsItself m dir flags e0
    → flags < 4096
    → virt < 2 ^ 32
    → paging_get_physical_address m dir virt ≡ virt
unfolding paging_get_physical_address paging_align_to_lower_page
MapsItself-physical m dir flags e0 virt t small low =
    let at = MapsItself-get m dir flags e0 (virt - virt % 4096) t (omega arith) (omega arith) in
    rw at (omega arith)

-- What paging_new_4gb returns, for an address.
pub record IsIdentity (k : Kernel) (virt flags c : ℕ) (out : Paging4gbChunk) : Type 0 where
  pub directory : IsDirectory out.pages out.directory_entry
  pub entry :
      paging_get out.pages out.directory_entry (virt - virt % 4096) ≡ virt - virt % 4096 + flags
  pub physical : paging_get_physical_address out.pages out.directory_entry virt ≡ virt
  pub chunk : out.pages out.chunk ≡ out.directory_entry
  pub filled : IsFilled (out.kernel.heap) (c + 1026)
  pub somewhere : out.chunk ≢ 0
  pub behind : IsBehind out.pages out.directory_entry out.chunk
  pub below : (a : ℕ) → a < k.heap.saddr + c * 4096 → out.kernel.memory a ≡ k.memory a

-- On a heap with an aligned pool other than at 0, whose first `c` blocks are taken and whose others, at
-- least 1026, are free, paging_new_4gb makes a directory of 1024 different pages that maps every page of
-- the address space to itself with the flags, so that the physical address of every address is the
-- address itself; it takes 1026 blocks of the heap, returns an address other than 0 behind all tables, and leaves the
-- bytes in front of those blocks.
pub paging_new_4gb-IsIdentity :
    (k : Kernel) (m : Memory) (flags c virt : ℕ)
    → flags < 256
    → k.heap.saddr % 4096 ≡ 0
    → 0 < k.heap.saddr
    → IsFilled k.heap c
    → c + 1026 ≤ k.heap.table.total
    → virt < 2 ^ 32
    → IsIdentity k virt flags c (paging_new_4gb k m flags)
unfolding paging_new_4gb
paging_new_4gb-IsIdentity k m flags c virt small aligned somewhere f room low =
    let z = kzalloc-Allocates k 4 c (omega arith) (omega arith) somewhere f (omega arith) in
    let k1 = (kzalloc k 4).1 in
    let dir = (kzalloc k 4).0 in
    let e0 = dir + 4096 in
    let t =
      new_tables-Tables 1024 dir flags e0 0 (c + 1) k1 m (omega arith) (omega arith) (omega arith)
        (omega (arith, z.address, aligned)) (omega (arith, z.saddr, somewhere)) z.filled
        (omega (arith, z.total)) (omega (arith, z.saddr, z.address)) in
    let out = new_tables k1 m dir flags 0 1024 0 in
    let y =
      kzalloc-Allocates out.0 4 (c + 1 + 1024) (omega arith) (omega arith)
        (omega (arith, t.saddr, z.saddr, somewhere)) t.filled (omega (arith, t.total, z.total)) in
    let chunk = (kzalloc out.0 4).0 in
    let above : e0 + 1024 * 4096 ≤ chunk = omega (arith, y.address, t.saddr, z.saddr, z.address) in
    let itself : MapsItself (store out.1 chunk dir) dir flags e0 = record {
      aligned = (omega (arith, z.address, aligned), omega (arith, z.address, aligned));
      before = omega arith;
      named = λ j hj.
          ap table_of (store_ne out.1 chunk (dir + 4 * j) dir (λ same. omega (arith, above, same)))
          ∙ t.named j (omega arith) (omega arith);
      words = λ j b hj hb.
          store_ne out.1 chunk (e0 + j * 4096 + 4 * b) dir (λ same. omega (arith, above, same))
          ∙ t.words j b (omega arith) (omega arith) hb;
    } in
    record {
      directory = MapsItself-IsDirectory (store out.1 chunk dir) dir flags e0 itself;
      entry =
          MapsItself-get (store out.1 chunk dir) dir flags e0 (virt - virt % 4096) itself
            (omega arith) (omega arith);
      physical =
          MapsItself-physical (store out.1 chunk dir) dir flags e0 virt itself (omega arith) low;
      chunk = store_self out.1 chunk dir;
      filled = let e : c + 1026 ≡ c + 1 + 1024 + 1 = omega arith in rw e y.filled;
      behind = λ i lt. omega (arith, itself.named i lt, above);
      somewhere = λ e. omega (arith, e, above, z.address, somewhere);
      below = λ a lt.
          y.below a (omega (arith, t.saddr, z.saddr))
          ∙ (t.below a (omega (arith, z.address)) ∙ z.below a lt);
    }
