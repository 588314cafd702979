-- ===== src/Paging/Mapping/Kept.antt =====
-- What the mapping of pages, of memory/paging/paging.c, leaves of the words behind the page tables.
use mathlib.Core.Path.{subst}
use custom_os.Base.{
  Result, ℕ, zero, suc, ◌+◌, ◌-◌, ◌/◌, ◌%◌, ◌^◌, ◌<◌, ◌≤◌, ◌≡◌, ◌≢◌, refl, ◌∙◌, ap, arith, Memory,
  ok, bit_or, store, store_ne,
}
use custom_os.Paging.{paging_map, paging_map_range, paging_map_to}
use custom_os.Paging.Slots.{
  IsDirectory, nth_table, nth_table-store, slot, paging_set-slot, paging_get-paging_set,
}
use custom_os.Paging.Mapping.{IsRange, paging_map-eq, paging_map_range-suc, map_to-range}

-- The word at `a` stands behind every table of the directory.
abbrev pub IsBehind : Memory → ℕ → ℕ → Type 0
IsBehind m dir a = (i : ℕ) → i < 1024 → nth_table m dir i + 4096 ≤ a

-- One page.
map-kept :
    (m : Memory) (dir virt phys flags a : ℕ)
    → IsDirectory m dir
    → virt % 4096 ≡ 0
    → virt < 2 ^ 32
    → phys % 4096 ≡ 0
    → IsBehind m dir a
    → ((paging_map m dir virt phys flags).0 ≡ ok tt)
      × ((paging_map m dir virt phys flags).1 a ≡ m a)
      × IsDirectory (paging_map m dir virt phys flags).1 dir
      × IsBehind (paging_map m dir virt phys flags).1 dir a
map-kept m dir virt phys flags a is av low ap behind =
    let val = bit_or phys flags in
    let e = paging_map-eq m dir virt phys flags av ap ∙ paging_set-slot m dir virt val av in
    let here = behind (virt / 4194304) (omega arith) in
    let off : slot m dir virt ≢ a = λ same. omega (arith, same, here) in
    let set = paging_get-paging_set m dir virt 0 val is av refl low (omega arith) in
    let kept : IsDirectory (store m (slot m dir virt) val) dir =
      subst (λ (r : Result (Unit {0}) × Memory). IsDirectory r.1 dir)
        (paging_set-slot m dir virt val av) set.2 in
    rw e (
      refl,
      store_ne m (slot m dir virt) a val off,
      kept,
      λ i lt. rw (nth_table-store m dir is virt val i low lt) (behind i lt),
    )

paging_map_range-kept :
    (count : ℕ) (m : Memory) (dir virt phys flags a : ℕ)
    → IsDirectory m dir
    → IsRange virt count
    → IsRange phys count
    → IsBehind m dir a
    → ((paging_map_range m dir virt phys count flags).1 a ≡ m a)
      × IsBehind (paging_map_range m dir virt phys count flags).1 dir a
unfolding paging_map_range
paging_map_range-kept zero m dir virt phys flags a is hv hp behind = (refl, behind)
paging_map_range-kept (suc count) m dir virt phys flags a is hv hp behind =
    let (done, kept, is', behind') =
      map-kept m dir virt phys flags a is hv.0 (omega arith) hp.0 behind in
    let next =
      paging_map_range-kept count (paging_map m dir virt phys flags).1 dir ((virt + 4096) % 2 ^ 32)
        ((phys + 4096) % 2 ^ 32) flags a is' (omega arith) (omega arith) behind' in
    rw (paging_map_range-suc m dir virt phys count flags done) (next.0 ∙ kept, next.1)

-- paging_map_to leaves a word behind all tables, and the tables in front of it.
pub paging_map_to-kept :
    (m : Memory) (dir virt phys phys_end flags a : ℕ)
    → IsDirectory m dir
    → IsRange virt ((phys_end - phys) / 4096)
    → phys % 4096 ≡ 0
    → phys_end % 4096 ≡ 0
    → phys ≤ phys_end
    → phys_end < 2 ^ 32
    → IsBehind m dir a
    → ((paging_map_to m dir virt phys phys_end flags).1 a ≡ m a)
      × IsBehind (paging_map_to m dir virt phys phys_end flags).1 dir a
paging_map_to-kept m dir virt phys phys_end flags a is hv hp he le top behind =
    rw (map_to-range m dir virt phys phys_end flags hv.0 hp he le) (
      paging_map_range-kept ((phys_end - phys) / 4096) m dir virt phys flags a is hv (omega arith)
        behind)
