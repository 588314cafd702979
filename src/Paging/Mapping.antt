-- ===== src/Paging/Mapping.antt =====
-- paging_map, paging_map_range and paging_map_to of memory/paging/paging.c: what paging_get returns
-- for each page afterwards.
pub mod Kept
use custom_os.Base.{
  ℕ, zero, suc, ◌+◌, ◌-◌, ◌*◌, ◌/◌, ◌%◌, ◌^◌, ◌<◌, ◌≤◌, ◌≡◌, ◌≢◌, refl, ◌⊎◌, inl, inr, Memory, ◌==◌,
  if◌then◌else◌, arith, Bool-cases, Result, ok, err, einvarg, bit_or, ◌∙◌,
}
use custom_os.Paging.{paging_set, paging_get, paging_map, paging_map_range, paging_map_to}
use custom_os.Paging.Slots.{IsDirectory, paging_get-paging_set}
use custom_os.Memory.Laws.{inside}

-- The page `w` of `m'`, after `count` pages from `virt` have been mapped to those from `phys` in `m`.
abbrev pub mapped : Memory → ℕ → ℕ → ℕ → ℕ → ℕ → ℕ → ℕ
mapped m dir virt phys count flags w =
    if inside virt (4096 * count) w then bit_or (phys + (w - virt)) flags else paging_get m dir w

-- A range of `count` pages that does not reach beyond the address space.
abbrev pub IsRange : ℕ → ℕ → Type 0
IsRange a count = (a % 4096 ≡ 0) × (a + 4096 * count ≤ 2 ^ 32)

pub paging_map-eq :
    (m : Memory) (dir v p flags : ℕ)
    → v % 4096 ≡ 0
    → p % 4096 ≡ 0
    → paging_map m dir v p flags ≡ paging_set m dir v (bit_or p flags)
unfolding paging_map
paging_map-eq m dir v p flags av ap = ground arith

-- A result that is a success, in whose memory the pages are mapped and the directory is as required.
pub record Maps (m : Memory) (dir virt phys count flags w : ℕ) (r : Result (Unit {0}) × Memory)
    : Type 0 where
  pub succeeds : r.0 ≡ ok tt
  pub page : paging_get r.1 dir w ≡ mapped m dir virt phys count flags w
  pub directory : IsDirectory r.1 dir

pub paging_map_range-suc :
    (m : Memory) (dir virt phys count flags : ℕ)
    → (paging_map m dir virt phys flags).0 ≡ ok tt
    → paging_map_range m dir virt phys (suc count) flags
      ≡ paging_map_range
          (paging_map m dir virt phys flags).1
          dir
          ((virt + 4096) % 2 ^ 32)
          ((phys + 4096) % 2 ^ 32)
          count
          flags
unfolding paging_map_range
paging_map_range-suc m dir virt phys count flags e = rw (e, paging_map_range)

mapped-suc :
    (m m1 : Memory) (dir virt phys count flags w : ℕ)
    → IsRange virt (suc count)
    → IsRange phys (suc count)
    → w % 4096 ≡ 0
    → paging_get m1 dir w ≡ (if virt == w then bit_or phys flags else paging_get m dir w)
    → mapped m1 dir ((virt + 4096) % 2 ^ 32) ((phys + 4096) % 2 ^ 32) count flags w
      ≡ mapped m dir virt phys (suc count) flags w
mapped-suc m m1 dir virt phys count flags w hv hp aw one = elim (Bool-cases (virt == w)) [
  | inl here ↦ let e : phys + (w - virt) ≡ phys = ground arith in rw e (ground arith)
  | inr other ↦ elim (Bool-cases (inside ((virt + 4096) % 2 ^ 32) (4096 * count) w)) [
    | inl within ↦
        let e : (phys + 4096) % 2 ^ 32 + (w - (virt + 4096) % 2 ^ 32) ≡ phys + (w - virt) =
          ground arith in
        rw (within, e) (ground arith)
    | inr out ↦ rw out (ground arith)
  ]
]

-- paging_map_range of `count` pages succeeds, and paging_get then returns, for the pages of the
-- range, the pages from `phys` on with the flags, and what it returned before for every other page;
-- the directory stays as required. Neither range reaches beyond the address space.
pub paging_map_range-Maps :
    (count : ℕ) (m : Memory) (dir virt phys flags w : ℕ)
    → IsDirectory m dir
    → IsRange virt count
    → IsRange phys count
    → w % 4096 ≡ 0
    → w < 2 ^ 32
    → Maps m dir virt phys count flags w (paging_map_range m dir virt phys count flags)
unfolding paging_map_range
paging_map_range-Maps zero m dir virt phys flags w is hv hp aw hw = record {
  succeeds = refl;
  page = ground arith;
  directory = is;
}
paging_map_range-Maps (suc count) m dir virt phys flags w is hv hp aw hw =
    let set = paging_get-paging_set m dir virt w (bit_or phys flags) is hv.0 aw (omega arith) hw in
    let e = paging_map-eq m dir virt phys flags hv.0 hp.0 in
    let m1 = (paging_map m dir virt phys flags).1 in
    let next =
      paging_map_range-Maps count m1 dir ((virt + 4096) % 2 ^ 32) ((phys + 4096) % 2 ^ 32) flags w
        (rw e set.2) (omega arith) (omega arith) aw hw in
    rw (paging_map_range-suc m dir virt phys count flags (rw e set.0)) (record {
      succeeds = next.succeeds;
      page = next.page ∙ mapped-suc m m1 dir virt phys count flags w hv hp aw (rw e set.1);
      directory = next.directory;
    })

pub map_to-range :
    (m : Memory) (dir virt phys phys_end flags : ℕ)
    → virt % 4096 ≡ 0
    → phys % 4096 ≡ 0
    → phys_end % 4096 ≡ 0
    → phys ≤ phys_end
    → paging_map_to m dir virt phys phys_end flags
      ≡ paging_map_range m dir virt phys ((phys_end - phys) / 4096) flags
unfolding paging_map_to
map_to-range m dir virt phys phys_end flags a b c d = ground arith

-- paging_map_to maps every page from `phys` up to `phys_end`, where the three addresses are aligned,
-- in order, and neither range reaches beyond the address space.
pub paging_map_to-Maps :
    (m : Memory) (dir virt phys phys_end flags w : ℕ)
    → IsDirectory m dir
    → IsRange virt ((phys_end - phys) / 4096)
    → phys % 4096 ≡ 0
    → phys_end % 4096 ≡ 0
    → phys ≤ phys_end
    → phys_end < 2 ^ 32
    → w % 4096 ≡ 0
    → w < 2 ^ 32
    → Maps m dir virt phys
        ((phys_end - phys) / 4096)
        flags
        w
        (paging_map_to m dir virt phys phys_end flags)
paging_map_to-Maps m dir virt phys phys_end flags w is hv hp he le top aw hw =
    rw (map_to-range m dir virt phys phys_end flags hv.0 hp he le) (
      paging_map_range-Maps ((phys_end - phys) / 4096) m dir virt phys flags w is hv (omega arith)
        aw hw)

-- paging_map_to with an address that is not aligned, or with an end below the start, fails with
-- -EINVARG and writes nothing.
pub paging_map_to-err :
    (m : Memory) (dir virt phys phys_end flags : ℕ)
    → (virt % 4096 ≢ 0) ⊎ ((phys % 4096 ≢ 0) ⊎ ((phys_end % 4096 ≢ 0) ⊎ (phys_end < phys)))
    → paging_map_to m dir virt phys phys_end flags ≡ (err einvarg, m)
unfolding paging_map_to
paging_map_to-err m dir virt phys phys_end flags h = ground arith
