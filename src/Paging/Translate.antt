-- ===== src/Paging/Translate.antt =====
-- paging_get_physical_address of memory/paging/paging.c: the address behind a mapped one.
use custom_os.Base.{
  ℕ, ◌+◌, ◌-◌, ◌*◌, ◌/◌, ◌%◌, ◌^◌, ◌<◌, ◌≤◌, ◌≡◌, refl, Memory, arith, bit_or, ◌∙◌, ap,
}
use custom_os.Base.Bits.{bit_or_fields}
use custom_os.Paging.{paging_get, paging_map_to, paging_get_physical_address, table_of}
use custom_os.Paging.Slots.{IsDirectory}
use custom_os.Paging.Mapping.{IsRange, paging_map_to-Maps}

-- The flags of an entry do not change the page that it names.
pub table_of-bit_or :
    (phys flags : ℕ) → phys % 4096 ≡ 0 → flags < 4096 → table_of (bit_or phys flags) ≡ phys
table_of-bit_or phys flags aligned hf =
    let e : phys ≡ phys / 4096 * 2 ^ 12 = omega arith in
    let whole = bit_or_fields 12 (phys / 4096) flags (omega arith) in
    ap (λ (t : ℕ). table_of (bit_or t flags)) e ∙ rw whole (omega arith)

-- In a directory whose tables are different pages, for an aligned virtual range inside the address
-- space, aligned `phys` and `phys_end` with `phys` at or below `phys_end` below 2^32, and flags below
-- 4096: after paging_map_to, an address in the mapped range has the physical address at the same
-- distance from `phys`.
pub physical_address-paging_map_to :
    (m : Memory) (dir virt phys phys_end flags a : ℕ)
    → IsDirectory m dir
    → IsRange virt ((phys_end - phys) / 4096)
    → phys % 4096 ≡ 0
    → phys_end % 4096 ≡ 0
    → phys ≤ phys_end
    → phys_end < 2 ^ 32
    → flags < 4096
    → virt ≤ a
    → a < virt + (phys_end - phys)
    → paging_get_physical_address (paging_map_to m dir virt phys phys_end flags).1 dir a
      ≡ phys + (a - virt)
unfolding paging_get_physical_address
physical_address-paging_map_to m dir virt phys phys_end flags a is hv hp he le top hf lo hi =
    let w = a - a % 4096 in
    let maps =
      paging_map_to-Maps m dir virt phys phys_end flags w is hv hp he le top (omega arith)
        (omega arith) in
    let entry : paging_get (paging_map_to m dir virt phys phys_end flags).1 dir w
        ≡ bit_or (phys + (w - virt)) flags =
      maps.page ∙ ground arith in
    let table : table_of (bit_or (phys + (w - virt)) flags) ≡ phys + (w - virt) =
      table_of-bit_or (phys + (w - virt)) flags (omega arith) hf in
    rw (entry, table) (omega arith)

-- After paging_map_to, an address behind the mapped range has the physical address that it had.
pub physical_address-others :
    (m : Memory) (dir virt phys phys_end flags a : ℕ)
    → IsDirectory m dir
    → IsRange virt ((phys_end - phys) / 4096)
    → phys % 4096 ≡ 0
    → phys_end % 4096 ≡ 0
    → phys ≤ phys_end
    → phys_end < 2 ^ 32
    → a < 2 ^ 32
    → virt + (phys_end - phys) ≤ a
    → paging_get_physical_address (paging_map_to m dir virt phys phys_end flags).1 dir a
      ≡ paging_get_physical_address m dir a
unfolding paging_get_physical_address
physical_address-others m dir virt phys phys_end flags a is hv hp he le top low behind =
    let w = a - a % 4096 in
    let maps =
      paging_map_to-Maps m dir virt phys phys_end flags w is hv hp he le top (omega arith)
        (omega arith) in
    let entry : paging_get (paging_map_to m dir virt phys phys_end flags).1 dir w
        ≡ paging_get m dir w =
      maps.page ∙ ground arith in
    rw entry refl
