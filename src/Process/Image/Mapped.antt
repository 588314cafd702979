-- ===== src/Process/Image/Mapped.antt =====
-- Where the addresses of a program lie that process_map_memory of task/process.c has mapped.
use custom_os.Base.{ℕ, ◌+◌, ◌-◌, ◌/◌, ◌%◌, ◌^◌, ◌<◌, ◌≤◌, ◌≡◌, refl, arith, Memory, ok, ◌∙◌}
use custom_os.Paging.{paging_map_to, paging_get_physical_address, paging_is_alligned_address}
use custom_os.Paging.Slots.{IsDirectory, align_bounds}
use custom_os.Paging.Mapping.{IsRange, paging_map_to-Maps}
use custom_os.Paging.Mapping.Kept.{IsBehind, paging_map_to-kept}
use custom_os.Paging.Translate.{physical_address-paging_map_to, physical_address-others}
use custom_os.Process.Image.{binary, process_map_binary, map_program, process_map_memory}

-- For a directory whose tables are different pages, a binary program and a stack that are aligned and
-- lie low in the address space: process_map_memory succeeds; each address of the program, from 0x400000
-- on, has the physical address at the same distance from the program's data, and each address of the
-- stack, from 0x3FB000 up to 0x3FF000, the one at the same distance from the stack's memory.
pub process_map_memory-binary :
    (m pages : Memory) (dir ptr size stack a b : ℕ)
    → IsDirectory pages dir
    → ptr % 4096 ≡ 0
    → ptr + size ≤ 2 ^ 31
    → stack % 4096 ≡ 0
    → stack + 16384 ≤ 2 ^ 31
    → 0x400000 ≤ a
    → a < 0x400000 + size
    → 0x3FB000 ≤ b
    → b < 0x3FF000
    → ((process_map_memory m pages dir (binary ptr size) stack).0 ≡ ok tt)
      × (paging_get_physical_address
            (process_map_memory m pages dir (binary ptr size) stack).1
            dir
            a
          ≡ ptr + (a - 0x400000))
      × (paging_get_physical_address
            (process_map_memory m pages dir (binary ptr size) stack).1
            dir
            b
          ≡ stack + (b - 0x3FB000))
unfolding process_map_memory map_program process_map_binary
process_map_memory-binary m pages dir ptr size stack a b is aligned low aligned' low' lo hi lo'
      hi' =
    let end = paging_is_alligned_address ((ptr + size) % 2 ^ 32) in
    let end' = paging_is_alligned_address ((stack + 16384) % 2 ^ 32) in
    let bounds = align_bounds ((ptr + size) % 2 ^ 32) (omega arith) in
    let bounds' = align_bounds ((stack + 16384) % 2 ^ 32) (omega arith) in
    let range : IsRange 0x400000 ((end - ptr) / 4096) = (refl, omega (arith, bounds)) in
    let range' : IsRange 0x3FB000 ((end' - stack) / 4096) = (refl, omega (arith, bounds')) in
    let pages1 = (paging_map_to pages dir 0x400000 ptr end 7).1 in
    let maps =
      paging_map_to-Maps pages dir 0x400000 ptr end 7 0 is range aligned bounds.0
        (omega (arith, bounds)) (omega (arith, bounds)) refl (omega arith) in
    (
      refl,
      physical_address-others pages1 dir 0x3FB000 stack end' 7 a maps.directory range' aligned'
            bounds'.0 (omega (arith, bounds')) (omega (arith, bounds')) (omega arith)
            (omega (arith, bounds'))
          ∙ physical_address-paging_map_to pages dir 0x400000 ptr end 7 a is range aligned bounds.0
              (omega (arith, bounds)) (omega (arith, bounds)) (omega arith) lo
              (omega (arith, bounds)),
      physical_address-paging_map_to pages1 dir 0x3FB000 stack end' 7 b maps.directory range'
          aligned' bounds'.0 (omega (arith, bounds')) (omega (arith, bounds')) (omega arith) lo'
          (omega (arith, bounds')),
    )

-- process_map_memory of such a program and stack leaves a word behind all tables of the directory.
pub process_map_memory-kept :
    (m pages : Memory) (dir ptr size stack a : ℕ)
    → IsDirectory pages dir
    → ptr % 4096 ≡ 0
    → ptr + size ≤ 2 ^ 31
    → stack % 4096 ≡ 0
    → stack + 16384 ≤ 2 ^ 31
    → IsBehind pages dir a
    → (process_map_memory m pages dir (binary ptr size) stack).1 a ≡ pages a
unfolding process_map_memory map_program process_map_binary
process_map_memory-kept m pages dir ptr size stack a is aligned low aligned' low' behind =
    let end = paging_is_alligned_address ((ptr + size) % 2 ^ 32) in
    let end' = paging_is_alligned_address ((stack + 16384) % 2 ^ 32) in
    let bounds = align_bounds ((ptr + size) % 2 ^ 32) (omega arith) in
    let bounds' = align_bounds ((stack + 16384) % 2 ^ 32) (omega arith) in
    let range : IsRange 0x400000 ((end - ptr) / 4096) = (refl, omega (arith, bounds)) in
    let range' : IsRange 0x3FB000 ((end' - stack) / 4096) = (refl, omega (arith, bounds')) in
    let pages1 = (paging_map_to pages dir 0x400000 ptr end 7).1 in
    let maps =
      paging_map_to-Maps pages dir 0x400000 ptr end 7 0 is range aligned bounds.0
        (omega (arith, bounds)) (omega (arith, bounds)) refl (omega arith) in
    let first =
      paging_map_to-kept pages dir 0x400000 ptr end 7 a is range aligned bounds.0
        (omega (arith, bounds)) (omega (arith, bounds)) behind in
    (paging_map_to-kept pages1 dir 0x3FB000 stack end' 7 a maps.directory range' aligned' bounds'.0
      (omega (arith, bounds')) (omega (arith, bounds')) first.1).0
    ∙ first.0
