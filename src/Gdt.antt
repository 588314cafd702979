-- ===== src/Gdt.antt =====
-- The encoding of segment descriptors of gdt/gdt.c. `target` is the address of the eight bytes.
pub mod Decode
mod Tests
use custom_os.Base.{
  ℕ, zero, suc, ◌+◌, ◌-◌, ◌*◌, ◌/◌, ◌%◌, ◌^◌, Bool, true, false, not, ◌&&◌, Option, none, some,
  List, [], ◌∷◌, Memory, store, ltb, ◌==◌, if◌then◌else◌,
}

-- `struct gdt_structured`
pub record GdtStructured : Type 0 where
  pub base : ℕ
  pub limit : ℕ
  pub type : ℕ

-- `x >> k`, and the low 8 bits of `x >> k`
abbrev pub shr : ℕ → ℕ → ℕ
shr x k = x / 2 ^ k

abbrev pub byte : ℕ → ℕ → ℕ
byte x k = shr x k % 2 ^ 8

-- The writes of `encodeGdtEntry` behind the scaling of the limit, in their order.
pub encode_fields : Memory → ℕ → GdtStructured → Memory
encode_fields m target source =
    let m = store m target (byte source.limit 0) in
    let m = store m (target + 1) (byte source.limit 8) in
    let m = store m (target + 6) (shr source.limit 16 % 2 ^ 4) in
    let m = store m (target + 2) (byte source.base 0) in
    let m = store m (target + 3) (byte source.base 8) in
    let m = store m (target + 4) (byte source.base 16) in
    let m = store m (target + 7) (byte source.base 24) in store m (target + 5) source.type

-- `none` is the panic, which never returns.
pub encode_gdt_entry : Memory → ℕ → GdtStructured → Option Memory
unfolding encode_fields
encode_gdt_entry m target source =
    let small = store m (target + 6) 0x40 in
    let large = store small (target + 6) 0xC0 in
    let scaled = record source { limit = shr source.limit 12 } in
    if ltb 65536 source.limit && not (source.limit % 2 ^ 12 == 0xFFF)
    then none
    else if ltb 65536 source.limit
    then some (encode_fields large target scaled)
    else some (encode_fields small target source)

-- The loop over the entries; each takes eight bytes of the table.
pub gdt_structred_to_gdt : Memory → ℕ → List GdtStructured → Option Memory
gdt_structred_to_gdt m gdt [] = some m
gdt_structred_to_gdt m gdt (source ∷ structured_gdt) = elim (encode_gdt_entry m gdt source) [
  | none ↦ none
  | some m' ↦ gdt_structred_to_gdt m' (gdt + 8) structured_gdt
]
