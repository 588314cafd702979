-- ===== src/Gdt/Tests.antt =====
-- Each theorem on the segment descriptors of gdt/gdt.c at one input, from the table of kernel.c.
use custom_os.Base.{◌%◌, ◌^◌, ◌<◌, ◌≡◌, ◌≢◌, ◌↔◌, refl, inl, inr, [], ◌∷◌, Memory, none, arith}
use custom_os.Gdt.{GdtStructured, encode_gdt_entry, gdt_structred_to_gdt}
use custom_os.Gdt.Decode.{
  Encodable, Encoded, EncodedTable, encode_gdt_entry_lem, encode_gdt_entry-none_iff,
  gdt_structred_to_gdt_lem,
}

abbrev null_segment : GdtStructured
null_segment = record { base = 0; limit = 0; type = 0 }

abbrev user_code : GdtStructured
user_code = record { base = 0; limit = 0xFFFFFFFF; type = 0xF8 }

abbrev blank : Memory
blank j = 0

user_code-Encodable : Encodable user_code
user_code-Encodable = (omega arith, omega arith, inr refl)

encode_gdt_entry_lem_example :
    Encoded blank 0x600 user_code (encode_gdt_entry blank 0x600 user_code)
encode_gdt_entry_lem_example = encode_gdt_entry_lem blank 0x600 user_code user_code-Encodable

encode_gdt_entry-none_iff_example :
    (encode_gdt_entry blank 0x600 user_code ≡ none)
    ↔ ((65536 < 0xFFFFFFFF) × (0xFFFFFFFF % 2 ^ 12 ≢ 0xFFF))
encode_gdt_entry-none_iff_example = encode_gdt_entry-none_iff blank 0x600 user_code

gdt_structred_to_gdt_lem_example :
    EncodedTable blank 0x600
      (null_segment ∷ user_code ∷ [])
      (gdt_structred_to_gdt blank 0x600 (null_segment ∷ user_code ∷ []))
gdt_structred_to_gdt_lem_example =
    gdt_structred_to_gdt_lem (null_segment ∷ user_code ∷ []) blank 0x600
      ((omega arith, omega arith, inl (omega arith)), (user_code-Encodable, tt))
