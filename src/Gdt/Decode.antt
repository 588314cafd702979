-- ===== src/Gdt/Decode.antt =====
-- What a descriptor that gdt/gdt.c encodes says, read as the processor reads it.
use custom_os.Base.{
  ℕ, ◌+◌, ◌*◌, ◌/◌, ◌%◌, ◌^◌, ◌<◌, ◌≤◌, ◌≡◌, ◌≢◌, refl, ◌⊎◌, inl, inr, true, false, Option, none,
  some, List, [], ◌∷◌, Memory, store, ltb, ◌==◌, if◌then◌else◌, arith, Bool-cases, All, ◌∙◌, ◌↔◌,
}
use custom_os.Gdt.{GdtStructured, encode_fields, encode_gdt_entry, gdt_structred_to_gdt}
use custom_os.Memory.Laws.{inside}

-- The fields of the descriptor at an address, by the processor's layout.
abbrev pub base_at : Memory → ℕ → ℕ
base_at m p = m (p + 2) + m (p + 3) * 2 ^ 8 + m (p + 4) * 2 ^ 16 + m (p + 7) * 2 ^ 24

abbrev pub limit_at : Memory → ℕ → ℕ
limit_at m p = m p + m (p + 1) * 2 ^ 8 + m (p + 6) % 2 ^ 4 * 2 ^ 16

abbrev pub flags_at : Memory → ℕ → ℕ
flags_at m p = m (p + 6) / 2 ^ 4

encode_fields_at :
    (m : Memory) (p : ℕ) (s : GdtStructured)
    → (encode_fields m p s p ≡ s.limit % 256)
      × (encode_fields m p s (p + 1) ≡ s.limit / 256 % 256)
      × (encode_fields m p s (p + 2) ≡ s.base % 256)
      × (encode_fields m p s (p + 3) ≡ s.base / 256 % 256)
      × (encode_fields m p s (p + 4) ≡ s.base / 65536 % 256)
      × (encode_fields m p s (p + 5) ≡ s.type)
      × (encode_fields m p s (p + 6) ≡ s.limit / 65536 % 16)
      × (encode_fields m p s (p + 7) ≡ s.base / 16777216 % 256)
unfolding encode_fields
encode_fields_at m p s = (
  ground arith,
  ground arith,
  ground arith,
  ground arith,
  ground arith,
  ground arith,
  ground arith,
  ground arith,
)

encode_fields_outside :
    (m : Memory) (p j : ℕ) (s : GdtStructured) → inside p 8 j ≡ false → encode_fields m p s j ≡ m j
unfolding encode_fields
encode_fields_outside m p j s h = ground arith

-- A source that `encodeGdtEntry` accepts: its limit fits 16 bits and a half, or ends in twelve ones.
abbrev pub Encodable : GdtStructured → Type 0
Encodable s =
    (s.base < 2 ^ 32) × (s.limit < 2 ^ 32) × ((s.limit ≤ 65536) ⊎ (s.limit % 2 ^ 12 ≡ 0xFFF))

-- The last offset in the segment, as the processor works it out: the flag of granularity, the highest
-- one, makes the unit of the limit 4096 bytes.
abbrev pub last_offset_at : Memory → ℕ → ℕ
last_offset_at m p =
    if flags_at m p / 2 ^ 3 % 2 == 1 then limit_at m p * 2 ^ 12 + 0xFFF else limit_at m p

-- The last offset that the code gives the segment of a source: above 65536 the limit is divided as if
-- the unit were 4096 bytes, but the flag that says so is lost.
abbrev pub last_offset : GdtStructured → ℕ
last_offset s = if ltb 65536 s.limit then s.limit / 2 ^ 12 else s.limit

-- The descriptor at `p` has the base and the type of the source and no flag, and the processor takes its
-- segment to end at `last_offset`.
pub record Describes (m : Memory) (p : ℕ) (s : GdtStructured) : Type 0 where
  pub base : base_at m p ≡ s.base
  pub limit : last_offset_at m p ≡ last_offset s
  pub type : m (p + 5) ≡ s.type
  pub flags : flags_at m p ≡ 0

-- The result `some m'` of an encoding at `p` whose result is described by `s`.
abbrev pub Encoded : Memory → ℕ → GdtStructured → Option Memory → Type 0
Encoded m p s none = ⊥
Encoded m p s (some m') = Describes m' p s × ((j : ℕ) → inside p 8 j ≡ false → m' j ≡ m j)

encode_small :
    (m : Memory) (p : ℕ) (s : GdtStructured)
    → s.base < 2 ^ 32
    → s.limit ≤ 65536
    → Encoded m p s (some (encode_fields (store m (p + 6) 0x40) p s))
encode_small m p s hb hl =
    let at = encode_fields_at (store m (p + 6) 0x40) p s in
    (
      record {
        base = omega (arith, at.2, at.3, at.4, at.7);
        limit = ground (arith, at.0, at.1, at.6);
        type = at.5;
        flags = omega (arith, at.6);
      },
      λ j out. encode_fields_outside (store m (p + 6) 0x40) p j s out ∙ ground arith,
    )

encode_large :
    (m : Memory) (p : ℕ) (s : GdtStructured)
    → s.base < 2 ^ 32
    → s.limit < 2 ^ 32
    → 65536 < s.limit
    → Encoded m p s (
        some (
          encode_fields
            (store (store m (p + 6) 0x40) (p + 6) 0xC0)
            p
            (record s { limit = s.limit / 2 ^ 12 })))
encode_large m p s hb hl big =
    let m1 = store (store m (p + 6) 0x40) (p + 6) 0xC0 in
    let s1 = record s { limit = s.limit / 2 ^ 12 } in
    let at = encode_fields_at m1 p s1 in
    (
      record {
        base = omega (arith, at.2, at.3, at.4, at.7);
        limit = ground (arith, at.0, at.1, at.6);
        type = at.5;
        flags = omega (arith, at.6);
      },
      λ j out. encode_fields_outside m1 p j s1 out ∙ ground arith,
    )

-- For a source that it accepts, encodeGdtEntry writes a descriptor that the processor reads with the
-- base and the type of the source, without any flag, and with a segment that ends at the limit of the
-- source up to 65536 and at the 4096th part of the limit above. It writes no byte outside the
-- descriptor.
pub encode_gdt_entry_lem :
    (m : Memory) (p : ℕ) (s : GdtStructured) → Encodable s → Encoded m p s (encode_gdt_entry m p s)
unfolding encode_gdt_entry
encode_gdt_entry_lem m p s (hb, hl, fits) = elim (Bool-cases (ltb 65536 s.limit)) [
  | inl big ↦
      let whole : (s.limit % 2 ^ 12 == 0xFFF) ≡ true = whole_of big fits in
      rw (big, whole, encode_gdt_entry) (encode_large m p s hb hl (ground arith))
  | inr small ↦ rw (small, encode_gdt_entry) (encode_small m p s hb (ground arith))
]
  where
    whole_of :
        ltb 65536 s.limit ≡ true
        → (s.limit ≤ 65536) ⊎ (s.limit % 2 ^ 12 ≡ 0xFFF)
        → (s.limit % 2 ^ 12 == 0xFFF) ≡ true
    whole_of big f = ground arith

-- encodeGdtEntry panics exactly where the limit is above 65536 and does not end in twelve ones.
pub encode_gdt_entry-none_iff :
    (m : Memory) (p : ℕ) (s : GdtStructured)
    → (encode_gdt_entry m p s ≡ none) ↔ ((65536 < s.limit) × (s.limit % 2 ^ 12 ≢ 0xFFF))
unfolding encode_gdt_entry
encode_gdt_entry-none_iff m p s = ground arith

-- Each source has its descriptor at its place in the table.
abbrev pub TableOf : Memory → ℕ → List GdtStructured → Type 0
TableOf m p [] = Unit
TableOf m p (s ∷ rest) = Describes m p s × TableOf m (p + 8) rest

-- The encoding of a table succeeds, the table has the sources, and no byte in front of it changes.
abbrev pub EncodedTable : Memory → ℕ → List GdtStructured → Option Memory → Type 0
EncodedTable m p l none = ⊥
EncodedTable m p l (some m') = TableOf m' p l × ((j : ℕ) → j < p → m' j ≡ m j)

Describes-below :
    (m m' : Memory) (p : ℕ) (s : GdtStructured)
    → Describes m p s
    → ((j : ℕ) → j < p + 8 → m' j ≡ m j)
    → Describes m' p s
Describes-below m m' p s d same =
    let e0 = same p (omega arith) in
    let e1 = same (p + 1) (omega arith) in
    let e2 = same (p + 2) (omega arith) in
    let e3 = same (p + 3) (omega arith) in
    let e4 = same (p + 4) (omega arith) in
    let e5 = same (p + 5) (omega arith) in
    let e6 = same (p + 6) (omega arith) in
    let e7 = same (p + 7) (omega arith) in
    record {
      base = rw (e2, e3, e4, e7) d.base;
      limit = rw (e0, e1, e6) d.limit;
      type = rw e5 d.type;
      flags = rw e6 d.flags;
    }

EncodedTable-cons :
    (m : Memory) (p : ℕ) (s : GdtStructured) (rest : List GdtStructured) (r : Option Memory)
    → Encoded m p s r
    → ((m' : Memory) → EncodedTable m' (p + 8) rest (gdt_structred_to_gdt m' (p + 8) rest))
    → EncodedTable m p
        (s ∷ rest)
        (elim r [ none ↦ none | some m' ↦ gdt_structred_to_gdt m' (p + 8) rest ])
EncodedTable-cons m p s rest none d tail = elim d [ ]
EncodedTable-cons m p s rest (some m') d tail = go (gdt_structred_to_gdt m' (p + 8) rest) (tail m')
  where
    go : (r : Option Memory) → EncodedTable m' (p + 8) rest r → EncodedTable m p (s ∷ rest) r
    go none t = t
    go (some m'') t = (
      (Describes-below m' m'' p s d.0 t.1, t.0),
      λ j lt. t.1 j (omega arith) ∙ d.1 j (ground arith),
    )

-- gdt_structred_to_gdt of sources that are all accepted succeeds, and at the place of each source in the
-- table the processor reads a descriptor with its base and type and without any flag, whose segment
-- ends at the limit of the source where that is up to 65536, and only at the 4096th part of the limit
-- where it is above; no byte in front of the table changes.
pub gdt_structred_to_gdt_lem :
    (l : List GdtStructured) (m : Memory) (p : ℕ)
    → All Encodable l
    → EncodedTable m p l (gdt_structred_to_gdt m p l)
unfolding gdt_structred_to_gdt
gdt_structred_to_gdt_lem [] m p h = (tt, λ j lt. refl)
gdt_structred_to_gdt_lem (s ∷ rest) m p h =
    EncodedTable-cons m p s rest (encode_gdt_entry m p s) (encode_gdt_entry_lem m p s h.0)
      λ m'. gdt_structred_to_gdt_lem rest m' (p + 8) h.1
