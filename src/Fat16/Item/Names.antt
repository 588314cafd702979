-- ===== src/Fat16/Item/Names.antt =====
-- The name that fat16_get_full_relative_filename of fs/fat/fat16.c makes of a stored one.
use custom_os.Base.{
  ℕ, zero, suc, ◌+◌, ◌-◌, ◌^◌, ◌<◌, ◌≤◌, ◌≡◌, ◌≢◌, refl, ap, true, false, ◌==◌, leb, List, [], ◌∷◌,
  ◌++◌, All, length, replicate, arith, ◌%◌, sym, inl, inr, Bool-cases,
}
use custom_os.Fat16.Item.{
  FatDirectoryItem, proper_from, fat16_to_proper_string, fat16_get_full_relative_filename, has_ext,
}

-- A character of a stored name: neither the end of a string nor the space that fills the field.
abbrev pub IsNameByte : ℕ → Type 0
IsNameByte c = (c ≢ 0) × (c ≢ 0x20)

-- A field of `size` bytes that holds the name, filled with spaces.
abbrev pub filled : List ℕ → ℕ → List ℕ
filled name size = name ++ replicate (size - length name) 0x20

proper_from-spaces : (n i size : ℕ) → proper_from (replicate n 0x20) i size ≡ []
unfolding proper_from
proper_from-spaces zero i size = refl
proper_from-spaces (suc n) i size = refl

length-none : (l : List ℕ) → length l ≡ 0 → l ≡ []
length-none [] e = refl
length-none (x ∷ l) e = absurd (omega arith)

-- The bound stops the loop at the last byte of a field that has no space.
proper_from-filled :
    (name : List ℕ) (n i size : ℕ)
    → All IsNameByte name
    → length name + n + i ≡ size
    → size < 256
    → proper_from (name ++ replicate n 0x20) i size ≡ name
unfolding proper_from
proper_from-filled [] n i size h e small = proper_from-spaces n i size
proper_from-filled (c ∷ name) n i size h e small =
    let rest = proper_from-filled name n (i + 1) size h.1 (omega arith) small in
    let full : (c == 0) ≡ false = ground (arith, h.0.0) in
    let no_space : (c == 0x20) ≡ false = ground (arith, h.0.1) in
    rw (full, no_space)
      (elim (Bool-cases (leb ((size + 2 ^ 32 - 1) % 2 ^ 32) i)) [
        | inl last ↦ rw last (ap (λ l. c ∷ l) (sym (length-none name (ground arith))))
        | inr more ↦ rw (more, rest) refl
      ])

-- A stored name, as the driver shows it: the extension behind a dot, unless it is empty.
abbrev pub dotted : List ℕ → List ℕ → List ℕ
dotted name [] = name
dotted name (c ∷ ext) = name ++ b'.' ∷ c ∷ ext

to_proper_string-filled :
    (name : List ℕ) (size : ℕ)
    → All IsNameByte name
    → length name ≤ size
    → size < 256
    → fat16_to_proper_string (filled name size) size ≡ name
unfolding fat16_to_proper_string
to_proper_string-filled name size h fits small =
    proper_from-filled name (size - length name) 0 size h (omega arith) small

has_ext-filled :
    (name : List ℕ) (c : ℕ) (ext : List ℕ)
    → All IsNameByte (c ∷ ext)
    → has_ext (filled (c ∷ ext) 3) ≡ true
has_ext-filled name c ext h =
    let full : (c == 0) ≡ false = ground (arith, h.0.0) in
    let no_space : (c == 0x20) ≡ false = ground (arith, h.0.1) in rw (full, no_space) refl

-- For an item that stores a name of at most 8 bytes and an extension of at most 3, each filled with
-- spaces and with neither a space nor a 0 in it, fat16_get_full_relative_filename writes the name,
-- then a dot and the extension unless the extension is empty, and then zeros up to the bound.
pub fat16_get_full_relative_filename_lem :
    (item : FatDirectoryItem) (name ext : List ℕ) (max_len : ℕ)
    → item.filename ≡ filled name 8
    → item.ext ≡ filled ext 3
    → All IsNameByte name
    → All IsNameByte ext
    → length name ≤ 8
    → length ext ≤ 3
    → fat16_get_full_relative_filename item max_len
      ≡ dotted name ext ++ replicate (max_len - length (dotted name ext)) 0
unfolding fat16_get_full_relative_filename
fat16_get_full_relative_filename_lem item name [] max_len en ee hn he fits fits' =
    rw (en, ee, to_proper_string-filled name 8 hn fits (omega arith)) refl
fat16_get_full_relative_filename_lem item name (c ∷ ext) max_len en ee hn he fits fits' =
    let shown = to_proper_string-filled name 8 hn fits (omega arith) in
    let shown' = to_proper_string-filled (c ∷ ext) 3 he fits' (omega arith) in
    rw (en, ee, shown, has_ext-filled name c ext he, shown') refl
