-- ===== src/Fat16/Item.antt =====
-- The items of a directory of fs/fat/fat16.c: their fields in memory, and the name of an item.
pub mod Names
use custom_os.Base.{
  ℕ, zero, suc, ◌+◌, ◌-◌, ◌*◌, ◌/◌, ◌%◌, ◌^◌, Bool, false, not, ◌&&◌, ◌||◌, leb, ltb, ◌==◌,
  if◌then◌else◌, bit_or, Memory, List, [], ◌∷◌, ◌++◌, length, replicate,
}
use custom_os.Base.Int.{ℤ, pos, negsuc}
use custom_os.Elf.{u16_at, u32_at}

-- `struct fat_directory_item`, without the fields that the driver does not read.
pub record FatDirectoryItem : Type 0 where
  pub filename : List ℕ
  pub ext : List ℕ
  pub attribute : ℕ
  pub high_16_bits_first_cluster : ℕ
  pub lower_16_bits_first_cluster : ℕ
  pub filesize : ℕ

abbrev pub bytes_at : Memory → ℕ → ℕ → List ℕ
bytes_at m p zero = []
bytes_at m p (suc n) = m p ∷ bytes_at m (p + 1) n

-- The item at an address, by the packed layout of its 32 bytes.
unfoldable pub item_at : Memory → ℕ → FatDirectoryItem
item_at m p = record {
  filename = bytes_at m p 8;
  ext = bytes_at m (p + 8) 3;
  attribute = m (p + 11);
  high_16_bits_first_cluster = u16_at m (p + 20);
  lower_16_bits_first_cluster = u16_at m (p + 26);
  filesize = u32_at m (p + 28);
}

-- `item->attribute & FAT_FILE_SUBDIRECTORY`
abbrev pub is_subdirectory : FatDirectoryItem → Bool
is_subdirectory item = not (item.attribute / 16 % 2 == 0)

-- `item->attribute & FAT_FILE_READ_ONLY`
abbrev pub is_read_only : FatDirectoryItem → Bool
is_read_only item = not (item.attribute % 2 == 0)

-- `(high << 16) | low`, a `uint32_t` that the callers take as an `int`.
pub fat16_get_first_cluster : FatDirectoryItem → ℤ
fat16_get_first_cluster item =
    let cluster =
      bit_or (item.high_16_bits_first_cluster * 2 ^ 16) item.lower_16_bits_first_cluster in
    if ltb cluster (2 ^ 31) then pos cluster else negsuc (2 ^ 32 - 1 - cluster)

-- What the loop of `fat16_to_proper_string` writes from round `i` on. The bound `size - 1` is of an
-- unsigned type.
pub proper_from : List ℕ → ℕ → ℕ → List ℕ
proper_from [] i size = []
proper_from (c ∷ cs) i size =
    let rest = proper_from cs (i + 1) size in
    if c == 0 || c == 0x20
    then []
    else c ∷ (if leb ((size + 2 ^ 32 - 1) % 2 ^ 32) i then [] else rest)

-- The characters in front of the terminator. The callers pass the size of the array `input`.
pub fat16_to_proper_string : List ℕ → ℕ → List ℕ
unfolding proper_from
fat16_to_proper_string input size = proper_from input 0 size

-- `item->ext[0] != 0x00 && item->ext[0] != 0x20`
abbrev pub has_ext : List ℕ → Bool
has_ext [] = false
has_ext (c ∷ cs) = not (c == 0) && not (c == 0x20)

-- The `max_len` bytes of `out`, which memset has cleared.
pub fat16_get_full_relative_filename : FatDirectoryItem → ℕ → List ℕ
unfolding fat16_to_proper_string
fat16_get_full_relative_filename item max_len =
    let name = fat16_to_proper_string item.filename 8 in
    let dotted =
      if has_ext item.ext then name ++ b'.' ∷ fat16_to_proper_string item.ext 3 else name in
    dotted ++ replicate (max_len - length dotted) 0
