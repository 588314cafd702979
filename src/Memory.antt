-- ===== src/Memory.antt =====
-- The memory routines of memory/memory.c, which programs/stdlib/src/memory.c repeats, over a
-- memory of bytes. A loop recurs on the rounds that it has left.
pub mod Laws
mod Tests
use custom_os.Base.{
  List, [], ◌∷◌, ℕ, zero, suc, ◌+◌, ◌%◌, ◌<◌, Bool, true, false, Memory, store, ltb, ◌==◌,
  if◌then◌else◌, ◌≡◌,
}
use custom_os.Base.Int.{ℤ, pos, negsuc}

-- `for (i = 0; i < size; i++) c_ptr[i] = (char) c`
unfoldable pub memset : Memory → ℕ → ℕ → ℕ → Memory
memset m ptr c zero = m
memset m ptr c (suc size) = memset (store m ptr (c % 256)) (ptr + 1) c size

-- `a < b` for two values of the signed type `char`, given as bytes.
abbrev pub char_lt : ℕ → ℕ → Bool
char_lt a b = ltb ((a + 128) % 256) ((b + 128) % 256)

-- `while (count-- > 0)` compares the bytes at the two pointers.
pub memcmp : Memory → ℕ → ℕ → ℕ → ℤ
memcmp m s1 s2 zero = pos 0
memcmp m s1 s2 (suc count) =
    let rest = memcmp m (s1 + 1) (s2 + 1) count in
    if m s1 == m s2 then rest else if char_lt (m s1) (m s2) then negsuc 0 else pos 1

-- `while (len--) *d++ = *s++`
pub memcpy : Memory → ℕ → ℕ → ℕ → Memory
memcpy m dest src zero = m
memcpy m dest src (suc len) = memcpy (store m dest (m src)) (dest + 1) (src + 1) len

-- The bytes of a list from `a` on.
unfoldable pub write_bytes : Memory → ℕ → List ℕ → Memory
write_bytes m a [] = m
write_bytes m a (c ∷ cs) = write_bytes (store m a c) (a + 1) cs
