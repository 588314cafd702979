-- ===== src/File/Calls.antt =====
-- The calls of fs/file.c as the loaders see them, on a state `F` of the files and the kernel, whose heap
-- the calls use too: descriptors are numbers, 0 for none. File.OnHeap fills the record.
use custom_os.Base.{ℕ, List, [], ◌∷◌, Option, Result}
use custom_os.Heap.{Kernel}

-- `none` is a fault. A result of fstat that is not an error carries the size of the file.
pub record FileCalls (F : Type 0) : Type 0 where
  pub fopen : F → Kernel → List ℕ → List ℕ → Option (ℕ × Kernel × F)
  pub fstat : F → Kernel → ℕ → Option (Result ℕ)
  pub fread : F → Kernel → ℕ → ℕ → ℕ → ℕ → Option (Result ℕ × Kernel × F)
  pub fclose : F → Kernel → ℕ → Option (Kernel × F)

-- The string "r".
abbrev pub mode_r : List ℕ
mode_r = b'r' ∷ 0 ∷ []
