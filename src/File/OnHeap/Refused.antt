-- ===== src/File/OnHeap/Refused.antt =====
-- fopen of fs/file.c on a name that the path parser refuses.
use custom_os.Base.{ℕ, ◌≡◌, refl, List, ◌∷◌, ◌++◌, Option, some, arith}
use custom_os.File.{Files}
use custom_os.File.OnHeap.{Filesystem, fopen_on_heap, open_from, file_calls, fclose_on_heap}
use custom_os.Heap.{Kernel}
use custom_os.PathParser.{Parts}
use custom_os.PathParser.OnHeap.Refused.{IsRefused, parse-refused}
use custom_os.Text.Length.{NoZero}

-- fopen returns 0 and neither allocates nor changes anything.
pub fopen_on_heap-refused :
    (filesystem : Option Filesystem) (parts : Parts) (s : Files) (k : Kernel)
    (name rest mode : List ℕ)
    → NoZero name
    → IsRefused name
    → fopen_on_heap filesystem parts s k (name ++ 0 ∷ rest) mode ≡ some (0, k, s)
unfolding fopen_on_heap open_from
fopen_on_heap-refused filesystem parts s k name rest mode h refused =
    rw (fopen_on_heap, parse-refused k parts name rest h refused) refl

-- The number 0 is no descriptor, and closing it changes nothing.
pub fclose-zero :
    (filesystem : Option Filesystem) (parts : Parts) (s : Files) (k : Kernel)
    → (file_calls filesystem parts).fclose s k 0 ≡ some (k, s)
unfolding fclose_on_heap
fclose-zero filesystem parts s k = ground arith
