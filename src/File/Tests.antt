-- ===== src/File/Tests.antt =====
-- Runs of fs/file.c, and each theorem on it at one input.
use custom_os.Base.{
  ℕ, ◌+◌, ◌*◌, ◌≡◌, refl, ◌==◌, Memory, Option, none, some, ok, err, eio, [], ◌∷◌, ◌++◌,
  if◌then◌else◌, arith,
}
use custom_os.Base.Int.{pos}
use custom_os.Text.{strncmp}
use custom_os.PathParser.{Parts}
use custom_os.File.{
  Files, Driver, append, file_get_mode_by_string, fopen, fread, fstat, fs_insert_filesystem,
  fs_resolve, file_get_descriptor,
}
use custom_os.File.Descriptors.{at_fd, fopen-zero}

abbrev driver : Driver
driver = record {
  open_file = λ path mode. ok 0x5000;
  read_file = λ private size nmemb. pos nmemb;
  stat = λ private. pos 0;
  seek = λ private offset whence. pos 0;
  close = λ private. pos 0;
}

-- One open file with the number 3.
abbrev files : Files
files = record {
  file_descriptors = λ i. if i == 2 then 0x4000 else 0;
  index = λ d. if d == 0x4000 then 3 else 0;
  private = λ d. 0x5000;
}

abbrev no_parts : Parts
no_parts = record { part = λ a. 0; next = λ a. 0 }

fopen-zero_example :
    fopen driver
      (λ n. 0x1000000 + n * 4096)
      no_parts
      7
      0x6000
      files
      ((b'0' ∷ b':' ∷ b'/' ∷ b'a' ∷ []) ++ 0 ∷ [])
      (b'r' ∷ 0 ∷ [])
    ≡ some (0, files)
fopen-zero_example =
    fopen-zero driver (λ n. 0x1000000 + n * 4096) no_parts 7 0x6000 files
      (b'0' ∷ b':' ∷ b'/' ∷ b'a' ∷ []) [] (b'r' ∷ 0 ∷ [])
      (omega arith, (omega arith, (omega arith, (omega arith, tt))))

open-at_fd : at_fd files 3 ≡ 0x4000
unfolding file_get_descriptor
open-at_fd = refl

mode-a : file_get_mode_by_string (b'a' ∷ 0 ∷ []) ≡ some append
unfolding file_get_mode_by_string strncmp
mode-a = refl

reads : fread driver files 1 5 (pos 3) ≡ ok (pos 5)
unfolding fread
reads = refl

fstat-null : (fstat driver files (pos 9) ≡ none) × (fstat driver files (pos 0) ≡ some (err eio))
unfolding fstat
fstat-null = (refl, refl)

abbrev entry : Option Memory → ℕ → ℕ
entry none i = 0
entry (some m) i = m i

inserted : entry (fs_insert_filesystem (λ i. if i == 0 then 7 else 0) 8) 1 ≡ 8
unfolding fs_insert_filesystem
inserted = refl

resolved : fs_resolve (λ f. f == 7) (λ i. i) ≡ 7
unfolding fs_resolve
resolved = refl
