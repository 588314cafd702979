-- ===== src/File/Descriptors.antt =====
-- Which descriptors fopen, fclose and fseek of fs/file.c leave.
use custom_os.Base.{ℕ, ◌≡◌, ◌≢◌, refl, ap, false, ◌==◌, some, ok, List, ◌∷◌, ◌++◌, arith}
use custom_os.Base.Int.{ℤ, pos}
use custom_os.Text.Length.{NoZero}
use custom_os.PathParser.{Parts}
use custom_os.PathParser.Parse.{pathparser_parse-null}
use custom_os.File.{Files, Driver, file_get_descriptor, file_free_descriptor, fopen, fclose, fseek}

-- fopen of every terminated file name returns 0 and changes no descriptor, whatever the driver, the
-- mode and the memory: no file can be opened.
pub fopen-zero :
    (driver : Driver) (alloc : ℕ → ℕ) (parts : Parts) (filesystem desc : ℕ) (s : Files)
    (name rest mode : List ℕ)
    → NoZero name
    → fopen driver alloc parts filesystem desc s (name ++ 0 ∷ rest) mode ≡ some (0, s)
unfolding fopen
fopen-zero driver alloc parts filesystem desc s name rest mode h =
    rw (pathparser_parse-null alloc parts name rest h, fopen) refl

-- The descriptor of a number.
abbrev pub at_fd : Files → ℕ → ℕ
at_fd s fd = file_get_descriptor s (pos fd)

fclose-eq :
    (driver : Driver) (s : Files) (fd : ℕ)
    → at_fd s fd ≢ 0
    → fclose driver s (pos fd) ≡ (ok (driver.close (s.private (at_fd s fd))), s)
unfolding fclose
fclose-eq driver s fd nz =
    let live : (at_fd s fd == 0) ≡ false = ground arith in rw (live, fclose) refl

fseek-eq :
    (driver : Driver) (s : Files) (fd whence : ℕ) (offset : ℤ)
    → at_fd s fd ≢ 0
    → driver.seek (s.private (at_fd s fd)) offset whence ≡ pos 0
    → fseek driver s (pos fd) offset whence ≡ (ok (pos 0), file_free_descriptor s (at_fd s fd))
unfolding fseek
fseek-eq driver s fd whence offset nz sought =
    let live : (at_fd s fd == 0) ≡ false = ground arith in
    rw (live, fseek)
      (rw sought (ap (λ (r : ℤ). (ok r, file_free_descriptor s (at_fd s fd))) sought))

freed :
    (s : Files) (fd desc : ℕ)
    → s.index desc ≡ fd
    → file_get_descriptor (file_free_descriptor s desc) (pos fd) ≡ 0
unfolding file_get_descriptor file_free_descriptor
freed s fd desc at = ground (arith, at)

-- For the descriptor of an open file, fclose returns what the driver's close returns and leaves the
-- descriptor in the array, while an fseek that succeeds takes it out of the array.
pub fclose-fseek :
    (driver : Driver) (s : Files) (fd whence : ℕ) (offset : ℤ)
    → at_fd s fd ≢ 0
    → s.index (at_fd s fd) ≡ fd
    → driver.seek (s.private (at_fd s fd)) offset whence ≡ pos 0
    → (fclose driver s (pos fd) ≡ (ok (driver.close (s.private (at_fd s fd))), s))
      × ((fseek driver s (pos fd) offset whence).0 ≡ ok (pos 0))
      × (at_fd (fseek driver s (pos fd) offset whence).1 fd ≡ 0)
fclose-fseek driver s fd whence offset nz at sought =
    let moved = fseek-eq driver s fd whence offset nz sought in
    (fclose-eq driver s fd nz, rw moved refl, rw moved (freed s fd (at_fd s fd) at))
