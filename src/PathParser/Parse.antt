-- ===== src/PathParser/Parse.antt =====
-- Which paths fs/pparser.c accepts, and that its parts never come to be.
use custom_os.Base.{
  ◌-◌, ◌≤◌, sym, ℕ, suc, ◌+◌, ◌<◌, ◌≡◌, refl, ◌⊎◌, inl, inr, ◌&&◌, ◌||◌, none, some, List, [], ◌∷◌,
  ◌++◌, leb, ◌==◌, length, ok, err, ebadpath, arith, min, Bool-cases,
}
use custom_os.Base.Int.{ℤ, pos}
use custom_os.Text.{isdigit, tonumericdigit}
use custom_os.Text.Length.{NoZero, strlen_lem, strnlen_lem}
use custom_os.PathParser.{
  pathparser_get_drive_by_path, part_loop, pathparser_get_path_part, part_taken, Taken, Parts,
  pathparser_parse_path_part, parse_parts, parse_rest, pathparser_parse,
}

-- `d:/` and what follows, for a digit `d` at a drive: pathparser_get_drive_by_path returns the
-- number of the drive and the path behind the slash.
pub pathparser_get_drive_by_path_lem :
    (d : ℕ) (s rest : List ℕ)
    → NoZero s
    → d < 10
    → pathparser_get_drive_by_path ((48 + d) ∷ b':' ∷ b'/' ∷ s ++ 0 ∷ rest)
      ≡ some (ok (pos d, s ++ 0 ∷ rest))
unfolding pathparser_get_drive_by_path isdigit tonumericdigit
pathparser_get_drive_by_path_lem d s rest h lt =
    let long =
      strnlen_lem ((48 + d) ∷ b':' ∷ b'/' ∷ s) rest 108
        (omega arith, (omega arith, (omega arith, h))) in
    ground (arith, long)

-- pathparser_get_path_part never returns a name, whatever kzalloc returns.
pub pathparser_get_path_part-null :
    (allocated : ℕ) (path : List ℕ) (t : Taken)
    → pathparser_get_path_part allocated path ≡ some t
    → t.result ≡ 0
unfolding pathparser_get_path_part
pathparser_get_path_part-null allocated path t e = ground arith

part_loop-some :
    (s rest : List ℕ) → NoZero s → (r : List ℕ × List ℕ) × (part_loop (s ++ 0 ∷ rest) ≡ some r)
unfolding part_loop
part_loop-some [] rest h = (([], 0 ∷ rest), refl)
part_loop-some (c ∷ s) rest h = elim (Bool-cases (c == b'/' || c == 0)) [
  | inl stop ↦ (([], c ∷ s ++ 0 ∷ rest), rw stop)
  | inr more ↦ let (r, e) = part_loop-some s rest h.1 in ((c ∷ r.0, r.1), rw (more, e))
]

get_path_part-some :
    (a : ℕ) (s rest : List ℕ)
    → NoZero s
    → (t : Taken) × (pathparser_get_path_part a (s ++ 0 ∷ rest) ≡ some t)
unfolding pathparser_get_path_part
get_path_part-some a s rest h = elim (Bool-cases (a == 0)) [
  | inl no_memory ↦
      let (r, e) = part_loop-some s rest h in (part_taken a r.0 r.1, rw (no_memory, e))
  | inr memory ↦ (record { result = 0; path = s ++ 0 ∷ rest; stored_at_null = [] }, rw memory)
]

-- With or without memory, no part of a terminated path is made.
parse_path_part-null :
    (a b : ℕ) (parts : Parts) (last : ℕ) (s rest : List ℕ)
    → NoZero s
    → (path' : List ℕ) × (pathparser_parse_path_part a b parts last (s ++ 0 ∷ rest)
        ≡ some (0, parts, path'))
unfolding pathparser_parse_path_part
parse_path_part-null a b parts last s rest h =
    let (t, e) = get_path_part-some a s rest h in
    let null = pathparser_get_path_part-null a (s ++ 0 ∷ rest) t e in
    (t.path, rw (e, pathparser_parse_path_part) (rw null))

-- The loop over the parts ends in its first round.
parse_rest-null :
    (fuel : ℕ) (alloc : ℕ → ℕ) (n : ℕ) (parts : Parts) (last : ℕ) (s rest : List ℕ)
    → NoZero s
    → parse_rest (suc fuel) alloc n parts last (s ++ 0 ∷ rest) ≡ some parts
unfolding parse_rest
parse_rest-null fuel alloc n parts last s rest h =
    let (path', e) = parse_path_part-null (alloc n) (alloc (n + 1)) parts last s rest h in
    rw (e, parse_rest) refl

parse_parts-null :
    (alloc : ℕ → ℕ) (parts : Parts) (drive : ℤ) (s rest : List ℕ)
    → NoZero s
    → parse_parts alloc parts drive (s ++ 0 ∷ rest) ≡ some none
unfolding parse_parts
parse_parts-null alloc parts drive s rest h =
    let (path', e) = parse_path_part-null (alloc 1) (alloc 2) parts 0 s rest h in
    elim (Bool-cases (alloc 0 == 0)) [ inl no_root ↦ rw no_root | inr root ↦ rw (root, e) ]

-- The drive of a terminated path is refused, or the path behind it is terminated too.
drive-cases :
    (s rest : List ℕ)
    → NoZero s
    → (pathparser_get_drive_by_path (s ++ 0 ∷ rest) ≡ some (err ebadpath))
      ⊎ ((d : ℤ) × (s' : List ℕ) × NoZero s'
          × (pathparser_get_drive_by_path (s ++ 0 ∷ rest) ≡ some (ok (d, s' ++ 0 ∷ rest))))
unfolding pathparser_get_drive_by_path
drive-cases [] rest h = inl (rw (strnlen_lem [] rest 108 h))
drive-cases (a ∷ []) rest h = inl (rw (strnlen_lem (a ∷ []) rest 108 h))
drive-cases (a ∷ b ∷ []) rest h = inl (rw (strnlen_lem (a ∷ b ∷ []) rest 108 h))
drive-cases (a ∷ b ∷ c ∷ s) rest h =
    let at = strnlen_lem (a ∷ b ∷ c ∷ s) rest 108 h in
    let ok_path =
      leb 3 (min (suc (suc (suc (length s)))) 108) && isdigit a && (b == b':' && c == b'/') in
    elim (Bool-cases ok_path) [
      | inl good ↦ inr (tonumericdigit a, s, h.1.1.1, rw (at, good))
      | inr bad ↦ inl (rw (at, bad))
    ]

-- A name that starts with the number of a drive.
abbrev pub HasDrive : List ℕ → Type 0
HasDrive name = (d : ℕ) × (s : List ℕ) × (d < 10) × (name ≡ (48 + d) ∷ b':' ∷ b'/' ∷ s)

-- A name that starts with no number of a drive is refused.
pub drive-refused :
    (name rest : List ℕ)
    → NoZero name
    → (HasDrive name → ⊥)
    → pathparser_get_drive_by_path (name ++ 0 ∷ rest) ≡ some (err ebadpath)
unfolding pathparser_get_drive_by_path isdigit
drive-refused [] rest h no_drive = rw (strnlen_lem [] rest 108 h)
drive-refused (a ∷ []) rest h no_drive = rw (strnlen_lem (a ∷ []) rest 108 h)
drive-refused (a ∷ b ∷ []) rest h no_drive = rw (strnlen_lem (a ∷ b ∷ []) rest 108 h)
drive-refused (a ∷ b ∷ c ∷ s) rest h no_drive =
    let at = strnlen_lem (a ∷ b ∷ c ∷ s) rest 108 h in
    let ok_path =
      leb 3 (min (suc (suc (suc (length s)))) 108) && isdigit a && (b == b':' && c == b'/') in
    elim (Bool-cases ok_path) [
      | inl good ↦
          let low : (48 ≤ a) × (a < 58) = ground (arith, good) in
          let colon : b ≡ b':' = ground (arith, good) in
          let slash : c ≡ b'/' = ground (arith, good) in
          let digit : a ≡ 48 + (a - 48) = omega (arith, low) in
          absurd (no_drive (a - 48, s, omega (arith, low), rw (sym digit, colon, slash) refl))
      | inr bad ↦ rw (at, bad)
    ]

-- pathparser_parse returns NULL for every terminated path, whatever kzalloc returns.
pub pathparser_parse-null :
    (alloc : ℕ → ℕ) (parts : Parts) (s rest : List ℕ)
    → NoZero s
    → pathparser_parse alloc parts (s ++ 0 ∷ rest) ≡ some none
unfolding pathparser_parse
pathparser_parse-null alloc parts s rest h = elim (drive-cases s rest h) [
  | inl refused ↦ ground (arith, strlen_lem s rest h)
  | inr (d, s', h', parsed) ↦
      ground (arith, strlen_lem s rest h, parse_parts-null alloc parts d s' rest h')
]
