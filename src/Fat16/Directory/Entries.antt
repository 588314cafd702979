-- ===== src/Fat16/Directory/Entries.antt =====
-- The items that fat16_get_items_for_directory of fs/fat/fat16.c counts, against the directory as a
-- part of the disk.
use custom_os.Base.{
  ℕ, zero, suc, ◌+◌, ◌-◌, ◌*◌, ◌^◌, ◌<◌, ◌≡◌, ◌≢◌, refl, ap, ◌∙◌, false, true, ltb, ◌==◌, Option,
  none, some, arith, Memory, Result, ok, err, eio, if◌then◌else◌,
}
use mathlib.Core.Path.{subst}
use native.Mathlib.Nat.{zero-add}
use custom_os.Streamer.{Device, DiskStream, Read, diskstreamer_read}
use custom_os.Streamer.Image.{HoldsImage, ReadsSome, diskstreamer_seek-eq, diskstreamer_read_lem}
use custom_os.Fat16.{FatPrivate}
use custom_os.Fat16.Directory.{count_from, fat16_get_items_for_directory}

-- The items in use among `n` of 32 bytes each: those whose name does not start with 0xE5.
abbrev pub used : Memory → ℕ → ℕ → ℕ
used image base zero = 0
used image base (suc n) = (if image base == 0xE5 then 0 else 1) + used image (base + 32) n

-- The first item whose name starts with 0 is the one with number `n`.
abbrev pub EndsAt : Memory → ℕ → ℕ → Type 0
EndsAt image base zero = image base ≡ 0
EndsAt image base (suc n) = (image base ≢ 0) × EndsAt image (base + 32) n

abbrev pub CountsFrom : ℕ → Option (Result ℕ × DiskStream) → Type 0
CountsFrom v none = ⊥
CountsFrom v (some (res, stream)) = res ≡ ok v

-- A count, with any data of the driver.
abbrev pub Counts : ℕ → Option (Result ℕ × FatPrivate) → Type 0
Counts v none = ⊥
Counts v (some (res, private)) = res ≡ ok v

-- The body of the loop behind its read.
body : ℕ → Device → ℕ → Option Read → Option (Result ℕ × DiskStream)
body fuel device i o = elim o [
  | none ↦ none
  | some r ↦ elim r.res [
    | err e ↦ some (err eio, r.stream)
    | ok _ ↦ elim (r.memory 0 == 0) [
      | true ↦ some (ok i, r.stream)
      | false ↦ count_from fuel device r.stream (if r.memory 0 == 0xE5 then i else i + 1)
    ]
  ]
]

body-ok :
    (fuel : ℕ) (device : Device) (i : ℕ) (r : Read)
    → r.res ≡ ok tt
    → body fuel device i (some r) ≡ elim (r.memory 0 == 0) [
      | true ↦ some (ok i, r.stream)
      | false ↦ count_from fuel device r.stream (if r.memory 0 == 0xE5 then i else i + 1)
    ]
unfolding body
body-ok fuel device i r e = rw (body, e) refl

-- The loop from any stream on, with the fuel.
abbrev Counting : ℕ → Device → Memory → Type 0
Counting fuel device image =
    (stream : DiskStream) (i base n : ℕ)
    → stream.disk ≡ 0
    → stream.pos ≡ base
    → EndsAt image base n
    → n < fuel
    → CountsFrom (i + used image base n) (count_from fuel device stream i)

name_start :
    (image : Memory) (base : ℕ) (r : Read)
    → ReadsSome image (λ j. 0) 0 base 32 0 (some r)
    → r.memory 0 ≡ image base
name_start image base r h = let e : base + (0 - 0) ≡ base = omega arith in h.bytes ∙ ap image e

body-CountsFrom :
    (fuel : ℕ) (device : Device) (image : Memory) (i base n : ℕ) (o : Option Read)
    → Counting fuel device image
    → EndsAt image base n
    → n < suc fuel
    → ReadsSome image (λ j. 0) 0 base 32 0 o
    → CountsFrom (i + used image base n) (body fuel device i o)
unfolding body
body-CountsFrom fuel device image i base n none later ends enough h = h
body-CountsFrom fuel device image i base zero (some r) later ends enough h =
    let none_used : i + 0 ≡ i = omega arith in
    let last : (r.memory 0 == 0) ≡ true = ground (arith, name_start image base r h, ends) in
    rw (none_used, body-ok fuel device i r h.succeeds, last) refl
body-CountsFrom fuel device image i base (suc n) (some r) later ends enough h =
    let more : (r.memory 0 == 0) ≡ false = ground (arith, name_start image base r h, ends.0) in
    let i' = if image base == 0xE5 then i else i + 1 in
    let next : i' + used image (base + 32) n ≡ i + used image base (suc n) = ground arith in
    rw (body-ok fuel device i r h.succeeds, more, name_start image base r h)
      (rw next at (later r.stream i' (base + 32) n h.disk h.moved ends.1 (omega arith)))

count_from-CountsFrom :
    (fuel : ℕ) (device : Device) (image : Memory)
    → HoldsImage device image
    → Counting fuel device image
unfolding count_from body
count_from-CountsFrom zero device image holds stream i base n on at ends enough =
    absurd (omega arith)
count_from-CountsFrom (suc fuel) device image holds stream i base n on at ends enough =
    let o = diskstreamer_read 33 device stream (λ j. 0) 0 32 in
    body-CountsFrom fuel device image i base n o (count_from-CountsFrom fuel device image holds)
      ends enough
      (subst (λ p. ReadsSome image (λ j. 0) 0 p 32 0 o) at
        (diskstreamer_read_lem 33 device image (λ j. 0) stream 0 32 0 holds on (omega arith)))

-- For a directory that ends at its item with number `n`, on a disk that can be read,
-- fat16_get_items_for_directory returns within `n + 1` rounds the number of the items in front of it
-- that are in use.
pub fat16_get_items_for_directory_lem :
    (fuel : ℕ) (device : Device) (image : Memory) (private : FatPrivate) (stream : DiskStream)
    (sector n : ℕ)
    → HoldsImage device image
    → private.directory_stream ≡ some stream
    → stream.disk ≡ 0
    → sector * 512 < 2 ^ 31
    → EndsAt image (sector * 512) n
    → n < fuel
    → Counts
        (used image (sector * 512) n)
        (fat16_get_items_for_directory fuel device private sector)
unfolding fat16_get_items_for_directory
fat16_get_items_for_directory_lem fuel device image private stream sector n holds has on near ends
      enough =
    let near' : ltb (sector * 512) (2 ^ 31) ≡ true = ground arith in
    rw (fat16_get_items_for_directory, has)
      (rw near' (
        counted _ (
          rw (diskstreamer_seek-eq stream (sector * 512)) (
            rw (zero-add (used image (sector * 512) n)) at (
              count_from-CountsFrom fuel device image holds (record stream { pos = sector * 512 }) 0
                (sector * 512) n on refl ends enough)))))
  where
    counted :
        (o : Option (Result ℕ × DiskStream))
        → CountsFrom (used image (sector * 512) n) o
        → Counts (used image (sector * 512) n) (elim o [
          | none ↦ none
          | some (res, stream') ↦ some (res, record private { directory_stream = some stream' })
        ])
    counted none h = h
    counted (some (res, stream')) h = h
