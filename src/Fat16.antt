-- ===== src/Fat16.antt =====
-- The FAT16 driver, fs/fat/fat16.c: its structures, the clusters of a file and the reading of their
-- bytes. The children go on with the items of a directory (Item, Directory), and with the open files
-- (Handle). A position is a byte of the disk below 2 ^ 31. `none` is a fault: an access through a null
-- pointer, a division by zero, a position that is negative or too large, or too little fuel.
pub mod Item
pub mod Directory
pub mod Search
pub mod Handle
pub mod Clusters
pub mod Reading
mod Tests
use custom_os.Base.{
  ℕ, zero, suc, ◌+◌, ◌-◌, ◌*◌, ◌/◌, ◌%◌, ◌^◌, Bool, true, false, ◌&&◌, ◌||◌, ltb, leb, ◌==◌,
  if◌then◌else◌, Memory, Option, none, some, Result, ok, err, Errno, eio, einvarg, enomem, ebadpath,
  efsnotus, erdonly, eunimp, eistkn, einformat,
}
use custom_os.Base.Int.{ℤ, pos, negsuc, sub_ℕ}
use custom_os.Elf.{u16_at}
use custom_os.Heap.{Kernel}
use custom_os.Streamer.{
  Device, DiskStream, Read, sector_size, diskstreamer_new, diskstreamer_seek, diskstreamer_read,
}

-- `-e`, by the numbers of status.h.
abbrev pub minus : Errno → ℤ
minus eio = negsuc 0
minus einvarg = negsuc 1
minus enomem = negsuc 2
minus ebadpath = negsuc 3
minus efsnotus = negsuc 4
minus erdonly = negsuc 5
minus eunimp = negsuc 6
minus eistkn = negsuc 7
minus einformat = negsuc 8

-- A result without a value, as the `int` that the functions return.
abbrev pub int_of : Result (Unit {0}) → ℤ
int_of (ok _) = pos 0
int_of (err e) = minus e

abbrev pub is_int : ℕ → ℤ → Bool
is_int n (pos k) = k == n
is_int n (negsuc k) = false

-- `struct fat_directory`, with the address of its array of items. `total` may be a negative error.
pub record FatDirectory : Type 0 where
  pub item : ℕ
  pub total : ℤ
  pub sector_pos : ℕ
  pub ending_sector_pos : ℕ

-- `struct fat_private`, with the bytes of `struct fat_h`.
pub record FatPrivate : Type 0 where
  pub header : Memory
  pub root_directory : FatDirectory
  pub cluster_read_stream : Option DiskStream
  pub fat_read_stream : Option DiskStream
  pub directory_stream : Option DiskStream

-- The fields of `struct fat_h` that the driver reads, by its packed layout.
module _ (private : FatPrivate) where
  abbrev pub sectors_per_cluster : ℕ
  sectors_per_cluster = private.header 13

  abbrev pub reserved_sectors : ℕ
  reserved_sectors = u16_at private.header 14

  abbrev pub fat_copies : ℕ
  fat_copies = private.header 16

  abbrev pub root_dir_entries : ℕ
  root_dir_entries = u16_at private.header 17

  abbrev pub sectors_per_fat : ℕ
  sectors_per_fat = u16_at private.header 22

  abbrev pub signature : ℕ
  signature = private.header 38

-- The header, the root directory and the pointers behind memset.
abbrev pub blank_private : FatPrivate
blank_private = record {
  header = λ j. 0;
  root_directory = record { item = 0; total = pos 0; sector_pos = 0; ending_sector_pos = 0 };
  cluster_read_stream = none;
  fat_read_stream = none;
  directory_stream = none;
}

-- The disk has number 0; the allocations of the streams are left out.
pub fat16_init_private : FatPrivate
fat16_init_private = record blank_private {
  cluster_read_stream = diskstreamer_new 0;
  fat_read_stream = diskstreamer_new 0;
  directory_stream = diskstreamer_new 0;
}

-- An `int` that is the position of a byte of the disk.
abbrev pub as_position : ℤ → Option ℕ
as_position (pos n) = if ltb n (2 ^ 31) then some n else none
as_position (negsuc n) = none

pub fat16_sector_to_absolute : ℕ → ℕ
fat16_sector_to_absolute sector = sector * sector_size

pub fat16_get_first_fat_sector : FatPrivate → ℕ
fat16_get_first_fat_sector private = reserved_sectors private

-- `fat_table_position + (cluster * PEACHOS_FAT16_FAT_ENTRY_SIZE)`
pub entry_position : FatPrivate → ℤ → ℤ
unfolding fat16_get_first_fat_sector
entry_position private (pos cluster) =
    pos (fat16_get_first_fat_sector private * sector_size + cluster * 2)
entry_position private (negsuc n) =
    sub_ℕ (fat16_get_first_fat_sector private * sector_size) ((n + 1) * 2)

-- The two bytes go to the local `result`, which is not what the function returns.
pub fat16_get_fat_entry : Device → FatPrivate → ℤ → Option (ℤ × FatPrivate)
fat16_get_fat_entry device private cluster = elim private.fat_read_stream [
  | none ↦ some (negsuc 0, private)
  | some stream ↦ elim (as_position (entry_position private cluster)) [
    | none ↦ none
    | some at ↦ elim (diskstreamer_read 3 device (diskstreamer_seek stream at).1 (λ j. 0) 0 2) [
      | none ↦ none
      | some r ↦ some (int_of r.res, record private { fat_read_stream = some r.stream })
    ]
  ]
]

-- The five tests of an entry: the last of a file, bad, reserved, or none.
abbrev pub ends_chain : ℤ → Bool
ends_chain entry =
    is_int 0xFFF8 entry
    || is_int 0xFFFF entry
    || is_int 0xFF7 entry
    || (is_int 0xFF0 entry || is_int 0xFF6 entry)
    || is_int 0 entry

-- The loop of `fat16_get_cluster_for_offset`.
pub clusters_ahead_from : Device → FatPrivate → ℤ → ℕ → Option (ℤ × FatPrivate)
clusters_ahead_from device private cluster_to_use zero = some (cluster_to_use, private)
clusters_ahead_from device private cluster_to_use (suc rounds) =
    elim (fat16_get_fat_entry device private cluster_to_use) [
      | none ↦ none
      | some (entry, private') ↦ elim (ends_chain entry) [
        | true ↦ some (minus eio, private')
        | false ↦ clusters_ahead_from device private' entry rounds
      ]
    ]

abbrev pub size_of_cluster_bytes : FatPrivate → ℕ
size_of_cluster_bytes private = sectors_per_cluster private * sector_size

pub fat16_get_cluster_for_offset : Device → FatPrivate → ℤ → ℕ → Option (ℤ × FatPrivate)
fat16_get_cluster_for_offset device private starting_cluster offset =
    if size_of_cluster_bytes private == 0
    then none
    else clusters_ahead_from device private starting_cluster
        (offset / size_of_cluster_bytes private)

pub fat16_cluster_to_sector : FatPrivate → ℕ → ℤ
fat16_cluster_to_sector private cluster =
    sub_ℕ (private.root_directory.ending_sector_pos + cluster * sectors_per_cluster private)
      (2 * sectors_per_cluster private)

-- `(starting_sector * disk->sector_size) + offset_from_cluster`
abbrev pub position_in : ℤ → ℕ → ℤ
position_in (pos sector) offset = pos (sector * sector_size + offset)
position_in (negsuc n) offset = sub_ℕ offset ((n + 1) * sector_size)

-- What a read leaves: its result, the driver's data and the memory.
pub record Outcome : Type 0 where
  pub res : ℤ
  pub private : FatPrivate
  pub memory : Memory

-- The seek and the read of `total` bytes, on the stream of the clusters.
pub read_at : Device → FatPrivate → Memory → Option ℕ → ℕ → ℕ → Option Outcome
read_at device private m none out total = none
read_at device private m (some at) out total = elim private.cluster_read_stream [
  | none ↦ none
  | some stream ↦
      elim (diskstreamer_read (total + 1) device (diskstreamer_seek stream at).1 m out total) [
        | none ↦ none
        | some r ↦ some (record {
          res = int_of r.res;
          private = record private { cluster_read_stream = some r.stream };
          memory = r.memory;
        })
      ]
]

-- What one call reads itself, in the cluster that was found.
pub read_cluster : Device → Memory → ℕ → ℕ → ℕ → ℤ × FatPrivate → Option Outcome
unfolding read_at
read_cluster device m offset total_to_read out (negsuc n, private) =
    some (record { res = negsuc n; private = private; memory = m })
read_cluster device m offset total_to_read out (pos cluster_to_use, private) =
    let starting_sector = fat16_cluster_to_sector private cluster_to_use in
    let offset_from_cluster = offset % size_of_cluster_bytes private in
    read_at device private m (as_position (position_in starting_sector offset_from_cluster)) out
      total_to_read

-- The part of the call in front of its recursion.
pub read_once : Device → FatPrivate → Memory → ℤ → ℕ → ℕ → ℕ → Option Outcome
unfolding read_cluster
read_once device private m cluster offset total_to_read out =
    elim (fat16_get_cluster_for_offset device private cluster offset) [
      | none ↦ none
      | some found ↦ read_cluster device m offset total_to_read out found
    ]

-- The stream of the callers is that of the clusters. The fuel is the depth of the recursion.
pub fat16_read_internal_from_stream :
    ℕ → Device → FatPrivate → Memory → ℤ → ℕ → ℕ → ℕ → Option Outcome
fat16_read_internal_from_stream zero device private m cluster offset total out = none
fat16_read_internal_from_stream (suc fuel) device private m cluster offset total out =
    let size = size_of_cluster_bytes private in
    let total_to_read = if ltb size total then size else total in
    elim (read_once device private m cluster offset total_to_read out) [
      | none ↦ none
      | some r ↦ elim (is_int 0 r.res && ltb total_to_read total) [
        | true ↦
            fat16_read_internal_from_stream fuel device r.private r.memory cluster
              (offset + total_to_read) (total - total_to_read) (out + total_to_read)
        | false ↦ some r
      ]
    ]

pub fat16_read_internal : Device → FatPrivate → Memory → ℤ → ℕ → ℕ → ℕ → Option Outcome
unfolding fat16_read_internal_from_stream
fat16_read_internal device private m starting_cluster offset total out =
    fat16_read_internal_from_stream (total + 1) device private m starting_cluster offset total out
