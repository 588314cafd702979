-- ===== src/Fat16/Directory.antt =====
-- The root directory of fs/fat/fat16.c and the counting of a directory's items, over the kernel's heap
-- and memory; and fat16_resolve, which finds the file system of a disk.
pub mod Entries
use custom_os.Base.{
  ℕ, zero, suc, ◌+◌, ◌-◌, ◌*◌, ◌/◌, ◌%◌, ◌^◌, Bool, true, false, not, ltb, ◌==◌, if◌then◌else◌,
  Memory, Option, none, some, Result, ok, err, einvarg, eio, enomem, efsnotus, List, [], ◌∷◌,
}
use custom_os.Base.Int.{ℤ, pos, negsuc}
use custom_os.Heap.{Kernel, kzalloc, kfree}
use custom_os.Streamer.{
  Device, DiskStream, sector_size, diskstreamer_new, diskstreamer_seek, diskstreamer_read,
}
use custom_os.Fat16.{
  FatDirectory, FatPrivate, fat_copies, sectors_per_fat, reserved_sectors, root_dir_entries,
  signature, fat16_init_private, fat16_sector_to_absolute, as_position, minus,
}

-- `sizeof(struct fat_directory_item)`
abbrev pub item_size : ℕ
item_size = 32

-- What the functions change: the kernel's heap and memory, and the driver's data of the disk.
pub record State : Type 0 where
  pub kernel : Kernel
  pub private : FatPrivate

-- The loop of `fat16_get_items_for_directory`. It ends at an item whose name starts with 0 only.
pub count_from : ℕ → Device → DiskStream → ℕ → Option (Result ℕ × DiskStream)
count_from zero device stream i = none
count_from (suc fuel) device stream i =
    elim (diskstreamer_read 33 device stream (λ j. 0) 0 item_size) [
      | none ↦ none
      | some r ↦ elim r.res [
        | err e ↦ some (err eio, r.stream)
        | ok _ ↦ elim (r.memory 0 == 0) [
          | true ↦ some (ok i, r.stream)
          | false ↦ count_from fuel device r.stream (if r.memory 0 == 0xE5 then i else i + 1)
        ]
      ]
    ]

-- The fuel bounds the rounds of the loop.
pub fat16_get_items_for_directory : ℕ → Device → FatPrivate → ℕ → Option (Result ℕ × FatPrivate)
unfolding count_from
fat16_get_items_for_directory fuel device private directory_start_sector =
    elim private.directory_stream [
      | none ↦ none
      | some stream ↦
          let directory_start_pos = directory_start_sector * sector_size in
          elim (as_position (pos directory_start_pos)) [
            | none ↦ none
            | some at ↦ elim (count_from fuel device (diskstreamer_seek stream at).1 0) [
              | none ↦ none
              | some (res, stream') ↦ some (res, record private { directory_stream = some stream' })
            ]
          ]
    ]

abbrev pub total_of : Result ℕ → ℤ
total_of (ok n) = pos n
total_of (err e) = minus e

-- The position of the root directory, in sectors.
abbrev pub root_dir_sector_pos : FatPrivate → ℕ
root_dir_sector_pos private =
    fat_copies private * sectors_per_fat private + reserved_sectors private

-- The sectors of the root directory, the last of which may be in part used.
abbrev pub root_sectors : ℕ → ℕ
root_sectors root_dir_size =
    if root_dir_size % sector_size == 0
    then root_dir_size / sector_size
    else root_dir_size / sector_size + 1

-- The part of `fat16_get_root_directory` behind its allocation at `dir`.
pub load_root : Device → State → ℤ → ℕ → ℕ → Option (Result (Unit {0}) × State)
load_root device s total_items root_dir_size dir = elim (s.private.directory_stream) [
  | none ↦ none
  | some stream ↦
      let at = root_dir_sector_pos s.private in
      let sought = (diskstreamer_seek stream (fat16_sector_to_absolute at)).1 in
      elim (diskstreamer_read (root_dir_size + 1) device sought s.kernel.memory dir root_dir_size) [
        | none ↦ none
        | some r ↦
            let kernel = record (s.kernel) { memory = r.memory } in
            let private = record (s.private) { directory_stream = some r.stream } in
            elim r.res [
              | err e ↦ elim (kfree kernel dir) [
                | none ↦ none
                | some k ↦ some (err eio, record { kernel = k; private = private })
              ]
              | ok _ ↦ some (
                ok tt,
                record {
                  kernel = kernel;
                  private = record private {
                    root_directory = record {
                      item = dir;
                      total = total_items;
                      sector_pos = at;
                      ending_sector_pos = at + root_sectors root_dir_size;
                    };
                  };
                },
              )
            ]
      ]
]

pub fat16_get_root_directory : ℕ → Device → State → Option (Result (Unit {0}) × State)
unfolding fat16_get_items_for_directory load_root
fat16_get_root_directory fuel device s =
    let root_dir_size = root_dir_entries s.private * item_size in
    elim (fat16_get_items_for_directory fuel device s.private (root_dir_sector_pos s.private)) [
      | none ↦ none
      | some (total_items, private) ↦
          let (dir, kernel) = kzalloc s.kernel root_dir_size in
          let s' : State = record { kernel = kernel; private = private } in
          if dir == 0
          then some (err enomem, s')
          else load_root device s' (total_of total_items) root_dir_size dir
    ]

-- `sizeof(struct fat_private)`, and the header in it.
abbrev pub private_size : ℕ
private_size = 92

abbrev pub header_size : ℕ
header_size = 62

-- The part of `fat16_resolve` behind the read of the header: a failed read is not the end.
pub resolve_header : ℕ → Device → State → Option (Result (Unit {0}) × State)
unfolding fat16_get_root_directory
resolve_header fuel device s =
    if not (signature s.private == 0x29)
    then some (err efsnotus, s)
    else elim (fat16_get_root_directory fuel device s) [
      | none ↦ none
      | some (err e, s') ↦ some (err eio, s')
      | some (ok _, s') ↦ some (ok tt, s')
    ]

-- The result of a read that failed stands, unless a later error replaces it.
abbrev pub or_else : Result (Unit {0}) → Result (Unit {0}) → Result (Unit {0})
or_else read (err e) = err e
or_else (ok _) (ok _) = ok tt
or_else (err e) (ok _) = err eio

-- `kfree(fat_private)` where the result is an error; the disk keeps its pointers.
pub resolved : ℕ → Result (Unit {0}) → State → Option (Result (Unit {0}) × State)
resolved fat_private (ok _) s = some (ok tt, s)
resolved fat_private (err e) s = elim (kfree s.kernel fat_private) [
  | none ↦ none
  | some k ↦ some (err e, record s { kernel = k })
]

pub fat16_resolve : ℕ → Device → Kernel → Option (Result (Unit {0}) × State)
unfolding resolve_header resolved fat16_init_private
fat16_resolve fuel device kernel =
    let (fat_private, kernel') = kzalloc kernel private_size in
    let private = fat16_init_private in
    if fat_private == 0 then none else elim (diskstreamer_new 0) [
      | none ↦ resolved fat_private (err enomem) (record { kernel = kernel'; private = private })
      | some stream ↦
          elim (diskstreamer_read (header_size + 1) device stream (λ j. 0) 0 header_size) [
            | none ↦ none
            | some r ↦
                let s : State = record {
                  kernel = kernel';
                  private = record private { header = r.memory };
                } in
                elim (resolve_header fuel device s) [
                  | none ↦ none
                  | some (res, s') ↦ resolved fat_private (or_else r.res res) s'
                ]
          ]
    ]
