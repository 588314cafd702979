-- ===== src/Fat16/Handle.antt =====
-- The open files of fs/fat/fat16.c: fat16_open, fat16_stat, fat16_read, fat16_seek and fat16_close.
pub mod Seeking
pub mod Opening
use custom_os.Base.{
  ℕ, zero, suc, ◌+◌, ◌%◌, ◌^◌, leb, ◌==◌, if◌then◌else◌, Option, none, some, Result, ok, err,
  einvarg, eio, enomem, erdonly, eunimp, List,
}
use custom_os.Base.Int.{ℤ, pos, negsuc}
use custom_os.Heap.{Kernel, kzalloc, kfree}
use custom_os.Streamer.{Device}
use custom_os.File.{FileMode, read, write, append, invalid}
use custom_os.Fat16.{fat16_read_internal}
use custom_os.Fat16.Item.{FatDirectoryItem, item_at, is_read_only, fat16_get_first_cluster}
use custom_os.Fat16.Directory.{State}
use custom_os.Fat16.Search.{
  Content, file, subdirectory, FatItem, fat16_fat_item_free, fat16_get_directory_entry,
}

-- `struct fat_file_descriptor`, with its own address.
pub record FatFileDescriptor : Type 0 where
  pub address : ℕ
  pub item : FatItem
  pub pos : ℕ

-- `kfree(descriptor)`, and the error.
pub refuse : Result FatFileDescriptor → State → ℕ → Option (Result FatFileDescriptor × State)
refuse res s descriptor = elim (kfree s.kernel descriptor) [
  | none ↦ none
  | some k ↦ some (res, record s { kernel = k })
]

-- The part of `fat16_open` for a file that is read.
pub open_read :
    ℕ → Device → State → List ℕ → List (List ℕ) → Option (Result FatFileDescriptor × State)
unfolding refuse
open_read fuel device s part next =
    let (descriptor, kernel) = kzalloc s.kernel 8 in
    let s' : State = record s { kernel = kernel } in
    if descriptor == 0
    then some (err enomem, s')
    else elim (fat16_get_directory_entry fuel device s' part next) [
      | none ↦ none
      | some (none, s2) ↦ refuse (err eio) s2 descriptor
      | some (some item, s2) ↦ some (ok (record { address = descriptor; item = item; pos = 0 }), s2)
    ]

pub fat16_open :
    ℕ
    → Device
    → State
    → List ℕ
    → List (List ℕ)
    → FileMode
    → Option (Result FatFileDescriptor × State)
unfolding open_read
fat16_open fuel device s part next read = open_read fuel device s part next
fat16_open fuel device s part next write = some (err erdonly, s)
fat16_open fuel device s part next append = some (err erdonly, s)
fat16_open fuel device s part next invalid = some (err erdonly, s)

-- `struct file_stat`
pub record FileStat : Type 0 where
  pub flags : ℕ
  pub filesize : ℕ

unfoldable pub fat16_stat : State → FatFileDescriptor → Result FileStat
fat16_stat s descriptor = elim descriptor.item.content [
  | subdirectory d ↦ err einvarg
  | file address ↦
      let ritem = item_at s.kernel.memory address in
      ok (record { flags = if is_read_only ritem then 1 else 0; filesize = ritem.filesize })
]

-- The loop of `fat16_read`: the result is the error, or the offset behind the last round.
pub read_rounds : Device → State → FatDirectoryItem → ℕ → ℕ → ℕ → ℕ → Option (ℤ × State)
read_rounds device s item offset size out_ptr zero = some (pos offset, s)
read_rounds device s item offset size out_ptr (suc rounds) =
    elim (fat16_read_internal device s.private s.kernel.memory (fat16_get_first_cluster item) offset
      size out_ptr) [
        | none ↦ none
        | some r ↦
            let s' : State = record {
              kernel = record (s.kernel) { memory = r.memory };
              private = r.private;
            } in
            elim r.res [
              | negsuc n ↦ some (negsuc n, s')
              | pos k ↦ read_rounds device s' item (offset + size) size (out_ptr + size) rounds
            ]
      ]

-- A directory is not read: its union is not a directory item.
pub fat16_read :
    Device → State → FatFileDescriptor → ℕ → ℕ → ℕ → Option (ℤ × (FatFileDescriptor × State))
unfolding read_rounds
fat16_read device s descriptor size nmemb out_ptr = elim descriptor.item.content [
  | subdirectory d ↦ none
  | file address ↦
      elim (read_rounds device s (item_at s.kernel.memory address) descriptor.pos size out_ptr
        nmemb) [
          | none ↦ none
          | some (negsuc n, s') ↦ some (negsuc n, (descriptor, s'))
          | some (pos offset, s') ↦ some (pos nmemb, (record descriptor { pos = offset }, s'))
        ]
]

-- `FILE_SEEK_MODE`
pub data FileSeekMode : Type 0 where
  seek_set seek_cur seek_end seek_other : FileSeekMode

-- The `switch` of `fat16_seek`. The position is of the type `uint32_t`.
pub seek_by : FatFileDescriptor → ℕ → FileSeekMode → Result (Unit {0}) × FatFileDescriptor
seek_by desc offset seek_set = (ok tt, record desc { pos = offset })
seek_by desc offset seek_end = (err eunimp, desc)
seek_by desc offset seek_cur = (ok tt, record desc { pos = (desc.pos + offset) % 2 ^ 32 })
seek_by desc offset seek_other = (err einvarg, desc)

pub fat16_seek :
    State → FatFileDescriptor → ℕ → FileSeekMode → Result (Unit {0}) × FatFileDescriptor
unfolding seek_by
fat16_seek s desc offset seek_mode = elim desc.item.content [
  | subdirectory d ↦ (err einvarg, desc)
  | file address ↦
      if leb (item_at s.kernel.memory address).filesize offset
      then (err eio, desc)
      else seek_by desc offset seek_mode
]

pub fat16_free_file_descriptor : Kernel → FatFileDescriptor → Option Kernel
fat16_free_file_descriptor k desc = elim (fat16_fat_item_free k desc.item) [
  | none ↦ none
  | some k' ↦ kfree k' desc.address
]

-- The result is 0.
pub fat16_close : State → FatFileDescriptor → Option (Result (Unit {0}) × State)
unfolding fat16_free_file_descriptor
fat16_close s desc = elim (fat16_free_file_descriptor s.kernel desc) [
  | none ↦ none
  | some k ↦ some (ok tt, record s { kernel = k })
]
