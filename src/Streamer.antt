-- ===== src/Streamer.antt =====
-- Reading the disk: disk/disk.c and disk/streamer.c. The ATA device, which disk_read_sector drives
-- through its ports, is the argument `device`: what a sector holds, or an error.
pub mod Depth
pub mod Image
mod Tests
use custom_os.Base.{
  ℕ, zero, suc, ◌+◌, ◌-◌, ◌*◌, ◌/◌, ◌%◌, Bool, true, false, Memory, store, ltb, leb, ◌==◌,
  if◌then◌else◌, Result, ok, err, eio, Option, none, some,
}

abbrev pub sector_size : ℕ
sector_size = 512

-- The device: the bytes of each sector, by their offset.
abbrev pub Device : Type 0
Device = ℕ → Result Memory

-- `struct disk_stream`, with the disk that it reads by its number.
pub record DiskStream : Type 0 where
  pub pos : ℕ
  pub disk : ℕ

-- The one disk has number 0.
pub disk_get : ℕ → Option ℕ
disk_get index = if index == 0 then some 0 else none

pub disk_read_block : Device → ℕ → ℕ → Result Memory
disk_read_block device idisk lba = if idisk == 0 then device lba else err eio

pub diskstreamer_new : ℕ → Option DiskStream
unfolding disk_get
diskstreamer_new disk_id = elim (disk_get disk_id) [
  | none ↦ none
  | some disk ↦ some (record { pos = 0; disk = disk })
]

pub diskstreamer_seek : DiskStream → ℕ → Result (Unit {0}) × DiskStream
diskstreamer_seek stream pos = (ok tt, record stream { pos = pos })

-- `for (i = 0; i < total_to_read; i++) *out++ = buf[offset + i]`
pub copy_out : Memory → ℕ → Memory → ℕ → ℕ → Memory
copy_out m out buf from zero = m
copy_out m out buf from (suc rounds) =
    copy_out (store m out (buf from)) (out + 1) buf (from + 1) rounds

-- What the calls have done: the result, the stream and the memory with the bytes read.
pub record Read : Type 0 where
  pub res : Result (Unit {0})
  pub stream : DiskStream
  pub memory : Memory

-- How much of a request of `total` bytes the present sector is asked for.
pub to_read : ℕ → ℕ → ℕ
to_read offset total =
    if leb sector_size (offset + total) then total - (offset + total - sector_size) else total

-- The fuel is the depth of the recursion; `none` is a recursion that is deeper.
pub diskstreamer_read : ℕ → Device → DiskStream → Memory → ℕ → ℕ → Option Read
unfolding disk_read_block
diskstreamer_read zero device stream m out total = none
diskstreamer_read (suc fuel) device stream m out total =
    let sector = stream.pos / sector_size in
    let offset = stream.pos % sector_size in
    let overflow = leb sector_size (offset + total) in
    let total_to_read = to_read offset total in
    elim (disk_read_block device stream.disk sector) [
      | err e ↦ some (record { res = err e; stream = stream; memory = m })
      | ok buf ↦
          let m' = copy_out m out buf offset total_to_read in
          let stream' = record stream { pos = stream.pos + total_to_read } in
          elim overflow [
            | true ↦
                diskstreamer_read fuel device stream' m' (out + total_to_read)
                  (total - total_to_read)
            | false ↦ some (record { res = ok tt; stream = stream'; memory = m' })
          ]
    ]
