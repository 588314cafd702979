-- ===== src/Streamer/Tests.antt =====
-- A read that crosses sectors of the disk, by disk/streamer.c.
use custom_os.Base.{◌+◌, ◌*◌, ◌%◌, ◌≡◌, refl, Memory, some, ok, err, eio, arith}
use custom_os.Streamer.{
  Device, DiskStream, Read, diskstreamer_new, diskstreamer_seek, diskstreamer_read,
}
use custom_os.Streamer.Depth.{diskstreamer_read-some}
use custom_os.Streamer.Image.{HoldsImage, ReadsSome, diskstreamer_read_lem}

abbrev image : Memory
image a = a % 251

abbrev drive : Device
drive lba = ok (λ o. image (lba * 512 + o))

abbrev blank : Memory
blank a = 0

drive-HoldsImage : HoldsImage drive image
drive-HoldsImage = λ lba. ((λ o. image (lba * 512 + o)), refl, λ o lt. refl)

abbrev at_500 : DiskStream
at_500 = record { pos = 500; disk = 0 }

seek-new :
    (diskstreamer_new 0 ≡ some (record { pos = 0; disk = 0 }))
    × ((diskstreamer_seek (record { pos = 0; disk = 0 }) 500).1 ≡ at_500)
unfolding diskstreamer_new diskstreamer_seek
seek-new = (refl, refl)

diskstreamer_read_lem_example :
    ReadsSome image blank 4096 500 1100 5000 (diskstreamer_read 1101 drive at_500 blank 4096 1100)
diskstreamer_read_lem_example =
    diskstreamer_read_lem 1101 drive image blank at_500 4096 1100 5000 drive-HoldsImage refl
      (omega arith)

-- A device on which no sector can be read.
abbrev broken : Device
broken lba = err eio

diskstreamer_read-some_example :
    (r : Read) × (diskstreamer_read 1101 broken at_500 blank 4096 1100 ≡ some r)
diskstreamer_read-some_example =
    diskstreamer_read-some 1101 broken at_500 blank 4096 1100 (omega arith)
