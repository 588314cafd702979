-- ===== src/Streamer/Depth.antt =====
-- How deep diskstreamer_read of disk/streamer.c recurs.
use custom_os.Base.{
  ℕ, zero, suc, ◌+◌, ◌-◌, ◌/◌, ◌%◌, ◌<◌, ◌≡◌, refl, true, leb, Memory, some, arith, inl, inr,
  Bool-cases, Result, ok, err, Errno, ◌⊎◌,
}
use custom_os.Streamer.{
  Device, DiskStream, Read, disk_read_block, copy_out, to_read, diskstreamer_read,
}

to_read-less :
    (offset total fuel : ℕ)
    → offset < 512
    → leb 512 (offset + total) ≡ true
    → total < suc fuel
    → total - to_read offset total < fuel
unfolding to_read
to_read-less offset total fuel h over enough = ground arith

Result-cases {ℓ} :
    {A : Type ℓ} (r : Result A) → ((e : Errno) × (r ≡ err e)) ⊎ ((a : A) × (r ≡ ok a))
Result-cases (err e) = inl (e, refl)
Result-cases (ok a) = inr (a, refl)

-- On every device, diskstreamer_read of `total` bytes ends within a recursion of depth `total + 1`,
-- with a result.
pub diskstreamer_read-some :
    (fuel : ℕ) (device : Device) (stream : DiskStream) (m : Memory) (out total : ℕ)
    → total < fuel
    → (r : Read) × (diskstreamer_read fuel device stream m out total ≡ some r)
unfolding diskstreamer_read
diskstreamer_read-some zero device stream m out total enough = absurd (omega arith)
diskstreamer_read-some (suc fuel) device stream m out total enough =
    let sector = stream.pos / 512 in
    let offset = stream.pos % 512 in
    let n = to_read offset total in
    elim (Result-cases (disk_read_block device stream.disk sector)) [
      | inl (e, failed) ↦
          (record { res = err e; stream = stream; memory = m }, rw (diskstreamer_read, failed) refl)
      | inr (buf, reads) ↦
          let m' = copy_out m out buf offset n in
          let stream' : DiskStream = record stream { pos = stream.pos + n } in
          elim (Bool-cases (leb 512 (offset + total))) [
            | inr fits ↦ (
              record { res = ok tt; stream = stream'; memory = m' },
              rw (diskstreamer_read, reads, fits) refl,
            )
            | inl over ↦
                let (r, e) =
                  diskstreamer_read-some fuel device stream' m' (out + n) (total - n)
                    (to_read-less offset total fuel (omega arith) over enough) in
                (r, rw (diskstreamer_read, reads, over) e)
          ]
    ]
