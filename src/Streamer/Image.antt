-- ===== src/Streamer/Image.antt =====
-- diskstreamer_read of disk/streamer.c against the disk as one sequence of bytes.
use custom_os.Base.{
  ℕ, zero, suc, ◌+◌, ◌-◌, ◌*◌, ◌/◌, ◌%◌, ◌<◌, ◌≤◌, ◌≡◌, refl, true, false, Memory, store, leb, ◌==◌,
  if◌then◌else◌, arith, Bool-cases, ◌⊎◌, inl, inr, ok, Option, none, some, ◌∙◌, ap,
}
use custom_os.Memory.Laws.{inside}
use custom_os.Streamer.{
  Device, DiskStream, Read, copy_out, to_read, diskstreamer_seek, diskstreamer_read,
}

-- The device holds the bytes of `image`: it reads every sector, and each byte stands at its place.
abbrev pub HoldsImage : Device → Memory → Type 0
HoldsImage device image =
    (lba : ℕ)
    → (buf : Memory) × (device lba ≡ ok buf) × ((o : ℕ) → o < 512 → buf o ≡ image (lba * 512 + o))

copy_out_lem :
    (m : Memory) (out : ℕ) (buf : Memory) (from n j : ℕ)
    → copy_out m out buf from n j ≡ (if inside out n j then buf (from + (j - out)) else m j)
unfolding copy_out
copy_out_lem m out buf from zero j = ground arith
copy_out_lem m out buf from (suc n) j = elim (Bool-cases (out == j)) [
  | inl here ↦
      let e : from + (j - out) ≡ from = ground arith in
      rw e (ground (arith, copy_out_lem (store m out (buf from)) (out + 1) buf (from + 1) n j))
  | inr other ↦ elim (Bool-cases (inside (out + 1) n j)) [
    | inl within ↦
        let e : from + 1 + (j - (out + 1)) ≡ from + (j - out) = ground arith in
        copy_out_lem (store m out (buf from)) (out + 1) buf (from + 1) n j
        ∙ rw (within, e) (ground arith)
    | inr outside ↦
        copy_out_lem (store m out (buf from)) (out + 1) buf (from + 1) n j
        ∙ rw outside (ground arith)
  ]
]

-- The memory `m` with the `n` bytes of the image from `pos` on at `out`.
abbrev pub loaded : Memory → Memory → ℕ → ℕ → ℕ → Memory
loaded image m out pos n j = if inside out n j then image (pos + (j - out)) else m j

-- A read that succeeded: the memory at `j`, and the stream behind what was read.
pub record Reads (image m : Memory) (out pos total j : ℕ) (r : Read) : Type 0 where
  pub succeeds : r.res ≡ ok tt
  pub moved : r.stream.pos ≡ pos + total
  pub disk : r.stream.disk ≡ 0
  pub bytes : r.memory j ≡ loaded image m out pos total j

-- The outcome of a recursion that is deep enough.
abbrev pub ReadsSome : Memory → Memory → ℕ → ℕ → ℕ → ℕ → Option Read → Type 0
ReadsSome image m out pos total j none = ⊥
ReadsSome image m out pos total j (some r) = Reads image m out pos total j r

-- The bytes of the present sector, copied out.
sector_bytes :
    (image m buf : Memory) (out pos n j : ℕ)
    → ((o : ℕ) → o < 512 → buf o ≡ image (pos / 512 * 512 + o))
    → pos % 512 + n ≤ 512
    → copy_out m out buf (pos % 512) n j ≡ loaded image m out pos n j
sector_bytes image m buf out pos n j at fits =
    copy_out_lem m out buf (pos % 512) n j ∙ same (Bool-cases (inside out n j))
  where
    same :
        (inside out n j ≡ true) ⊎ (inside out n j ≡ false)
        → (if inside out n j then buf (pos % 512 + (j - out)) else m j) ≡ loaded image m out pos n j
    same (inl within) =
        let e : pos / 512 * 512 + (pos % 512 + (j - out)) ≡ pos + (j - out) = omega arith in
        rw (within, at (pos % 512 + (j - out)) (ground arith), e) refl
    same (inr outside) = rw outside refl

loaded-loaded :
    (image m m1 : Memory) (out pos n rest j : ℕ)
    → m1 j ≡ loaded image m out pos n j
    → loaded image m1 (out + n) (pos + n) rest j ≡ loaded image m out pos (n + rest) j
loaded-loaded image m m1 out pos n rest j e = elim (Bool-cases (inside (out + n) rest j)) [
  | inl within ↦
      let p : pos + n + (j - (out + n)) ≡ pos + (j - out) = ground arith in
      rw (within, p) (ground arith)
  | inr outside ↦ rw outside (ground arith)
]

-- A read that follows the bytes of one sector.
then-ReadsSome :
    (image m m1 : Memory) (out pos n rest total j : ℕ) (r : Option Read)
    → n + rest ≡ total
    → m1 j ≡ loaded image m out pos n j
    → ReadsSome image m1 (out + n) (pos + n) rest j r
    → ReadsSome image m out pos total j r
then-ReadsSome image m m1 out pos n rest total j none e at h = h
then-ReadsSome image m m1 out pos n rest total j (some r) e at h = record {
  succeeds = h.succeeds;
  moved = omega (arith, h.moved);
  disk = h.disk;
  bytes =
      h.bytes
      ∙ (loaded-loaded image m m1 out pos n rest j at ∙ ap (λ t. loaded image m out pos t j) e);
}

to_read-over :
    (offset total : ℕ)
    → offset < 512
    → leb 512 (offset + total) ≡ true
    → (offset + to_read offset total ≡ 512) × (to_read offset total ≤ total)
unfolding to_read
to_read-over offset total h over = ground arith

to_read-fits : (offset total : ℕ) → leb 512 (offset + total) ≡ false → to_read offset total ≡ total
unfolding to_read
to_read-fits offset total fits = ground arith

-- With fuel above `total`, on a device that holds the image, diskstreamer_read of `total` bytes
-- succeeds: it puts the bytes of the image from the position of the stream on at `out`, writes no
-- other byte, and moves the stream behind them.
pub diskstreamer_read_lem :
    (fuel : ℕ) (device : Device) (image m : Memory) (stream : DiskStream) (out total j : ℕ)
    → HoldsImage device image
    → stream.disk ≡ 0
    → total < fuel
    → ReadsSome image m out stream.pos total j (diskstreamer_read fuel device stream m out total)
unfolding diskstreamer_read
diskstreamer_read_lem zero device image m stream out total j holds on enough = absurd (omega arith)
diskstreamer_read_lem (suc fuel) device image m stream out total j holds on enough =
    let (buf, reads, at) = holds (stream.pos / 512) in
    let n = to_read (stream.pos % 512) total in
    rw (on, reads)
      (elim (Bool-cases (leb 512 (stream.pos % 512 + total))) [
        | inl over ↦
            let whole = to_read-over (stream.pos % 512) total (omega arith) over in
            rw over (
              then-ReadsSome image m (copy_out m out buf (stream.pos % 512) n) out stream.pos n
                (total - n) total j _ (omega (arith, whole.1))
                (sector_bytes image m buf out stream.pos n j at (omega (arith, whole.0)))
                (diskstreamer_read_lem fuel device image (copy_out m out buf (stream.pos % 512) n)
                  (record { pos = stream.pos + n; disk = 0 }) (out + n) (total - n) j holds refl
                  (omega (arith, whole.0, whole.1))))
        | inr fits ↦
            let all = to_read-fits (stream.pos % 512) total fits in
            rw (fits, all)
              (record {
                succeeds = refl;
                moved = refl;
                disk = refl;
                bytes = sector_bytes image m buf out stream.pos total j at (ground arith);
              })
      ])

pub diskstreamer_seek-eq :
    (stream : DiskStream) (at : ℕ)
    → diskstreamer_seek stream at ≡ (ok tt, record stream { pos = at })
unfolding diskstreamer_seek
diskstreamer_seek-eq stream at = refl

-- The read behind a seek.
pub seek_read :
    (fuel : ℕ) (device : Device) (image m : Memory) (stream : DiskStream) (at out total j : ℕ)
    → HoldsImage device image
    → stream.disk ≡ 0
    → total < fuel
    → ReadsSome image m out at total j
        (diskstreamer_read fuel device (diskstreamer_seek stream at).1 m out total)
unfolding diskstreamer_seek
seek_read fuel device image m stream at out total j holds on enough =
    diskstreamer_read_lem fuel device image m (record stream { pos = at }) out total j holds on
      enough
