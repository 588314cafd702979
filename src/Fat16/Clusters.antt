-- ===== src/Fat16/Clusters.antt =====
-- Which cluster fat16_get_cluster_for_offset of fs/fat/fat16.c finds.
use custom_os.Base.{
  ℕ, zero, suc, ◌+◌, ◌*◌, ◌/◌, ◌^◌, ◌<◌, ◌≤◌, ◌≡◌, refl, ap, false, true, ltb, ◌==◌, Option, none,
  some, arith, Memory, ◌⊎◌, inl, inr, Bool-cases, eio,
}
use native.Mathlib.Nat.{div-eq_of_lt, le-div_iff_mul-le}
use custom_os.Base.Int.{ℤ, pos}
use custom_os.Streamer.{Device, DiskStream, Read}
use custom_os.Streamer.Image.{HoldsImage, ReadsSome, seek_read}
use custom_os.Fat16.{
  FatPrivate, reserved_sectors, minus, int_of, entry_position, size_of_cluster_bytes,
  fat16_get_first_fat_sector, fat16_get_fat_entry, ends_chain, clusters_ahead_from,
  fat16_get_cluster_for_offset,
}

-- The driver's stream of the file allocation table is that of the disk.
abbrev pub HasFat : FatPrivate → Type 0
HasFat private = (stream : DiskStream) × (private.fat_read_stream ≡ some stream) × (stream.disk ≡ 0)

-- The entry of the cluster stands below 2 ^ 31.
abbrev pub InReach : FatPrivate → ℕ → Type 0
InReach private cluster = reserved_sectors private * 512 + cluster * 2 < 2 ^ 31

-- A result with the value, for any data of the driver.
abbrev pub Gives : ℤ → Option (ℤ × FatPrivate) → Type 0
Gives v none = ⊥
Gives v (some (r, private)) = r ≡ v

-- What a read on the stream leaves, as the entry.
entry_read : FatPrivate → Option Read → Option (ℤ × FatPrivate)
entry_read private o = elim o [
  | none ↦ none
  | some r ↦ some (int_of r.res, record private { fat_read_stream = some r.stream })
]

entry_read-Gives :
    (private : FatPrivate) (image : Memory) (at : ℕ) (o : Option Read)
    → ReadsSome image (λ j. 0) 0 at 2 0 o
    → Gives (pos 0) (entry_read private o)
unfolding entry_read
entry_read-Gives private image at none h = h
entry_read-Gives private image at (some r) h = ap int_of h.succeeds

get_fat_entry-zero :
    (device : Device) (image : Memory) (private : FatPrivate) (cluster : ℕ)
    → HoldsImage device image
    → HasFat private
    → InReach private cluster
    → Gives (pos 0) (fat16_get_fat_entry device private (pos cluster))
unfolding fat16_get_fat_entry entry_position fat16_get_first_fat_sector entry_read
get_fat_entry-zero device image private cluster holds (stream, has, on) near =
    let at = reserved_sectors private * 512 + cluster * 2 in
    let near' : ltb at (2 ^ 31) ≡ true = ground arith in
    rw (fat16_get_fat_entry, has, near')
      (entry_read-Gives private image at _
        (seek_read 3 device image (λ j. 0) stream at 0 2 0 holds on (omega arith)))

-- The entry ends the chain where it is 0.
ends-chain_zero :
    (device : Device) (o : Option (ℤ × FatPrivate)) (rounds : ℕ)
    → Gives (pos 0) o
    → Gives (minus eio) (elim o [
      | none ↦ none
      | some (entry, private') ↦ elim (ends_chain entry) [
        | true ↦ some (minus eio, private')
        | false ↦ clusters_ahead_from device private' entry rounds
      ]
    ])
ends-chain_zero device none rounds h = h
ends-chain_zero device (some (entry, private)) rounds h = rw h refl

pub clusters_ahead_from-error :
    (device : Device) (image : Memory) (private : FatPrivate) (cluster rounds : ℕ)
    → HoldsImage device image
    → HasFat private
    → InReach private cluster
    → Gives (minus eio) (clusters_ahead_from device private (pos cluster) (suc rounds))
unfolding clusters_ahead_from
clusters_ahead_from-error device image private cluster rounds holds has near =
    ends-chain_zero device (fat16_get_fat_entry device private (pos cluster)) rounds
      (get_fat_entry-zero device image private cluster holds has near)

clusters_ahead_from-none :
    (device : Device) (private : FatPrivate) (cluster : ℤ)
    → clusters_ahead_from device private cluster 0 ≡ some (cluster, private)
unfolding clusters_ahead_from
clusters_ahead_from-none device private cluster = refl

pos_suc : (n : ℕ) → 1 ≤ n → (k : ℕ) × (n ≡ suc k)
pos_suc zero h = absurd (omega arith)
pos_suc (suc n) h = (n, refl)

pub cluster-inside :
    (device : Device) (private : FatPrivate) (cluster offset : ℕ)
    → offset < size_of_cluster_bytes private
    → fat16_get_cluster_for_offset device private (pos cluster) offset ≡ some (pos cluster, private)
unfolding fat16_get_cluster_for_offset
cluster-inside device private cluster offset inside =
    let some_bytes : (size_of_cluster_bytes private == 0) ≡ false = ground arith in
    let none_ahead : offset / size_of_cluster_bytes private ≡ 0 = div-eq_of_lt inside in
    rw (some_bytes, none_ahead) (clusters_ahead_from-none device private (pos cluster))

pub cluster-behind :
    (device : Device) (image : Memory) (private : FatPrivate) (cluster offset : ℕ)
    → HoldsImage device image
    → HasFat private
    → InReach private cluster
    → 0 < size_of_cluster_bytes private
    → size_of_cluster_bytes private ≤ offset
    → Gives (minus eio) (fat16_get_cluster_for_offset device private (pos cluster) offset)
unfolding fat16_get_cluster_for_offset
cluster-behind device image private cluster offset holds has near sized behind =
    let some_bytes : (size_of_cluster_bytes private == 0) ≡ false = ground arith in
    let once : 1 ≤ offset / size_of_cluster_bytes private =
      (le-div_iff_mul-le {x = 1} {y = offset} sized).1 (omega arith) in
    let (k, ahead) = pos_suc _ once in
    rw (some_bytes, ahead) (clusters_ahead_from-error device image private cluster k holds has near)

-- On a disk that can be read, with clusters of a size other than 0, fat16_get_cluster_for_offset
-- returns the starting cluster for an offset in that cluster, and changes nothing; for every offset
-- behind it the result is -EIO, whatever the file allocation table holds.
pub fat16_get_cluster_for_offset_lem :
    (device : Device) (image : Memory) (private : FatPrivate) (cluster offset : ℕ)
    → HoldsImage device image
    → HasFat private
    → InReach private cluster
    → 0 < size_of_cluster_bytes private
    → ((offset < size_of_cluster_bytes private)
        × (fat16_get_cluster_for_offset device private (pos cluster) offset
            ≡ some (pos cluster, private)))
      ⊎ ((size_of_cluster_bytes private ≤ offset)
          × Gives (minus eio) (fat16_get_cluster_for_offset device private (pos cluster) offset))
fat16_get_cluster_for_offset_lem device image private cluster offset holds has near sized =
    elim (Bool-cases (ltb offset (size_of_cluster_bytes private))) [
      | inl inside ↦
          let h : offset < size_of_cluster_bytes private = ground arith in
          inl (h, cluster-inside device private cluster offset h)
      | inr behind ↦
          let h : size_of_cluster_bytes private ≤ offset = ground arith in
          inr (h, cluster-behind device image private cluster offset holds has near sized h)
    ]
