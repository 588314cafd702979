-- ===== src/Fat16/Reading/Once.antt =====
-- One round of fat16_read_internal_from_stream of fs/fat/fat16.c: the bytes that one read of the stream
-- gives.
use custom_os.Base.{ℕ, ◌+◌, ◌%◌, ◌<◌, ◌≤◌, ◌≡◌, refl, ap, Option, none, some, arith, Memory, eio}
use native.Mathlib.Nat.{mod-eq_of_lt}
use custom_os.Base.Int.{ℤ, pos, negsuc}
use custom_os.Streamer.{Device, DiskStream, Read}
use custom_os.Streamer.Image.{HoldsImage, ReadsSome, seek_read, loaded}
use custom_os.Fat16.{
  FatPrivate, Outcome, minus, int_of, as_position, position_in, size_of_cluster_bytes,
  fat16_cluster_to_sector, fat16_get_cluster_for_offset, read_at, read_once, read_cluster,
}
use custom_os.Fat16.Clusters.{HasFat, InReach, Gives, cluster-inside, cluster-behind}

-- The driver's stream of the clusters is that of the disk.
abbrev pub HasClusters : FatPrivate → Type 0
HasClusters private =
    (stream : DiskStream) × (private.cluster_read_stream ≡ some stream) × (stream.disk ≡ 0)

-- The byte of the cluster with the offset stands at the position `at` of the disk.
abbrev pub StandsAt : FatPrivate → ℕ → ℕ → ℕ → Type 0
StandsAt private cluster offset at =
    as_position (position_in (fat16_cluster_to_sector private cluster) offset) ≡ some at

-- Both streams are on a disk that can be read, and a cluster has bytes.
pub record Ready (device : Device) (image : Memory) (private : FatPrivate) (cluster : ℕ)
    : Type 0 where
  pub holds : HoldsImage device image
  pub fat : HasFat private
  pub clusters : HasClusters private
  pub near : InReach private cluster
  pub sized : 0 < size_of_cluster_bytes private

-- The driver's data with another stream of the clusters.
abbrev pub restreamed : FatPrivate → DiskStream → FatPrivate
restreamed private stream = record private { cluster_read_stream = some stream }

-- A read that succeeds with the bytes from `at` on.
abbrev pub Loads : Memory → FatPrivate → Memory → ℕ → ℕ → ℕ → ℕ → Option Outcome → Type 0
Loads image private m out at total j none = ⊥
Loads image private m out at total j (some r) =
    (r.res ≡ pos 0)
    × (r.memory j ≡ loaded image m out at total j)
    × ((stream : DiskStream) × (stream.disk ≡ 0) × (r.private ≡ restreamed private stream))

-- A read that ends with -EIO.
abbrev pub FailsToRead : Option Outcome → Type 0
FailsToRead none = ⊥
FailsToRead (some r) = r.res ≡ minus eio

outcome : FatPrivate → Option Read → Option Outcome
outcome private o = elim o [
  | none ↦ none
  | some r ↦
      some (record { res = int_of r.res; private = restreamed private r.stream; memory = r.memory })
]

outcome-Loads :
    (image m : Memory) (private : FatPrivate) (out at total j : ℕ) (o : Option Read)
    → ReadsSome image m out at total j o
    → Loads image private m out at total j (outcome private o)
unfolding outcome
outcome-Loads image m private out at total j none h = h
outcome-Loads image m private out at total j (some r) h =
    (ap int_of h.succeeds, h.bytes, (r.stream, h.disk, refl))

read_at-Loads :
    (device : Device) (image m : Memory) (private : FatPrivate) (at out total j : ℕ)
    → HoldsImage device image
    → HasClusters private
    → Loads image private m out at total j (read_at device private m (some at) out total)
unfolding read_at outcome
read_at-Loads device image m private at out total j holds (stream, has, on) =
    rw (has, read_at)
      (outcome-Loads image m private out at total j _
        (seek_read (total + 1) device image m stream at out total j holds on (omega arith)))

pub read_once-Loads :
    (device : Device) (image m : Memory) (private : FatPrivate) (cluster offset total out at j : ℕ)
    → Ready device image private cluster
    → offset < size_of_cluster_bytes private
    → StandsAt private cluster offset at
    → Loads image private m out at total j
        (read_once device private m (pos cluster) offset total out)
unfolding read_once read_cluster
read_once-Loads device image m private cluster offset total out at j ready inside stands =
    let found = cluster-inside device private cluster offset inside in
    let whole : offset % size_of_cluster_bytes private ≡ offset = mod-eq_of_lt inside in
    rw (read_once, found, whole, stands)
      (read_at-Loads device image m private at out total j ready.holds ready.clusters)

pub read_once-FailsToRead :
    (device : Device) (image m : Memory) (private : FatPrivate) (cluster offset total out : ℕ)
    → Ready device image private cluster
    → size_of_cluster_bytes private ≤ offset
    → FailsToRead (read_once device private m (pos cluster) offset total out)
unfolding read_once read_cluster
read_once-FailsToRead device image m private cluster offset total out ready behind =
    go (fat16_get_cluster_for_offset device private (pos cluster) offset) (
      cluster-behind device image private cluster offset ready.holds ready.fat ready.near
        ready.sized behind)
  where
    go :
        (o : Option (ℤ × FatPrivate))
        → Gives (minus eio) o
        → FailsToRead
            (elim o [ none ↦ none | some found ↦ read_cluster device m offset total out found ])
    go none h = h
    go (some (negsuc n, private1)) h = h
    go (some (pos n, private1)) h = absurd (cc h)
