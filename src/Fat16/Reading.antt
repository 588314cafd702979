-- ===== src/Fat16/Reading.antt =====
-- The bytes that fat16_read_internal of fs/fat/fat16.c reads, against the disk as one sequence of bytes.
pub mod Once
use custom_os.Base.{
  ℕ, zero, suc, ◌+◌, ◌-◌, ◌%◌, ◌<◌, ◌≤◌, ◌≡◌, refl, ap, ◌∙◌, false, true, ltb, Option, none, some,
  arith, Memory, eio, ◌⊎◌, inl, inr, Bool-cases, ◌&&◌, if◌then◌else◌,
}
use native.Mathlib.Nat.{mod-eq_of_lt}
use custom_os.Base.Int.{ℤ, pos, negsuc}
use custom_os.Streamer.{Device, DiskStream, Read}
use custom_os.Streamer.Image.{HoldsImage, ReadsSome, seek_read, loaded}
use custom_os.Fat16.{
  FatPrivate, Outcome, minus, int_of, is_int, as_position, position_in, size_of_cluster_bytes,
  fat16_cluster_to_sector, fat16_get_cluster_for_offset, read_at, read_once, read_cluster,
  fat16_read_internal_from_stream, fat16_read_internal,
}
use custom_os.Fat16.Clusters.{HasFat, InReach, Gives, cluster-inside, cluster-behind}
use custom_os.Fat16.Reading.Once.{
  StandsAt, Ready, restreamed, Loads, FailsToRead, read_once-Loads, read_once-FailsToRead,
}

-- What the call makes of its own read: the rest of the request stays.
continue : ℕ → Device → ℤ → ℕ → ℕ → ℕ → ℕ → Option Outcome → Option Outcome
continue fuel device cluster offset total total_to_read out o = elim o [
  | none ↦ none
  | some r ↦ elim (is_int 0 r.res && ltb total_to_read total) [
    | true ↦
        fat16_read_internal_from_stream fuel device r.private r.memory cluster
          (offset + total_to_read) (total - total_to_read) (out + total_to_read)
    | false ↦ some r
  ]
]

stream-FailsToRead :
    (device : Device) (image m : Memory) (private : FatPrivate) (fuel cluster offset total out : ℕ)
    → Ready device image private cluster
    → size_of_cluster_bytes private ≤ offset
    → FailsToRead
        (fat16_read_internal_from_stream (suc fuel) device private m (pos cluster) offset total out)
unfolding fat16_read_internal_from_stream continue
stream-FailsToRead device image m private fuel cluster offset total out ready behind =
    go _ (read_once-FailsToRead device image m private cluster offset _ out ready behind)
  where
    n : ℕ
    n = if ltb (size_of_cluster_bytes private) total then size_of_cluster_bytes private else total

    go :
        (o : Option Outcome)
        → FailsToRead o
        → FailsToRead (continue fuel device (pos cluster) offset total n out o)
    go none h = h
    go (some r) h =
        let last : (is_int 0 r.res && ltb n total) ≡ false = rw h refl in rw (continue, last) h

-- A read of all that is asked for is the last.
continue-Loads :
    (image m : Memory) (private : FatPrivate) (at j fuel : ℕ) (device : Device) (cluster : ℤ)
    (offset total out : ℕ) (o : Option Outcome)
    → Loads image private m out at total j o
    → Loads image private m out at total j (continue fuel device cluster offset total total out o)
unfolding continue
continue-Loads image m private at j fuel device cluster offset total out none h = h
continue-Loads image m private at j fuel device cluster offset total out (some r) h =
    let enough : ltb total total ≡ false = ground arith in
    let last : (is_int 0 r.res && ltb total total) ≡ false = rw (h.0, enough) refl in
    rw (continue, last) h

restreamed-Ready :
    (device : Device) (image : Memory) (private : FatPrivate) (cluster : ℕ) (stream : DiskStream)
    → Ready device image private cluster
    → stream.disk ≡ 0
    → Ready device image (restreamed private stream) cluster
restreamed-Ready device image private cluster stream ready on = record {
  holds = ready.holds;
  fat = ready.fat;
  clusters = (stream, refl, on);
  near = ready.near;
  sized = ready.sized;
}

-- A read of a whole cluster is followed by one behind the cluster.
continue-FailsToRead :
    (image m : Memory) (private : FatPrivate) (at j fuel : ℕ) (device : Device) (cluster : ℕ)
    (offset total out : ℕ) (o : Option Outcome)
    → Ready device image private cluster
    → size_of_cluster_bytes private < total
    → Loads image private m out at (size_of_cluster_bytes private) j o
    → FailsToRead (
        continue (suc fuel) device (pos cluster) offset total (size_of_cluster_bytes private) out o)
unfolding continue
continue-FailsToRead image m private at j fuel device cluster offset total out none ready more h = h
continue-FailsToRead image m private at j fuel device cluster offset total out (some r) ready more
      (done, bytes, (stream, on, same)) =
    let more' : ltb (size_of_cluster_bytes private) total ≡ true = ground arith in
    let again : (is_int 0 r.res && ltb (size_of_cluster_bytes private) total) ≡ true =
      rw (done, more') refl in
    rw (continue, again, same)
      (stream-FailsToRead device image r.memory (restreamed private stream) fuel cluster
        (offset + size_of_cluster_bytes private) (total - size_of_cluster_bytes private)
        (out + size_of_cluster_bytes private)
        (restreamed-Ready device image private cluster stream ready on) (omega arith))

-- The steps of one call that asks for `n` bytes itself.
internal-continue :
    (device : Device) (private : FatPrivate) (m : Memory) (cluster : ℤ) (offset total out n : ℕ)
    → (if ltb (size_of_cluster_bytes private) total then size_of_cluster_bytes private else total)
      ≡ n
    → fat16_read_internal device private m cluster offset total out
      ≡ continue total device cluster offset total n out
          (read_once device private m cluster offset n out)
unfolding fat16_read_internal fat16_read_internal_from_stream continue
internal-continue device private m cluster offset total out n e =
    let fuel : total + 1 ≡ suc total = omega arith in
    ap (λ f. fat16_read_internal_from_stream f device private m cluster offset total out) fuel
    ∙ ap
        (λ k.
          continue total device cluster offset total k out
            (read_once device private m cluster offset k out))
        e

more-FailsToRead :
    (device : Device) (image m : Memory) (private : FatPrivate) (cluster offset total out at : ℕ)
    → Ready device image private cluster
    → offset < size_of_cluster_bytes private
    → StandsAt private cluster offset at
    → ltb (size_of_cluster_bytes private) total ≡ true
    → FailsToRead (fat16_read_internal device private m (pos cluster) offset total out)
more-FailsToRead device image m private cluster offset zero out at ready inside stands more =
    absurd (ground arith)
more-FailsToRead device image m private cluster offset (suc k) out at ready inside stands more =
    let size = size_of_cluster_bytes private in
    let once =
      read_once-Loads device image m private cluster offset size out at 0 ready inside stands in
    rw (internal-continue device private m (pos cluster) offset (suc k) out size (rw more refl)) (
      continue-FailsToRead image m private at 0 k device cluster offset (suc k) out _ ready
        (ground arith) once)

-- On a disk that can be read, from an offset in the starting cluster: fat16_read_internal of a request
-- of at most one cluster's size returns 0, puts the bytes of the disk from the offset's position on at
-- `out`, across the end of the cluster too, and writes no other byte; a request of more than one
-- cluster's size ends with -EIO, whatever the file allocation table holds.
pub fat16_read_internal_lem :
    (device : Device) (image m : Memory) (private : FatPrivate) (cluster offset total out at j : ℕ)
    → Ready device image private cluster
    → offset < size_of_cluster_bytes private
    → StandsAt private cluster offset at
    → ((total ≤ size_of_cluster_bytes private)
        × Loads image private m out at total j
            (fat16_read_internal device private m (pos cluster) offset total out))
      ⊎ ((size_of_cluster_bytes private < total)
          × FailsToRead (fat16_read_internal device private m (pos cluster) offset total out))
fat16_read_internal_lem device image m private cluster offset total out at j ready inside stands =
    elim (Bool-cases (ltb (size_of_cluster_bytes private) total)) [
      | inl more ↦
          let small : size_of_cluster_bytes private < total = ground arith in
          inr (
            small,
            more-FailsToRead device image m private cluster offset total out at ready inside stands
                more,
          )
      | inr whole ↦
          let fits : total ≤ size_of_cluster_bytes private = ground arith in
          let once =
            read_once-Loads device image m private cluster offset total out at j ready inside
              stands in
          inl (
            fits,
            rw
                (internal-continue device private m (pos cluster) offset total out total
                  (rw whole refl))
                (continue-Loads image m private at j total device (pos cluster) offset total out _
                  once),
          )
    ]
