-- ===== src/Fat16/Handle/Opening.antt =====
-- What fat16_open of fs/fat/fat16.c leaves where the file is missing.
use custom_os.Base.{
  ℕ, ◌≡◌, refl, false, ◌==◌, Memory, Option, none, some, Result, err, eio, List, arith,
}
use custom_os.Heap.{Kernel, kzalloc, kfree, heap_malloc}
use custom_os.Heap.Laws.{heap_free-heap_malloc}
use custom_os.Heap.KernelHeap.{KernelFreesTo, kzalloc-heap, kfree-FreesTo}
use custom_os.Process.Lifetime.{HasRoom, address_lem}
use custom_os.Streamer.{Device}
use custom_os.File.{read}
use custom_os.Fat16.Directory.{State}
use custom_os.Fat16.Search.{rounds_of}
use custom_os.Fat16.Search.Lookup.{NoneNamed, get_directory_entry-none}
use custom_os.Fat16.Handle.{FatFileDescriptor, refuse, open_read, fat16_open}

-- The driver behind the allocation of a descriptor.
abbrev pub with_descriptor : State → State
with_descriptor s = record s { kernel = (kzalloc s.kernel 8).1 }

-- The open fails with -EIO, and the heap's table is `m`.
abbrev pub RefusesTo : Memory → Option (Result FatFileDescriptor × State) → Type 0
RefusesTo m none = ⊥
RefusesTo m (some (res, s)) = (res ≡ err eio) × ((j : ℕ) → s.kernel.heap.table.entries j ≡ m j)

refuse-RefusesTo :
    (m : Memory) (s : State) (descriptor : ℕ)
    → KernelFreesTo m (kfree s.kernel descriptor)
    → RefusesTo m (refuse (err eio) s descriptor)
unfolding refuse
refuse-RefusesTo m s descriptor frees = go (kfree s.kernel descriptor) frees
  where
    go :
        (o : Option Kernel)
        → KernelFreesTo m o
        → RefusesTo m (elim o [ none ↦ none | some k ↦ some (err eio, record s { kernel = k }) ])
    go none h = h
    go (some k) h = (refl, h)

-- Where the heap has room for a descriptor and no item of the root directory has the name of the
-- path's first part, fat16_open for reading fails with -EIO, and the descriptor that it allocated is
-- freed: the heap's table is as it was before.
pub fat16_open-RefusesTo :
    (fuel : ℕ) (device : Device) (s : State) (part : List ℕ) (next : List (List ℕ)) (c : ℕ)
    → HasRoom s.kernel 8 c
    → NoneNamed
        (with_descriptor s)
        s.private.root_directory.item
        part
        (rounds_of s.private.root_directory.total)
        0
    → RefusesTo s.kernel.heap.table.entries (fat16_open fuel device s part next read)
unfolding fat16_open open_read
fat16_open-RefusesTo fuel device s part next c room missing =
    let p = (heap_malloc s.kernel.heap 8).0 in
    let (nz, aligned, low) = address_lem s.kernel 8 c room in
    let z = kzalloc-heap s.kernel 8 nz in
    let got : ((kzalloc s.kernel 8).0 == 0) ≡ false = ground (arith, z.0, nz) in
    let absent = get_directory_entry-none fuel device (with_descriptor s) part next missing in
    let frees =
      heap_free-heap_malloc s.kernel.heap 8 c room.low room.clean room.asked room.fits room.run in
    rw (open_read, got, absent)
      (refuse-RefusesTo s.kernel.heap.table.entries (with_descriptor s) (kzalloc s.kernel 8).0 (
        rw z.0 (kfree-FreesTo (kzalloc s.kernel 8).1 s.kernel.heap.table.entries p (rw z.1 frees))))
