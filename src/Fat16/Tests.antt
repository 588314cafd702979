-- ===== src/Fat16/Tests.antt =====
-- A small FAT16 disk, its files and its names.
use custom_os.Base.{
  get_or, replicate, ◌-◌, ap, ◌∙◌, fun_ext, length, ℕ, ◌+◌, ◌*◌, ◌<◌, ◌≤◌, ◌≡◌, refl, ◌⊎◌, ◌==◌,
  if◌then◌else◌, Memory, some, ok, eio, List, [], ◌∷◌, ◌++◌, arith,
}
use custom_os.Base.Int.{pos}
use custom_os.Heap.{kzalloc, heap_align_value_to_upper}
use custom_os.Heap.Filling.{Room, kzalloc-Grows}
use custom_os.Memory.Laws.{inside}
use custom_os.Heap.Search.{IsRun}
use custom_os.Heap.Laws.{blocks_for}
use custom_os.Process.Lifetime.{HasRoom}
use custom_os.Streamer.{Device, DiskStream}
use custom_os.Streamer.Image.{HoldsImage}
use custom_os.File.{read}
use custom_os.Fat16.{
  FatPrivate, minus, size_of_cluster_bytes, fat16_get_cluster_for_offset, fat16_cluster_to_sector,
  fat16_read_internal,
}
use custom_os.Fat16.Clusters.{Gives, fat16_get_cluster_for_offset_lem}
use custom_os.Fat16.Reading.Once.{Ready, StandsAt, Loads, FailsToRead}
use custom_os.Fat16.Reading.{fat16_read_internal_lem}
use custom_os.Fat16.Item.{FatDirectoryItem, item_at, fat16_get_full_relative_filename}
use custom_os.Fat16.Item.Names.{filled, fat16_get_full_relative_filename_lem}
use custom_os.Fat16.Directory.{State, fat16_get_items_for_directory}
use custom_os.Fat16.Directory.Entries.{Counts, fat16_get_items_for_directory_lem}
use custom_os.Fat16.Search.{file}
use custom_os.Fat16.Search.Lookup.{Stores, NoneNamed, has_name-other}
use custom_os.Fat16.Handle.{FatFileDescriptor, seek_set, seek_cur, seek_end, fat16_stat, fat16_open}
use custom_os.Fat16.Handle.Seeking.{Stats, SeeksTo, Refuses, fat16_seek-fat16_stat}
use custom_os.Fat16.Handle.Opening.{RefusesTo, with_descriptor, fat16_open-RefusesTo}

-- Three items in sector 4, the second of them unused, before the end of the directory.
abbrev disk : Memory
disk a = if a == 2048 then b'A' else if a == 2080 then 0xE5 else if a == 2112 then b'B' else 0

abbrev drive : Device
drive lba = ok (λ o. disk (lba * 512 + o))

drive-HoldsImage : HoldsImage drive disk
drive-HoldsImage = λ lba. ((λ o. disk (lba * 512 + o)), refl, λ o lt. refl)

abbrev at_start : DiskStream
at_start = record { pos = 0; disk = 0 }

-- Clusters of two sectors; the table begins at sector 1 and the clusters at sector 2.
abbrev private : FatPrivate
private = record {
  header = λ a. if a == 13 then 2 else if a == 14 then 1 else 0;
  root_directory = record { item = 0; total = pos 0; sector_pos = 1; ending_sector_pos = 2 };
  cluster_read_stream = some at_start;
  fat_read_stream = some at_start;
  directory_stream = some at_start;
}

private-Ready : Ready drive disk private 3
private-Ready = record {
  holds = drive-HoldsImage;
  fat = (at_start, refl, refl);
  clusters = (at_start, refl, refl);
  near = omega arith;
  sized = omega arith;
}

fat16_get_cluster_for_offset_lem_example :
    ((1030 < size_of_cluster_bytes private)
      × (fat16_get_cluster_for_offset drive private (pos 3) 1030 ≡ some (pos 3, private)))
    ⊎ ((size_of_cluster_bytes private ≤ 1030)
        × Gives (minus eio) (fat16_get_cluster_for_offset drive private (pos 3) 1030))
fat16_get_cluster_for_offset_lem_example =
    fat16_get_cluster_for_offset_lem drive disk private 3 1030 drive-HoldsImage
      (at_start, refl, refl) (omega arith) (omega arith)

cluster_3-StandsAt : StandsAt private 3 100 2148
unfolding fat16_cluster_to_sector
cluster_3-StandsAt = refl

fat16_read_internal_lem_example :
    ((60 ≤ size_of_cluster_bytes private)
      × Loads disk private disk 9000 2148 60 9010
          (fat16_read_internal drive private disk (pos 3) 100 60 9000))
    ⊎ ((size_of_cluster_bytes private < 60)
        × FailsToRead (fat16_read_internal drive private disk (pos 3) 100 60 9000))
fat16_read_internal_lem_example =
    fat16_read_internal_lem drive disk disk private 3 100 60 9000 2148 9010 private-Ready
      (omega arith) cluster_3-StandsAt

fat16_get_items_for_directory_lem_example :
    Counts 2 (fat16_get_items_for_directory 4 drive private 4)
fat16_get_items_for_directory_lem_example =
    fat16_get_items_for_directory_lem 4 drive disk private at_start 4 3 drive-HoldsImage refl refl
      (omega arith) (ground arith, (ground arith, (ground arith, refl))) (omega arith)

abbrev os_name : List ℕ
os_name = b'O' ∷ b'S' ∷ []

abbrev c_ext : List ℕ
c_ext = b'C' ∷ []

abbrev os_c : FatDirectoryItem
os_c = record {
  filename = filled os_name 8;
  ext = filled c_ext 3;
  attribute = 0x20;
  high_16_bits_first_cluster = 0;
  lower_16_bits_first_cluster = 3;
  filesize = 600;
}

os_c-Stores : Stores os_c os_name c_ext
os_c-Stores = record {
  filename = refl;
  extension = refl;
  name_bytes = ((ground arith, ground arith), ((ground arith, ground arith), tt));
  ext_bytes = ((ground arith, ground arith), tt);
  name_fits = omega arith;
  ext_fits = omega arith;
}

fat16_get_full_relative_filename_lem_example :
    fat16_get_full_relative_filename os_c 6 ≡ os_name ++ b'.' ∷ c_ext ++ 0 ∷ 0 ∷ []
fat16_get_full_relative_filename_lem_example =
    fat16_get_full_relative_filename_lem os_c os_name c_ext 6 os_c-Stores.filename
      os_c-Stores.extension os_c-Stores.name_bytes os_c-Stores.ext_bytes (omega arith) (omega arith)

abbrev part : List ℕ
part = b'o' ∷ b's' ∷ b'.' ∷ b'c' ∷ []

-- A pool of four free blocks, and an item at 0x100 of a file with 20 bytes.
abbrev state : State
state = record {
  kernel = record {
    heap = record { table = record { entries = λ i. 0; total = 4 }; saddr = 0x1000000 };
    memory = λ a. if a == 0x11C then 20 else 0;
  };
  private = private;
}

abbrev opened : FatFileDescriptor
opened = record {
  address = 0x300;
  item = record { address = 0x200; content = file 0x100 };
  pos = 8;
}

opened-Stats : Stats state opened 20
unfolding fat16_stat item_at
opened-Stats = (record { flags = 0; filesize = 20 }, refl, refl)

fat16_seek-fat16_stat_example :
    ((15 < 20) × SeeksTo state opened 15 seek_set 15 × SeeksTo state opened 15 seek_cur 23)
    ⊎ ((20 ≤ 15) × Refuses state opened 15 seek_end)
fat16_seek-fat16_stat_example = fat16_seek-fat16_stat state opened 20 15 seek_end opened-Stats

-- A root directory with the item of "OS.C" at 0x600.
abbrev crowded : State
crowded = record {
  kernel = record {
    heap = state.kernel.heap;
    memory = λ a.
        get_or
          (filled os_name 8 ++ filled c_ext 3 ++ 0x20 ∷ replicate 14 0 ++ 3 ∷ 0 ∷ 0x58 ∷ 2 ∷ [])
          (a - 0x600) 0;
  };
  private = record private {
    root_directory = record (private.root_directory) { item = 0x600; total = pos 1 };
  };
}

crowded-run : IsRun crowded.kernel.heap.table.entries 4 0 (blocks_for 8)
unfolding heap_align_value_to_upper
crowded-run = record { fits = omega arith; free = λ j lo hi. refl }

crowded-HasRoom : HasRoom crowded.kernel 8 0
crowded-HasRoom = record {
  low = omega arith;
  clean = λ j lt e. refl;
  aligned = refl;
  somewhere = omega arith;
  asked = omega arith;
  fits = omega arith;
  run = crowded-run;
}

crowded-Room : Room crowded.kernel 0
crowded-Room = record {
  filled = record {
    low = omega arith;
    taken = λ j lt. absurd (omega arith);
    free = λ j lo hi. refl;
  };
  aligned = refl;
  somewhere = omega arith;
}

crowded_memory :
    (kzalloc crowded.kernel 8).1.memory
    ≡ (λ a. if inside 0x1000000 8 a then 0 else crowded.kernel.memory a)
unfolding heap_align_value_to_upper
crowded_memory =
    let g =
      kzalloc-Grows crowded.kernel 0 8 crowded-Room (omega arith) (omega arith) (omega arith) in
    fun_ext
      (λ a. g.bytes a ∙ ap (λ p. if inside p 8 a then 0 else crowded.kernel.memory a) g.address)

crowded_item : item_at (kzalloc crowded.kernel 8).1.memory 0x600 ≡ os_c
unfolding item_at
crowded_item = ap (λ m. item_at m 0x600) crowded_memory

-- "b"
abbrev missing : List ℕ
missing = b'b' ∷ []

missing-NoneNamed : NoneNamed (with_descriptor crowded) 0x600 (missing ++ 0 ∷ []) 1 0
missing-NoneNamed k lo hi =
    let first : k ≡ 0 = omega arith in
    let item = ap (λ i. item_at (kzalloc crowded.kernel 8).1.memory (0x600 + 32 * i)) first in
    rw (item ∙ crowded_item) (
      has_name-other os_c os_name c_ext missing [] os_c-Stores (ground arith, tt) (omega arith)
        (λ e. ground (arith, ap length e)))

fat16_open-RefusesTo_example :
    RefusesTo (λ i. 0) (fat16_open 9 drive crowded (missing ++ 0 ∷ []) [] read)
fat16_open-RefusesTo_example =
    fat16_open-RefusesTo 9 drive crowded (missing ++ 0 ∷ []) [] 0 crowded-HasRoom missing-NoneNamed
