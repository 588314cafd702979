-- ===== src/Fat16/Search.antt =====
-- The items that fs/fat/fat16.c loads from a directory and finds by their names. A pointer to a
-- structure is its address with what the structure holds.
pub mod Lookup
use custom_os.Base.{
  ℕ, zero, suc, ◌+◌, ◌-◌, ◌*◌, ◌%◌, ◌^◌, Bool, true, false, ltb, ◌==◌, if◌then◌else◌, Option, none,
  some, List, [], ◌∷◌,
}
use custom_os.Base.Int.{ℤ, pos, negsuc}
use custom_os.Heap.{Kernel, kzalloc, kfree}
use custom_os.Memory.{memcpy}
use custom_os.Text.{istrncmp}
use custom_os.Streamer.{Device}
use custom_os.Fat16.{
  FatDirectory, FatPrivate, Outcome, fat16_cluster_to_sector, fat16_read_internal, is_int,
}
use custom_os.Fat16.Item.{
  FatDirectoryItem, item_at, is_subdirectory, fat16_get_first_cluster,
  fat16_get_full_relative_filename,
}
use custom_os.Fat16.Directory.{State, item_size, total_of, fat16_get_items_for_directory}

abbrev pub max_path : ℕ
max_path = 108

-- A pointer to a `struct fat_directory`; `none` is null.
abbrev pub DirectoryPointer : Type 0
DirectoryPointer = Option (ℕ × FatDirectory)

-- The union of `struct fat_item`, with its type.
pub data Content : Type 0 where
  file : ℕ → Content
  subdirectory : DirectoryPointer → Content

-- `struct fat_item`, with its own address.
pub record FatItem : Type 0 where
  pub address : ℕ
  pub content : Content

-- The address of the copy, 0 for none.
pub fat16_clone_directory_item : Kernel → ℕ → ℕ → ℕ × Kernel
fat16_clone_directory_item k item size =
    let (item_copy, k') = kzalloc k size in
    if ltb size item_size
    then (0, k)
    else if item_copy == 0
    then (0, k')
    else (item_copy, record k' { memory = memcpy k'.memory item_copy item size })

pub fat16_free_directory : Kernel → DirectoryPointer → Option Kernel
fat16_free_directory k none = some k
fat16_free_directory k (some (address, d)) = elim (if d.item == 0 then some k else kfree k d.item) [
  | none ↦ none
  | some k' ↦ kfree k' address
]

-- What the item points to.
pub free_content : Kernel → Content → Option Kernel
unfolding fat16_free_directory
free_content k (file item) = kfree k item
free_content k (subdirectory d) = fat16_free_directory k d

pub fat16_fat_item_free : Kernel → FatItem → Option Kernel
unfolding free_content
fat16_fat_item_free k item = elim (free_content k item.content) [
  | none ↦ none
  | some k' ↦ kfree k' item.address
]

-- `directory->total + sizeof(struct fat_item)`, of an unsigned type.
abbrev pub directory_size : ℤ → ℕ
directory_size (pos total) = total + 8
directory_size (negsuc n) = (2 ^ 32 + 8 - (n + 1)) % 2 ^ 32

-- A pointer to a directory that was loaded, or to one that has been freed.
abbrev pub Loaded : Type 0
Loaded = Option (DirectoryPointer × State)

-- `fat16_free_directory(directory)` on the way out: the pointer is returned all the same.
pub freed_directory : ℕ × FatDirectory → State → Loaded
unfolding fat16_free_directory
freed_directory d s = elim (fat16_free_directory s.kernel (some d)) [
  | none ↦ none
  | some k ↦ some (some d, record s { kernel = k })
]

-- The part of `fat16_load_fat_directory` behind the allocation of `item`.
pub load_items : Device → State → ℤ → ℕ × FatDirectory → Loaded
unfolding freed_directory
load_items device s cluster (address, d) =
    elim (fat16_read_internal device s.private s.kernel.memory cluster 0 (directory_size d.total)
      d.item) [
        | none ↦ none
        | some r ↦
            let s' : State = record {
              kernel = record (s.kernel) { memory = r.memory };
              private = r.private;
            } in
            if is_int 0 r.res then some (some (address, d), s') else freed_directory (address, d) s'
      ]

-- The part behind the allocation of the directory at `address`.
pub load_at : ℕ → Device → State → ℤ → ℕ → Loaded
unfolding load_items
load_at fuel device s (negsuc n) address = none
load_at fuel device s (pos cluster) address = elim (fat16_cluster_to_sector s.private cluster) [
  | negsuc n ↦ none
  | pos cluster_sector ↦ elim (fat16_get_items_for_directory fuel device s.private cluster_sector) [
    | none ↦ none
    | some (items, private) ↦
        let total = total_of items in
        let (item, kernel) = kzalloc s.kernel (directory_size total) in
        let d : FatDirectory = record {
          item = item;
          total = total;
          sector_pos = 0;
          ending_sector_pos = 0;
        } in
        let s' : State = record { kernel = kernel; private = private } in
        if item == 0
        then freed_directory (address, d) s'
        else load_items device s' (pos cluster) (address, d)
  ]
]

-- `none` inside is the null pointer. The function that counts the items has another name in this call.
pub fat16_load_fat_directory : ℕ → Device → State → FatDirectoryItem → Loaded
unfolding load_at
fat16_load_fat_directory fuel device s item =
    let (address, kernel) = kzalloc s.kernel 16 in
    let s' : State = record s { kernel = kernel } in
    let loaded = load_at fuel device s' (fat16_get_first_cluster item) address in
    if is_subdirectory item
    then if address == 0 then some (none, s') else loaded
    else some (none, s)

-- The new `struct fat_item` for the directory item that stands at the address `entry`.
pub fat16_new_fat_item_for_directory_item : ℕ → Device → State → ℕ → Option (Option FatItem × State)
unfolding fat16_load_fat_directory
fat16_new_fat_item_for_directory_item fuel device s entry =
    let item = item_at (kzalloc s.kernel 8).1.memory entry in
    let (f_item, kernel) = kzalloc s.kernel 8 in
    let s' : State = record s { kernel = kernel } in
    let (copy, kernel') = fat16_clone_directory_item kernel entry item_size in
    if f_item == 0
    then some (none, s')
    else if is_subdirectory item
    then elim (fat16_load_fat_directory fuel device s' item) [
      | none ↦ none
      | some (d, s2) ↦ some (some (record { address = f_item; content = subdirectory d }), s2)
    ]
    else some
        (some (record { address = f_item; content = file copy }), record s { kernel = kernel' })

-- `istrncmp(tmp_filename, name, sizeof(tmp_filename)) == 0`; `none` is a read behind a string.
pub has_name : FatDirectoryItem → List ℕ → Option Bool
has_name item name =
    elim (istrncmp (fat16_get_full_relative_filename item max_path) name max_path) [
      | none ↦ none
      | some r ↦ some (is_int 0 r)
    ]

-- The loop of `fat16_find_item_in_directory` from item `i`: it goes on behind an item that it finds.
pub find_from :
    ℕ → Device → ℕ → List ℕ → ℕ → ℕ → Option FatItem → State → Option (Option FatItem × State)
unfolding fat16_new_fat_item_for_directory_item
find_from fuel device items name zero i f_item s = some (f_item, s)
find_from fuel device items name (suc rounds) i f_item s =
    let entry = items + item_size * i in
    elim (has_name (item_at s.kernel.memory entry) name) [
      | none ↦ none
      | some false ↦ find_from fuel device items name rounds (i + 1) f_item s
      | some true ↦ elim (fat16_new_fat_item_for_directory_item fuel device s entry) [
        | none ↦ none
        | some (found, s') ↦ find_from fuel device items name rounds (i + 1) found s'
      ]
    ]

-- A negative total runs no round.
abbrev pub rounds_of : ℤ → ℕ
rounds_of (pos n) = n
rounds_of (negsuc n) = 0

pub fat16_find_item_in_directory :
    ℕ → Device → State → FatDirectory → List ℕ → Option (Option FatItem × State)
unfolding find_from
fat16_find_item_in_directory fuel device s d name =
    find_from fuel device d.item name (rounds_of d.total) 0 none s

-- The loop of `fat16_get_directory_entry`, on the parts that are left. Where a part is not found the
-- next round reads through the null pointer. An item that is no directory is left behind.
pub walk : ℕ → Device → State → Option FatItem → List (List ℕ) → Option (Option FatItem × State)
unfolding fat16_find_item_in_directory fat16_fat_item_free
walk fuel device s current_item [] = some (current_item, s)
walk fuel device s none (part ∷ next) = none
walk fuel device s (some item) (part ∷ next) = elim item.content [
  | file f ↦ some (none, s)
  | subdirectory none ↦ none
  | subdirectory (some (address, d)) ↦ elim (fat16_find_item_in_directory fuel device s d part) [
    | none ↦ none
    | some (tmp_item, s') ↦ elim (fat16_fat_item_free s'.kernel item) [
      | none ↦ none
      | some k ↦ walk fuel device (record s' { kernel = k }) tmp_item next
    ]
  ]
]

-- The path is its first part and those behind it.
pub fat16_get_directory_entry :
    ℕ → Device → State → List ℕ → List (List ℕ) → Option (Option FatItem × State)
unfolding walk
fat16_get_directory_entry fuel device s part next =
    elim (fat16_find_item_in_directory fuel device s s.private.root_directory part) [
      | none ↦ none
      | some (none, s') ↦ some (none, s')
      | some (some root_item, s') ↦ walk fuel device s' (some root_item) next
    ]
