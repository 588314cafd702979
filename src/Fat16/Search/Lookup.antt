-- ===== src/Fat16/Search/Lookup.antt =====
-- Which items fat16_find_item_in_directory of fs/fat/fat16.c takes for a name.
use custom_os.Base.{
  ◌≢◌, ℕ, zero, suc, ◌+◌, ◌-◌, ◌*◌, ◌<◌, ◌≤◌, ◌≡◌, refl, ap, ◌∙◌, sym, ◌↔◌, false, true, Option,
  none, some, arith, List, [], ◌∷◌, ◌++◌, All, length, length-append, replicate, take,
}
use mathlib.Core.List.{map}
use custom_os.Base.Int.{ℤ, pos, negsuc}
use custom_os.Text.{istrncmp, tolower}
use custom_os.Text.Length.{NoZero}
use custom_os.Text.Compare.{istrncmp-some, istrncmp-zero_iff}
use custom_os.Streamer.{Device}
use custom_os.Heap.{Kernel}
use custom_os.Fat16.{FatDirectory, is_int}
use custom_os.Fat16.Item.{FatDirectoryItem, item_at, fat16_get_full_relative_filename}
use custom_os.Fat16.Item.Names.{IsNameByte, filled, dotted, fat16_get_full_relative_filename_lem}
use custom_os.Fat16.Directory.{State}
use custom_os.Fat16.Search.{
  FatItem, subdirectory, has_name, find_from, rounds_of, walk, fat16_fat_item_free,
  fat16_find_item_in_directory, fat16_get_directory_entry,
}

-- An item that stores the name and the extension, each filled with spaces.
pub record Stores (item : FatDirectoryItem) (name ext : List ℕ) : Type 0 where
  pub filename : item.filename ≡ filled name 8
  pub extension : item.ext ≡ filled ext 3
  pub name_bytes : All IsNameByte name
  pub ext_bytes : All IsNameByte ext
  pub name_fits : length name ≤ 8
  pub ext_fits : length ext ≤ 3

NoZero-names : (l : List ℕ) → All IsNameByte l → NoZero l
NoZero-names [] h = tt
NoZero-names (c ∷ l) h = (h.0.0, NoZero-names l h.1)

NoZero-append : (l r : List ℕ) → NoZero l → NoZero r → NoZero (l ++ r)
NoZero-append [] r h k = k
NoZero-append (c ∷ l) r h k = (h.0, NoZero-append l r h.1 k)

NoZero-dotted :
    (name ext : List ℕ) → All IsNameByte name → All IsNameByte ext → NoZero (dotted name ext)
NoZero-dotted name [] h k = NoZero-names name h
NoZero-dotted name (c ∷ ext) h k =
    NoZero-append name _ (NoZero-names name h) (ground arith, NoZero-names (c ∷ ext) k)

length-dotted :
    (name ext : List ℕ) → length name ≤ 8 → length ext ≤ 3 → length (dotted name ext) < 108
length-dotted name [] h k = omega arith
length-dotted name (c ∷ ext) h k = omega (arith, length-append name (b'.' ∷ c ∷ ext))

take-short {ℓ} : {A : Type ℓ} (n : ℕ) (l : List A) → length l ≤ n → take n l ≡ l
take-short zero [] h = refl
take-short (suc n) [] h = refl
take-short zero (x ∷ l) h = absurd (omega arith)
take-short (suc n) (x ∷ l) h = ap (λ r. x ∷ r) (take-short n l (omega arith))

length-map : (f : ℕ → ℕ) (l : List ℕ) → length (map f l) ≡ length l
length-map f [] = refl
length-map f (x ∷ l) = omega (arith, length-map f l)

ends_with_zero : (n : ℕ) → 0 < n → replicate {A = ℕ} n 0 ≡ 0 ∷ replicate (n - 1) 0
ends_with_zero zero h = absurd (omega arith)
ends_with_zero (suc n) h = let e : suc n - 1 ≡ n = omega arith in rw e refl

-- The comparison is 0 where the names agree.
has_name-istrncmp :
    (item : FatDirectoryItem) (name : List ℕ)
    → (has_name item name ≡ some true)
      ↔ (istrncmp (fat16_get_full_relative_filename item 108) name 108 ≡ some (pos 0))
unfolding has_name
has_name-istrncmp item name = go (istrncmp (fat16_get_full_relative_filename item 108) name 108)
  where
    go :
        (o : Option ℤ)
        → ((elim o [ none ↦ none | some r ↦ some (is_int 0 r) ]) ≡ some true) ↔ (o ≡ some (pos 0))
    go none = (ground arith, ground arith)
    go (some (negsuc n)) = (ground arith, ground arith)
    go (some (pos zero)) = (λ e. refl, λ e. refl)
    go (some (pos (suc n))) = (ground arith, ground arith)

-- The name of the item in its buffer of 108 bytes.
full_name :
    (item : FatDirectoryItem) (name ext : List ℕ)
    → Stores item name ext
    → fat16_get_full_relative_filename item 108
      ≡ dotted name ext ++ 0 ∷ replicate (108 - length (dotted name ext) - 1) 0
full_name item name ext stores =
    let fits = length-dotted name ext stores.name_fits stores.ext_fits in
    fat16_get_full_relative_filename_lem item name ext 108 stores.filename stores.extension
      stores.name_bytes stores.ext_bytes stores.name_fits stores.ext_fits
    ∙ ap (λ r. dotted name ext ++ r) (ends_with_zero (108 - length (dotted name ext)) (omega arith))

pub has_name_lem :
    (item : FatDirectoryItem) (name ext part rest : List ℕ)
    → Stores item name ext
    → NoZero part
    → length part < 108
    → (has_name item (part ++ 0 ∷ rest) ≡ some true)
      ↔ (map tolower (dotted name ext) ≡ map tolower part)
has_name_lem item name ext part rest stores h short =
    let shown = dotted name ext in
    let fits = length-dotted name ext stores.name_fits stores.ext_fits in
    let rendered = full_name item name ext stores in
    let agree =
      istrncmp-zero_iff 108 shown part (replicate (108 - length shown - 1) 0) rest
        (NoZero-dotted name ext stores.name_bytes stores.ext_bytes) h in
    let compared = has_name-istrncmp item (part ++ 0 ∷ rest) in
    let whole = take-short 108 (map tolower shown) (omega (arith, length-map tolower shown)) in
    let whole' = take-short 108 (map tolower part) (omega (arith, length-map tolower part)) in
    (
      λ e. sym whole ∙ (agree.0 (rw rendered at (compared.0 e)) ∙ whole'),
      λ e. compared.1 (rw rendered (agree.1 (whole ∙ (e ∙ sym whole')))),
    )

-- The comparison of a name with no fault tells one or the other.
has_name-false :
    (item : FatDirectoryItem) (name : List ℕ)
    → istrncmp (fat16_get_full_relative_filename item 108) name 108 ≢ none
    → has_name item name ≢ some true
    → has_name item name ≡ some false
unfolding has_name
has_name-false item name = go (istrncmp (fat16_get_full_relative_filename item 108) name 108)
  where
    go :
        (o : Option ℤ)
        → o ≢ none
        → (elim o [ none ↦ none | some r ↦ some (is_int 0 r) ]) ≢ some true
        → (elim o [ none ↦ none | some r ↦ some (is_int 0 r) ]) ≡ some false
    go none h other = absurd (h refl)
    go (some (negsuc n)) h other = refl
    go (some (pos zero)) h other = absurd (other refl)
    go (some (pos (suc n))) h other = ground arith

-- The search leaves an item whose name is another one.
pub has_name-other :
    (item : FatDirectoryItem) (name ext part rest : List ℕ)
    → Stores item name ext
    → NoZero part
    → length part < 108
    → map tolower (dotted name ext) ≢ map tolower part
    → has_name item (part ++ 0 ∷ rest) ≡ some false
has_name-other item name ext part rest stores h short other =
    let shown = dotted name ext in
    let rendered = full_name item name ext stores in
    let compared =
      istrncmp-some 108 shown part (replicate (108 - length shown - 1) 0) rest
        (NoZero-dotted name ext stores.name_bytes stores.ext_bytes) h in
    has_name-false item (part ++ 0 ∷ rest) (rw rendered compared)
      (λ e. other ((has_name_lem item name ext part rest stores h short).0 e))

-- No item from `i` on, of the next `n`, has the name.
abbrev pub NoneNamed : State → ℕ → List ℕ → ℕ → ℕ → Type 0
NoneNamed s items name n i =
    (k : ℕ)
    → i ≤ k
    → k < i + n
    → has_name (item_at s.kernel.memory (items + 32 * k)) name ≡ some false

pub find_from-none :
    (fuel : ℕ) (device : Device) (s : State) (items : ℕ) (name : List ℕ) (n i : ℕ)
    (f_item : Option FatItem)
    → NoneNamed s items name n i
    → find_from fuel device items name n i f_item s ≡ some (f_item, s)
unfolding find_from
find_from-none fuel device s items name zero i f_item h = refl
find_from-none fuel device s items name (suc n) i f_item h =
    rw (find_from, h i (omega arith) (omega arith))
      (find_from-none fuel device s items name n (i + 1) f_item
        (λ k lo hi. h k (omega arith) (omega arith)))

-- In a directory of which no item has the name of the first part, no entry is found and nothing changes.
pub get_directory_entry-none :
    (fuel : ℕ) (device : Device) (s : State) (part : List ℕ) (next : List (List ℕ))
    → NoneNamed s s.private.root_directory.item part (rounds_of s.private.root_directory.total) 0
    → fat16_get_directory_entry fuel device s part next ≡ some (none, s)
unfolding fat16_get_directory_entry fat16_find_item_in_directory
get_directory_entry-none fuel device s part next h =
    rw
      (
        fat16_get_directory_entry,
        find_from-none fuel device s s.private.root_directory.item part
            (rounds_of s.private.root_directory.total) 0 none h,
      )
      refl

-- In a path of three parts or more, a part that the directory of the first one does not have, with
-- more parts behind it, makes the walk go on through the null pointer.
pub walk-fault :
    (fuel : ℕ) (device : Device) (s : State) (address entry : ℕ) (d : FatDirectory)
    (part next : List ℕ) (more : List (List ℕ)) (k : Kernel)
    → NoneNamed s d.item part (rounds_of d.total) 0
    → fat16_fat_item_free s.kernel
        (record { address = entry; content = subdirectory (some (address, d)) })
      ≡ some k
    → walk fuel device s
        (some (record { address = entry; content = subdirectory (some (address, d)) }))
        (part ∷ next ∷ more)
      ≡ none
unfolding walk fat16_find_item_in_directory
walk-fault fuel device s address entry d part next more k h frees =
    rw (walk, find_from-none fuel device s d.item part (rounds_of d.total) 0 none h) (rw frees refl)
