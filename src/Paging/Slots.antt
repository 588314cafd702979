-- ===== src/Paging/Slots.antt =====
-- One entry of the page tables of memory/paging/paging.c: where it stands, and paging_set against
-- paging_get.
use custom_os.Base.{
  ℕ, ◌+◌, ◌-◌, ◌*◌, ◌/◌, ◌%◌, ◌^◌, ◌<◌, ◌≤◌, ◌≡◌, ◌≢◌, refl, inl, inr, Memory, store, ◌==◌,
  if◌then◌else◌, arith, Bool-cases, ==_iff, ok, err, einvarg, store_ne,
}
use custom_os.Paging.{
  pagin_is_aligned, paging_get_indexes, entry_address, table_of, paging_set, paging_get,
  paging_is_alligned_address, paging_align_to_lower_page,
}

-- The indexes of a page are in range and make up its address; an address inside a page has none.
pub paging_get_indexes_lem :
    (virt d t : ℕ)
    → virt < 2 ^ 32
    → paging_get_indexes virt ≡ ok (d, t)
    → (d < 1024) × (t < 1024) × (d * 4194304 + t * 4096 ≡ virt)
unfolding paging_get_indexes pagin_is_aligned
paging_get_indexes_lem virt d t h e = ground arith

-- For addresses of at most 2 ^ 32 - 4096, paging_is_alligned_address is the nearest page at or above,
-- and for every address paging_align_to_lower_page is the nearest page at or below.
pub align_bounds :
    (a : ℕ)
    → a ≤ 2 ^ 32 - 4096
    → (paging_is_alligned_address a % 4096 ≡ 0)
      × (a ≤ paging_is_alligned_address a)
      × (paging_is_alligned_address a < a + 4096)
      × (paging_align_to_lower_page a % 4096 ≡ 0)
      × (paging_align_to_lower_page a ≤ a)
      × (a < paging_align_to_lower_page a + 4096)
unfolding paging_is_alligned_address paging_align_to_lower_page
align_bounds a h = ground arith

-- The table that entry `i` of the directory names.
abbrev pub nth_table : Memory → ℕ → ℕ → ℕ
nth_table m dir i = table_of (m (dir + 4 * i))

-- A directory is a page of its own, and its 1024 tables are different pages.
pub record IsDirectory (m : Memory) (dir : ℕ) : Type 0 where
  pub aligned : dir % 4096 ≡ 0
  pub apart : (i j : ℕ) → i < 1024 → j < 1024 → i ≢ j → nth_table m dir i ≢ nth_table m dir j
  pub separate : (i : ℕ) → i < 1024 → nth_table m dir i ≢ dir

-- The address of the entry for the page at `virt`.
abbrev pub slot : Memory → ℕ → ℕ → ℕ
slot m dir virt = nth_table m dir (virt / 4194304) + 4 * (virt % 4194304 / 4096)

pub paging_get-slot :
    (m : Memory) (dir virt : ℕ) → virt % 4096 ≡ 0 → paging_get m dir virt ≡ m (slot m dir virt)
unfolding paging_get paging_get_indexes pagin_is_aligned entry_address
paging_get-slot m dir virt h = ground arith

pub paging_set-slot :
    (m : Memory) (dir virt val : ℕ)
    → virt % 4096 ≡ 0
    → paging_set m dir virt val ≡ (ok tt, store m (slot m dir virt) val)
unfolding paging_set paging_get_indexes pagin_is_aligned entry_address
paging_set-slot m dir virt val h = ground arith

-- paging_set of an address inside a page fails and writes nothing.
pub paging_set-err :
    (m : Memory) (dir virt val : ℕ) → virt % 4096 ≢ 0 → paging_set m dir virt val ≡ (err einvarg, m)
unfolding paging_set pagin_is_aligned
paging_set-err m dir virt val h = ground arith

module _ (m : Memory) (dir : ℕ) (is : IsDirectory m dir) where
  -- The write of an entry leaves the directory.
  pub nth_table-store :
      (virt val i : ℕ)
      → virt < 2 ^ 32
      → i < 1024
      → nth_table (store m (slot m dir virt) val) dir i ≡ nth_table m dir i
  nth_table-store virt val i hv hi =
      rw (store_ne m (slot m dir virt) (dir + 4 * i) val (differs virt i hv hi)) refl
    where
      differs : (virt i : ℕ) → virt < 2 ^ 32 → i < 1024 → slot m dir virt ≢ dir + 4 * i
      differs virt i hv hi = omega (arith, is.aligned, is.separate (virt / 4194304) (omega arith))

  slot-store :
      (virt val virt' : ℕ)
      → virt < 2 ^ 32
      → virt' < 2 ^ 32
      → slot (store m (slot m dir virt) val) dir virt' ≡ slot m dir virt'
  slot-store virt val virt' hv hv' =
      rw (nth_table-store virt val (virt' / 4194304) hv (omega arith)) refl

  pub IsDirectory-store :
      (virt val : ℕ) → virt < 2 ^ 32 → IsDirectory (store m (slot m dir virt) val) dir
  IsDirectory-store virt val hv = record {
    aligned = is.aligned;
    apart = λ i j hi hj ne.
        rw (nth_table-store virt val i hv hi, nth_table-store virt val j hv hj)
          (is.apart i j hi hj ne);
    separate = λ i hi. rw (nth_table-store virt val i hv hi) (is.separate i hi);
  }

  -- Different pages have different entries.
  pub slot-ne :
      (v w : ℕ)
      → v % 4096 ≡ 0
      → w % 4096 ≡ 0
      → v < 2 ^ 32
      → w < 2 ^ 32
      → v ≢ w
      → slot m dir v ≢ slot m dir w
  slot-ne v w av aw hv hw ne = elim (Bool-cases (v / 4194304 == w / 4194304)) [
    | inl same ↦ let e : v / 4194304 ≡ w / 4194304 = (==_iff _ _).0 same in rw e (omega arith)
    | inr other ↦
        let d : v / 4194304 ≢ w / 4194304 = ground arith in
        omega (arith, is.apart (v / 4194304) (w / 4194304) (omega arith) (omega arith) d)
  ]

-- In a directory whose tables are different pages, paging_set of a page succeeds, and paging_get then
-- returns the value at that page and what it returned before at every other one; the directory stays
-- as required.
pub paging_get-paging_set :
    (m : Memory) (dir v w val : ℕ)
    → IsDirectory m dir
    → v % 4096 ≡ 0
    → w % 4096 ≡ 0
    → v < 2 ^ 32
    → w < 2 ^ 32
    → ((paging_set m dir v val).0 ≡ ok tt)
      × (paging_get (paging_set m dir v val).1 dir w ≡ (if v == w then val else paging_get m dir w))
      × IsDirectory (paging_set m dir v val).1 dir
paging_get-paging_set m dir v w val is av aw hv hw = rw (paging_set-slot m dir v val av) (
  refl,
  rw
      (
        paging_get-slot (store m (slot m dir v) val) dir w aw,
        paging_get-slot m dir w aw,
        slot-store m dir is v val w hv hw,
      )
      (ground (arith, slot-ne m dir is v w)),
  IsDirectory-store m dir is v val hv,
)
