-- ===== src/Process/Allocations.antt =====
-- The memory of a process: what the searches of task/process.c find, and what process_malloc and
-- process_free leave.
use custom_os.Base.{
  ℕ, zero, suc, ◌+◌, ◌<◌, ◌≤◌, ◌≡◌, ◌≢◌, ◌⊎◌, inl, inr, refl, true, false, ◌&&◌, Memory, store,
  ◌==◌, if◌then◌else◌, arith, Bool-cases, none, some, ok, err, eistkn, ◌∙◌, ==_iff,
}
use custom_os.Memory.Laws.{inside}
use custom_os.Process.{
  Process, Processes, find, process_get_free_slot, process_allocation_unjoin, unjoin_from,
}

-- The first place from `i` on, of the next `n`, at which `x` stands.
abbrev pub IsFirst : Memory → ℕ → ℕ → ℕ → ℕ → Type 0
IsFirst m x n i j = (i ≤ j) × (j < i + n) × (m j ≡ x) × ((k : ℕ) → i ≤ k → k < j → m k ≢ x)

pub find-cases :
    (m : Memory) (x n i : ℕ)
    → ((find m x n i ≡ none) × ((j : ℕ) → i ≤ j → j < i + n → m j ≢ x))
      ⊎ ((j : ℕ) × (find m x n i ≡ some j) × IsFirst m x n i j)
unfolding find
find-cases m x zero i = inl (refl, λ j lo hi. absurd (omega arith))
find-cases m x (suc n) i = elim (Bool-cases (m i == x)) [
  | inl here ↦
      let e : m i ≡ x = (==_iff _ _).0 here in
      inr (i, rw here, (omega arith, omega arith, e, λ k lo hi. absurd (omega arith)))
  | inr other ↦ elim (find-cases m x n (i + 1)) [
    | inl (e, away) ↦ inl (
      rw (other, e),
      λ j lo hi. elim (Bool-cases (j == i)) [
        | inl same ↦ ground arith
        | inr later ↦ away j (ground arith) (omega arith)
      ],
    )
    | inr (j, e, (lo, hi, at, before)) ↦ inr (
      j,
      rw (other, e),
      (
        omega arith,
        omega arith,
        at,
        λ k lo' hi'. elim (Bool-cases (k == i)) [
          | inl same ↦ ground arith
          | inr later ↦ before k (ground arith) hi'
        ],
      ),
    )
  ]
]

-- process_get_free_slot returns the first slot below 12 that is free, and -EISTKN where there is none.
pub process_get_free_slot_lem :
    (s : Processes)
    → ((process_get_free_slot s ≡ err eistkn) × ((j : ℕ) → j < 12 → s.processes j ≢ 0))
      ⊎ ((j : ℕ) × (process_get_free_slot s ≡ ok j) × IsFirst s.processes 0 12 0 j)
unfolding process_get_free_slot
process_get_free_slot_lem s = elim (find-cases s.processes 0 12 0) [
  | inl (e, all) ↦ inl (rw (e, process_get_free_slot), λ j lt. all j (omega arith) lt)
  | inr (j, e, first) ↦ inr (j, rw (e, process_get_free_slot), first)
]

cleared_at : Process → ℕ → Process
cleared_at p i = record p { ptr = store p.ptr i 0; size = store p.size i 0 }

unjoin-hit :
    (p : Process) (ptr n i : ℕ)
    → (p.ptr i == ptr) ≡ true
    → unjoin_from p ptr (suc n) i ≡ unjoin_from (cleared_at p i) ptr n (i + 1)
unfolding unjoin_from cleared_at
unjoin-hit p ptr n i e = rw (e, unjoin_from) refl

unjoin-miss :
    (p : Process) (ptr n i : ℕ)
    → (p.ptr i == ptr) ≡ false
    → unjoin_from p ptr (suc n) i ≡ unjoin_from p ptr n (i + 1)
unfolding unjoin_from
unjoin-miss p ptr n i e = rw (e, unjoin_from) refl

unjoin_from_lem :
    (p : Process) (ptr n i j : ℕ)
    → ((unjoin_from p ptr n i).ptr j ≡ (if inside i n j && (p.ptr j == ptr) then 0 else p.ptr j))
      × ((unjoin_from p ptr n i).size j
          ≡ (if inside i n j && (p.ptr j == ptr) then 0 else p.size j))
unfolding unjoin_from cleared_at
unjoin_from_lem p ptr zero i j = ground arith
unjoin_from_lem p ptr (suc n) i j = elim (Bool-cases (p.ptr i == ptr)) [
  | inl here ↦
      let later = unjoin_from_lem (cleared_at p i) ptr n (i + 1) j in
      rw (unjoin-hit p ptr n i here) (ground (arith, later))
  | inr other ↦
      let later = unjoin_from_lem p ptr n (i + 1) j in
      rw (unjoin-miss p ptr n i other) (ground (arith, later))
]

-- process_allocation_unjoin clears every entry of the array whose address is `ptr`, and no other.
pub process_allocation_unjoin_lem :
    (p : Process) (ptr j : ℕ)
    → j < 1024
    → ((process_allocation_unjoin p ptr).ptr j ≡ (if p.ptr j == ptr then 0 else p.ptr j))
      × ((process_allocation_unjoin p ptr).size j ≡ (if p.ptr j == ptr then 0 else p.size j))
unfolding process_allocation_unjoin
process_allocation_unjoin_lem p ptr j lt =
    let at = unjoin_from_lem p ptr 1024 0 j in
    let within : inside 0 1024 j ≡ true = ground arith in
    (at.0 ∙ rw within refl, at.1 ∙ rw within refl)
