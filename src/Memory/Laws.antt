-- ===== src/Memory/Laws.antt =====
-- What memset, memcpy and memcmp leave in memory and return.
use custom_os.Base.{
  ℕ, zero, suc, ◌+◌, ◌-◌, ◌%◌, ◌<◌, ◌≤◌, ◌≡◌, ◌≢◌, refl, ◌⊎◌, inl, inr, ◌↔◌, ◌∙◌, Bool, false, ◌&&◌,
  Memory, store, ltb, leb, ◌==◌, if◌then◌else◌, arith, Bool-cases, ==_iff,
}
use custom_os.Base.Int.{pos}
use custom_os.Memory.{memset, memcmp, memcpy}

-- The byte at `j` lies in the `n` bytes from `p`.
abbrev pub inside : ℕ → ℕ → ℕ → Bool
inside p n j = leb p j && ltb j (p + n)

pub memset_lem :
    (m : Memory) (p c n j : ℕ) → memset m p c n j ≡ (if inside p n j then c % 256 else m j)
unfolding memset
memset_lem m p c zero j = ground arith
memset_lem m p c (suc n) j = ground (arith, memset_lem (store m p (c % 256)) (p + 1) c n j)

-- A forward copy is safe where the destination starts at or below the source, or behind its end.
abbrev pub CopySafe : ℕ → ℕ → ℕ → Type 0
CopySafe dest src n = (dest ≤ src) ⊎ (src + n ≤ dest)

pub memcpy_outside : (m : Memory) (d s n j : ℕ) → inside d n j ≡ false → memcpy m d s n j ≡ m j
unfolding memcpy
memcpy_outside m d s zero j h = refl
memcpy_outside m d s (suc n) j h =
    ground (arith, memcpy_outside (store m d (m s)) (d + 1) (s + 1) n j)

memcpy_at :
    (m : Memory) (d s n j : ℕ)
    → CopySafe d s n
    → d ≤ j
    → j < d + n
    → memcpy m d s n j ≡ m (j + s - d)
unfolding memcpy
memcpy_at m d s zero j safe lo hi = absurd (omega arith)
memcpy_at m d s (suc n) j safe lo hi = elim (Bool-cases (j == d)) [
  | inl first ↦
      let e : j ≡ d = (==_iff j d).0 first in
      let e' : d + s - d ≡ s = omega arith in
      rw (e, e', memcpy_outside (store m d (m s)) (d + 1) (s + 1) n d (ground arith)) (ground arith)
  | inr later ↦
      let ne : j ≢ d = ground arith in
      let safe' : CopySafe (d + 1) (s + 1) n = step safe in
      memcpy_at (store m d (m s)) (d + 1) (s + 1) n j safe' (omega arith) (omega arith)
      ∙ moved safe ne
]
  where
    step : CopySafe d s (suc n) → CopySafe (d + 1) (s + 1) n
    step (inl h) = inl (omega arith)
    step (inr h) = inr (omega arith)

    moved : CopySafe d s (suc n) → j ≢ d → store m d (m s) (j + (s + 1) - (d + 1)) ≡ m (j + s - d)
    moved h ne =
        let e : j + (s + 1) - (d + 1) ≡ j + s - d = omega arith in
        rw e (elim h [ inl p ↦ ground arith | inr p ↦ ground arith ])

-- memcpy of `n` bytes to a destination that starts at or below the source, or behind its end, leaves
-- at each address of the destination the byte that the source had, and changes no other byte.
pub memcpy_lem :
    (m : Memory) (d s n j : ℕ)
    → CopySafe d s n
    → memcpy m d s n j ≡ (if inside d n j then m (j + s - d) else m j)
memcpy_lem m d s n j safe = elim (Bool-cases (inside d n j)) [
  | inl within ↦ rw within (memcpy_at m d s n j safe (ground arith) (ground arith))
  | inr outside ↦ rw outside (memcpy_outside m d s n j outside)
]

memcmp-zero_same :
    (m : Memory) (n s1 s2 : ℕ)
    → memcmp m s1 s2 n ≡ pos 0
    → (k : ℕ) → k < n
    → m (s1 + k) ≡ m (s2 + k)
unfolding memcmp
memcmp-zero_same m zero s1 s2 e k lt = absurd (omega arith)
memcmp-zero_same m (suc n) s1 s2 e zero lt =
    let e1 : s1 + 0 ≡ s1 = omega arith in
    let e2 : s2 + 0 ≡ s2 = omega arith in rw (e1, e2) (ground arith)
memcmp-zero_same m (suc n) s1 s2 e (suc k) lt =
    let e1 : s1 + suc k ≡ s1 + 1 + k = omega arith in
    let e2 : s2 + suc k ≡ s2 + 1 + k = omega arith in
    rw (e1, e2) (memcmp-zero_same m n (s1 + 1) (s2 + 1) (ground arith) k (omega arith))

memcmp-same_zero :
    (m : Memory) (n s1 s2 : ℕ)
    → ((k : ℕ) → k < n → m (s1 + k) ≡ m (s2 + k))
    → memcmp m s1 s2 n ≡ pos 0
unfolding memcmp
memcmp-same_zero m zero s1 s2 h = refl
memcmp-same_zero m (suc n) s1 s2 h =
    let here : m s1 ≡ m s2 = first in
    ground (arith, here, memcmp-same_zero m n (s1 + 1) (s2 + 1) λ k lt. later k lt)
  where
    first : m s1 ≡ m s2
    first =
        let e1 : s1 + 0 ≡ s1 = omega arith in
        let e2 : s2 + 0 ≡ s2 = omega arith in rw (e1, e2) at (h 0 (omega arith))

    later : (k : ℕ) → k < n → m (s1 + 1 + k) ≡ m (s2 + 1 + k)
    later k lt =
        let e1 : s1 + suc k ≡ s1 + 1 + k = omega arith in
        let e2 : s2 + suc k ≡ s2 + 1 + k = omega arith in rw (e1, e2) at (h (suc k) (omega arith))

-- memcmp is 0 exactly where the `n` bytes at the two addresses agree.
pub memcmp-zero_iff :
    (m : Memory) (s1 s2 n : ℕ)
    → (memcmp m s1 s2 n ≡ pos 0) ↔ ((k : ℕ) → k < n → m (s1 + k) ≡ m (s2 + k))
memcmp-zero_iff m s1 s2 n = (memcmp-zero_same m n s1 s2, memcmp-same_zero m n s1 s2)
