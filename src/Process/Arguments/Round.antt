-- ===== src/Process/Arguments/Round.antt =====
-- The body of the loop of process_inject_arguments of task/process.c, for one argument.

use custom_os.Base.{
  sym, ap, ◌∙◌, inr, ℕ, zero, suc, ◌+◌, ◌*◌, ◌^◌, ◌<◌, ◌≤◌, ◌≡◌, ◌⊎◌, refl, arith, List, ◌∷◌, ◌++◌,
  Memory, store, some,
}
use custom_os.Elf.{u32_at}
use custom_os.Heap.{heap_align_value_to_upper}
use custom_os.Heap.Laws.{blocks_for}
use custom_os.Process.{World}
use custom_os.Memory.{write_bytes}
use custom_os.Process.Arguments.{read_bytes, write_pointer, with_bytes, inject_one}
use custom_os.Text.Length.{NoZero}
use custom_os.Text.Copy.{strncpy-unchanged}

-- The bytes of a memory, written again where they stand, change nothing.
write_back :
    (n : ℕ) (m m' : Memory) (a x : ℕ)
    → ((y : ℕ) → m' y ≡ m y)
    → write_bytes m' a (read_bytes m a n) x ≡ m x
unfolding write_bytes read_bytes
write_back zero m m' a x same = same x
write_back (suc n) m m' a x same =
    write_back n m (store m' a (m a)) (a + 1) x (λ y. ground (arith, same y))

pub pointer_back : (m : Memory) (a p : ℕ) → p < 2 ^ 32 → u32_at (write_pointer m a p) a ≡ p
pointer_back m a p lt = ground arith

pub pointer_out : (m : Memory) (a p x : ℕ) → (x < a) ⊎ (a + 4 ≤ x) → write_pointer m a p x ≡ m x
pointer_out m a p x out = ground arith

-- A terminated string in its array.
abbrev pub IsArgument : List ℕ → Type 0
IsArgument a = (name : List ℕ) × (rest : List ℕ) × NoZero name × (a ≡ name ++ 0 ∷ rest)

pub blocks_512 : blocks_for 512 ≡ 1
unfolding heap_align_value_to_upper
blocks_512 = refl

-- The bytes behind the body of the loop.
abbrev pub injected_bytes : Memory → ℕ → ℕ → Memory
injected_bytes m p slot = write_pointer (write_bytes m p (read_bytes m p 512)) slot p

pub inject_one-some :
    (w : World) (argv i p : ℕ) (a : List ℕ)
    → IsArgument a
    → inject_one w argv i p a
      ≡ some (with_bytes w (injected_bytes w.kernel.memory p (argv + 4 * i)))
unfolding inject_one
inject_one-some w argv i p a (name, rest, terminated, e) =
    rw
      (inject_one, e, strncpy-unchanged (read_bytes w.kernel.memory p 512) name rest 512 terminated)
      refl

pub u32_at-same :
    (m m' : Memory) (a : ℕ) → ((o : ℕ) → o < 4 → m' (a + o) ≡ m (a + o)) → u32_at m' a ≡ u32_at m a
u32_at-same m m' a same =
    let e : a + 0 ≡ a = omega arith in
    let first : m' a ≡ m a = ap m' (sym e) ∙ (same 0 (omega arith) ∙ ap m e) in
    omega (arith, first, same 1 (omega arith), same 2 (omega arith), same 3 (omega arith))

-- The bytes behind one round, for an array in front of the block at `p`.
module _ (m : Memory) (p slot : ℕ) (behind : slot + 4 ≤ p) where
  pub injected-pointer : p < 2 ^ 32 → u32_at (injected_bytes m p slot) slot ≡ p
  injected-pointer lt = pointer_back (write_bytes m p (read_bytes m p 512)) slot p lt

  pub injected-empty :
      ((o : ℕ) → o < 512 → m (p + o) ≡ 0) → (o : ℕ) → o < 512 → injected_bytes m p slot (p + o) ≡ 0
  injected-empty empty o lt =
      pointer_out (write_bytes m p (read_bytes m p 512)) slot p (p + o) (inr (omega arith))
      ∙ (write_back 512 m m p (p + o) (λ y. refl) ∙ empty o lt)

  pub injected-others :
      (x : ℕ) → x < p → (x < slot) ⊎ (slot + 4 ≤ x) → injected_bytes m p slot x ≡ m x
  injected-others x lt out =
      pointer_out (write_bytes m p (read_bytes m p 512)) slot p x out
      ∙ write_back 512 m m p x (λ y. refl)
