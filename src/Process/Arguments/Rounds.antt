-- ===== src/Process/Arguments/Rounds.antt =====
-- The loop of process_inject_arguments of task/process.c.
use mathlib.Core.Path.{subst}
use custom_os.Base.{
  ℕ, zero, suc, ◌+◌, ◌*◌, ◌<◌, ◌≤◌, ◌≡◌, ◌⊎◌, refl, ◌∙◌, arith, inl, inr, false, ◌==◌, List, [],
  ◌∷◌, All, length, Option, some, Result, ok,
}
use custom_os.Elf.{u32_at}
use custom_os.Heap.Filling.{Room}
use custom_os.Process.{World, process_malloc}
use custom_os.Process.Arguments.{with_bytes, inject_one, inject_from}
use custom_os.Process.Arguments.Entries.{Uses, Takes, process_malloc-Takes}
use custom_os.Process.Arguments.Round.{
  u32_at-same, injected-pointer, injected-empty, injected-others, IsArgument, blocks_512,
  injected_bytes, inject_one-some,
}

-- The loop over `n` arguments from argument `i` on, with the free blocks from `d` and the free entries
-- from `k` on.
pub record Injects (w : World) (argv i d k n : ℕ) (out : Option (Result (Unit {0}) × World))
    : Type 0 where
  pub after : World
  pub done : out ≡ some (ok tt, after)
  pub pointers :
      (j : ℕ)
      → j < n
      → u32_at after.kernel.memory (argv + 4 * (i + j)) ≡ w.kernel.heap.saddr + (d + j) * 4096
  pub empty :
      (j o : ℕ)
      → j < n
      → o < 512
      → (after.kernel).memory (w.kernel.heap.saddr + (d + j) * 4096 + o) ≡ 0
  pub others :
      (a : ℕ)
      → a < w.kernel.heap.saddr + d * 4096
      → (a < argv + 4 * i) ⊎ (argv + 4 * (i + n) ≤ a)
      → (after.kernel).memory a ≡ w.kernel.memory a
  pub owned : (j : ℕ) → j < n → after.process.ptr (k + j) ≡ w.kernel.heap.saddr + (d + j) * 4096
  pub kept : (j : ℕ) → j < k → after.process.ptr j ≡ w.process.ptr j

inject_from-step :
    (w w1 w2 : World) (argv i p : ℕ) (a : List ℕ) (next : List (List ℕ))
    → process_malloc w 512 ≡ some (p, w1)
    → (p == 0) ≡ false
    → inject_one w1 argv i p a ≡ some w2
    → inject_from w argv i (a ∷ next) ≡ inject_from w2 argv (i + 1) next
unfolding inject_from
inject_from-step w w1 w2 argv i p a next took nz one = rw (inject_from, took, nz, one) refl

-- One round in front of the others, with the block that the round takes.
module _ (w : World) (argv i d k n : ℕ) (t : Takes w d k 512) where
  -- The world behind the round.
  abbrev injected : World
  injected = with_bytes t.after (injected_bytes t.after.kernel.memory t.address (argv + 4 * i))

  module _ (room : Room w.kernel d) (fits : d < w.kernel.heap.table.total)
      (before : argv + 4 * (i + suc n) ≤ w.kernel.heap.saddr + d * 4096)
      (out : Option (Result (Unit {0}) × World))
      (r : Injects injected argv (i + 1) (d + 1) (k + 1) n out) where
    pointers-before :
        (j : ℕ)
        → j < suc n
        → u32_at r.after.kernel.memory (argv + 4 * (i + j)) ≡ w.kernel.heap.saddr + (d + j) * 4096
    pointers-before zero lt =
        let e : i + 0 ≡ i = omega arith in
        rw e (
          u32_at-same injected.kernel.memory r.after.kernel.memory (argv + 4 * i) (λ o less.
            r.others (argv + 4 * i + o) (omega (arith, t.grows.saddr)) (inl (omega arith)))
          ∙ (injected-pointer t.after.kernel.memory t.address (argv + 4 * i) (omega (arith, t.at))
                (omega (arith, t.at, room.filled.low))
              ∙ (t.at ∙ omega arith)))
    pointers-before (suc j) lt =
        let e : i + suc j ≡ i + 1 + j = omega arith in
        rw e (r.pointers j (omega arith) ∙ omega (arith, t.grows.saddr))

    empty-before :
        (j o : ℕ)
        → j < suc n
        → o < 512
        → (r.after.kernel).memory (w.kernel.heap.saddr + (d + j) * 4096 + o) ≡ 0
    empty-before zero o lt less =
        let e : w.kernel.heap.saddr + (d + 0) * 4096 + o ≡ t.address + o = omega (arith, t.at) in
        rw e (
          r.others (t.address + o) (omega (arith, t.at, t.grows.saddr)) (inr (omega (arith, t.at)))
          ∙ injected-empty t.after.kernel.memory t.address (argv + 4 * i) (omega (arith, t.at))
              (λ q few. ground (arith, t.grows.bytes (t.address + q))) o less)
    empty-before (suc j) o lt less =
        let e : w.kernel.heap.saddr + (d + suc j) * 4096 + o
            ≡ t.after.kernel.heap.saddr + (d + 1 + j) * 4096 + o =
          omega (arith, t.grows.saddr) in
        rw e (r.empty j o (omega arith) less)

    owned-before :
        (j : ℕ) → j < suc n → r.after.process.ptr (k + j) ≡ w.kernel.heap.saddr + (d + j) * 4096
    owned-before zero lt =
        let e : k + 0 ≡ k = omega arith in
        rw e (r.kept k (omega arith) ∙ (t.entry ∙ (t.at ∙ omega arith)))
    owned-before (suc j) lt =
        let e : k + suc j ≡ k + 1 + j = omega arith in
        rw e (r.owned j (omega arith) ∙ omega (arith, t.grows.saddr))

    others-before :
        (x : ℕ)
        → x < w.kernel.heap.saddr + d * 4096
        → (x < argv + 4 * i) ⊎ (argv + 4 * (i + suc n) ≤ x)
        → (r.after.kernel).memory x ≡ w.kernel.memory x
    others-before x lo out =
        r.others x (omega (arith, t.grows.saddr)) (further out)
        ∙ (injected-others t.after.kernel.memory t.address (argv + 4 * i) (omega (arith, t.at)) x
              (omega (arith, t.at)) (nearer out)
            ∙ (t.grows.bytes x ∙ ground (arith, t.at)))
      where
        further :
            (x < argv + 4 * i) ⊎ (argv + 4 * (i + suc n) ≤ x)
            → (x < argv + 4 * (i + 1)) ⊎ (argv + 4 * (i + 1 + n) ≤ x)
        further (inl lo) = inl (omega arith)
        further (inr hi) = inr (omega arith)

        nearer :
            (x < argv + 4 * i) ⊎ (argv + 4 * (i + suc n) ≤ x)
            → (x < argv + 4 * i) ⊎ (argv + 4 * i + 4 ≤ x)
        nearer (inl lo) = inl lo
        nearer (inr hi) = inr (omega arith)

Injects-before :
    (w : World) (argv i d k : ℕ) (a : List ℕ) (args : List (List ℕ)) (t : Takes w d k 512)
    → Room w.kernel d
    → d < w.kernel.heap.table.total
    → argv + 4 * (i + length (a ∷ args)) ≤ w.kernel.heap.saddr + d * 4096
    → IsArgument a
    → Injects
        (injected w argv i d k (length args) t)
        argv
        (i + 1)
        (d + 1)
        (k + 1)
        (length args)
        (inject_from (injected w argv i d k (length args) t) argv (i + 1) args)
    → Injects w argv i d k (length (a ∷ args)) (inject_from w argv i (a ∷ args))
Injects-before w argv i d k a args t room fits before one r =
    let live : (t.address == 0) ≡ false = ground (arith, t.at, room.somewhere) in
    let n = length args in
    record {
      after = r.after;
      done =
          inject_from-step w t.after (injected w argv i d k n t) argv i t.address a args t.took live
            (inject_one-some t.after argv i t.address a one)
          ∙ r.done;
      pointers = pointers-before w argv i d k n t room fits before _ r;
      empty = empty-before w argv i d k n t room fits before _ r;
      others = others-before w argv i d k n t room fits before _ r;
      owned = owned-before w argv i d k n t room fits before _ r;
      kept = λ j lt. r.kept j (omega arith) ∙ t.others j lt;
    }

pub inject_from-Injects :
    (args : List (List ℕ)) (w : World) (argv i d k : ℕ)
    → Room w.kernel d
    → d + length args ≤ w.kernel.heap.table.total
    → Uses w.process k
    → k + length args ≤ 1024
    → argv + 4 * (i + length args) ≤ w.kernel.heap.saddr + d * 4096
    → All IsArgument args
    → Injects w argv i d k (length args) (inject_from w argv i args)
unfolding inject_from
inject_from-Injects [] w argv i d k room fits u entries before all = record {
  after = w;
  done = refl;
  pointers = λ j lt. absurd (omega arith);
  empty = λ j o lt lo. absurd (omega arith);
  others = λ a lo out. refl;
  owned = λ j lt. absurd (omega arith);
  kept = λ j lt. refl;
}
inject_from-Injects (a ∷ args) w argv i d k room fits u entries before all =
    let t =
      process_malloc-Takes w d k 512 room (omega arith) (omega arith) (omega (arith, blocks_512)) u
        (omega arith) in
    let p = t.address in
    let m = injected_bytes t.after.kernel.memory p (argv + 4 * i) in
    let w2 = with_bytes t.after m in
    let room2 : Room w2.kernel (d + 1) =
      let r = subst (λ (b : ℕ). Room t.after.kernel (d + b)) blocks_512 t.grows.room in
      record { filled = r.filled; aligned = r.aligned; somewhere = r.somewhere } in
    let r =
      inject_from-Injects args w2 argv (i + 1) (d + 1) (k + 1) room2 (omega (arith, t.grows.total))
        t.uses (omega arith) (omega (arith, t.grows.saddr)) all.1 in
    Injects-before w argv i d k a args t room (omega arith) before all.0 r
