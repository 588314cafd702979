-- ===== src/Keyboard/Ring.antt =====
-- A buffer of keyboard/keyboard.c against the queue of the bytes that it holds.
use custom_os.Base.{
  ℕ, zero, suc, ◌+◌, ◌%◌, ◌^◌, ◌<◌, ◌≤◌, ◌≡◌, ◌≢◌, refl, true, false, inl, inr, List, ap, [], ◌∷◌,
  ◌++◌, length, get_or, All, length-append, get_or-out, ◌==◌, if◌then◌else◌, arith, Bool-cases,
}
use custom_os.Keyboard.{Buffer, push, pop, keyboard_backspace}

-- The buffer holds the bytes `q`, the oldest first, and 0 at every other place.
pub record Holds (b : Buffer) (q : List ℕ) : Type 0 where
  pub fits : length q ≤ 1024
  pub head : b.head < 2 ^ 32
  pub tail : b.tail ≡ (b.head + length q) % 2 ^ 32
  pub cells : (j : ℕ) → j < 1024 → b.buffer ((b.head + j) % 1024) ≡ get_or q j 0

-- Two places less than 1024 steps from the head are different.
place-ne : (h i j : ℕ) → i < 1024 → j < 1024 → i ≢ j → (h + i) % 1024 ≢ (h + j) % 1024
place-ne h i j hi hj ne = omega arith

get_or-snoc :
    (q : List ℕ) (c j : ℕ) → get_or (q ++ c ∷ []) j 0 ≡ (if j == length q then c else get_or q j 0)
get_or-snoc [] c zero = refl
get_or-snoc [] c (suc j) = ground arith
get_or-snoc (x ∷ q) c zero = ground arith
get_or-snoc (x ∷ q) c (suc j) = ground (arith, get_or-snoc q c j)

-- A byte pushed into a buffer that is not full stands behind those that it holds.
pub push-Holds :
    (b : Buffer) (q : List ℕ) (c : ℕ) → Holds b q → length q < 1024 → Holds (push b c) (q ++ c ∷ [])
unfolding push
push-Holds b q c h room = record {
  fits = omega (arith, length-append q (c ∷ []));
  head = h.head;
  tail = omega (arith, h.tail, length-append q (c ∷ []));
  cells =
      λ j lt. ground (arith, h.tail, h.cells j, get_or-snoc q c j, place-ne b.head (length q) j);
}

first_cell : (b : Buffer) (q : List ℕ) → Holds b q → b.buffer (b.head % 1024) ≡ get_or q 0 0
first_cell b q h =
    let e : (b.head + 0) % 1024 ≡ b.head % 1024 = omega arith in rw e at (h.cells 0 (omega arith))

-- A pop of a buffer that holds a byte other than 0 returns the oldest byte and keeps the rest.
pub pop-Holds :
    (b : Buffer) (q : List ℕ) (c : ℕ)
    → Holds b (c ∷ q)
    → c ≢ 0
    → ((pop b).0 ≡ c) × Holds (pop b).1 q
unfolding pop
pop-Holds b q c h nz =
    let at = first_cell b (c ∷ q) h in
    let taken : (b.buffer (b.head % 1024) == 0) ≡ false = ground arith in
    rw (taken, pop)
      (
        at,
        record {
          fits = omega (arith, h.fits);
          head = omega arith;
          tail = omega (arith, h.tail);
          cells = λ j lt. elim (Bool-cases (j == 1023)) [
            | inl last ↦ ground (arith, get_or-out q j 0, h.fits)
            | inr early ↦ ground (arith, h.cells (suc j), place-ne b.head 0 (suc j))
          ];
        },
      )

-- A pop of an empty buffer returns 0 and changes nothing.
pub pop-empty : (b : Buffer) → Holds b [] → pop b ≡ (0, b)
unfolding pop
pop-empty b h =
    let at : (b.buffer (b.head % 1024) == 0) ≡ true = ground (arith, first_cell b [] h) in
    rw (at, pop)

-- A backspace takes back the byte that was pushed last.
pub keyboard_backspace-Holds :
    (b : Buffer) (q : List ℕ) (c : ℕ) → Holds b (q ++ c ∷ []) → Holds (keyboard_backspace b) q
unfolding keyboard_backspace
keyboard_backspace-Holds b q c h = record {
  fits = omega (arith, h.fits, length-append q (c ∷ []));
  head = h.head;
  tail = omega (arith, h.tail, h.fits, length-append q (c ∷ []));
  cells = λ j lt. ground (
    arith,
    h.tail,
    h.fits,
    length-append q (c ∷ []),
    h.cells j lt,
    get_or-snoc q c j,
    get_or-out q j 0,
    place-ne b.head (length q) j,
  );
}

-- A backspace on an empty buffer moves the tail in front of the head, so that a byte pushed then
-- is not seen by the next pop, which returns 0.
pub keyboard_backspace-empty :
    (b : Buffer) (c : ℕ) → Holds b [] → (pop (push (keyboard_backspace b) c)).0 ≡ 0
unfolding keyboard_backspace push pop
keyboard_backspace-empty b c h = ground (arith, first_cell b [] h, h.tail, h.head)

-- A client's calls on one buffer.
pub data Call : Type 0 where
  put : ℕ → Call
  get : Call

-- The bytes that the pops of the calls return.
pub run : Buffer → List Call → List ℕ
run b [] = []
run b (put c ∷ calls) = run (push b c) calls
run b (get ∷ calls) = let (c, b') = pop b in c ∷ run b' calls

-- The same calls on a queue; a get of the empty queue returns 0.
unfoldable pub run_queue : List ℕ → List Call → List ℕ
run_queue q [] = []
run_queue q (put c ∷ calls) = run_queue (q ++ c ∷ []) calls
run_queue [] (get ∷ calls) = 0 ∷ run_queue [] calls
run_queue (c ∷ q) (get ∷ calls) = c ∷ run_queue q calls

-- The calls put no 0, and never into a full buffer.
abbrev pub Allowed : List ℕ → List Call → Type 0
Allowed q [] = Unit
Allowed q (put c ∷ calls) = (c ≢ 0) × (length q < 1024) × Allowed (q ++ c ∷ []) calls
Allowed [] (get ∷ calls) = Allowed [] calls
Allowed (c ∷ q) (get ∷ calls) = Allowed q calls

All-snoc : (q : List ℕ) (c : ℕ) → All (λ x. x ≢ 0) q → c ≢ 0 → All (λ x. x ≢ 0) (q ++ c ∷ [])
All-snoc [] c h nz = (nz, tt)
All-snoc (x ∷ q) c h nz = (h.0, All-snoc q c h.1 nz)

-- For every sequence of pushes of bytes other than 0 into a buffer that is not full, and of pops,
-- the pops return what a first-in first-out queue returns.
pub run-queue :
    (calls : List Call) (b : Buffer) (q : List ℕ)
    → Holds b q
    → All (λ x. x ≢ 0) q
    → Allowed q calls
    → run b calls ≡ run_queue q calls
unfolding run run_queue
run-queue [] b q h nz ok = refl
run-queue (put c ∷ calls) b q h nz ok =
    run-queue calls (push b c) (q ++ c ∷ []) (push-Holds b q c h ok.1) (All-snoc q c nz ok.0) ok.2
run-queue (get ∷ calls) b [] h nz ok =
    rw (pop-empty b h) (ap (λ l. 0 ∷ l) (run-queue calls b [] h tt ok))
run-queue (get ∷ calls) b (c ∷ q) h nz ok =
    let popped = pop-Holds b q c h nz.0 in
    rw popped.0 (ap (λ l. c ∷ l) (run-queue calls (pop b).1 q popped.1 nz.1 ok))
