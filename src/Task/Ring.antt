-- ===== src/Task/Ring.antt =====
-- The order in which task/task.c runs the tasks.
pub mod Turns
use mathlib.Core.Path.{subst}
use custom_os.Base.{
  ℕ, zero, suc, ◌≡◌, ◌≢◌, refl, sym, ap, ◌∙◌, true, false, Option, none, some, List, [], ◌∷◌, ◌++◌,
  Memory, store, ◌==◌, if◌then◌else◌, All, length, arith, store_self, store_ne,
}
use custom_os.Task.{
  Tasks, task_new, task_get_next, unlink, task_list_remove, task_switch, task_next,
}

-- From `t` the fields `next` lead through the tasks of the list to NULL.
abbrev pub Leads : Memory → ℕ → List ℕ → Type 0
Leads next t [] = t ≡ 0
Leads next t (x ∷ xs) = (t ≡ x) × (x ≢ 0) × Leads next (next x) xs

-- No task of the list is `t`.
abbrev pub Fresh : ℕ → List ℕ → Type 0
Fresh t l = All (λ x. x ≢ t) l

-- No task stands twice in the list.
abbrev pub Distinct : List ℕ → Type 0
Distinct [] = Unit
Distinct (x ∷ xs) = Fresh x xs × Distinct xs

-- The last task of a list, `d` for none.
abbrev pub last_or : ℕ → List ℕ → ℕ
last_or d [] = d
last_or d (x ∷ xs) = last_or x xs

-- The list of the tasks is `l`, and its tail is the last of them.
pub record IsList (s : Tasks) (l : List ℕ) : Type 0 where
  pub leads : Leads s.next s.task_head l
  pub distinct : Distinct l
  pub tail : s.task_tail ≡ last_or 0 l

-- Writing the field of another task leaves the way through the list.
pub Leads-store :
    (next : Memory) (t v p : ℕ) (l : List ℕ)
    → Fresh t l
    → Leads next p l
    → Leads (store next t v) p l
Leads-store next t v p [] f h = h
Leads-store next t v p (x ∷ xs) f h =
    (h.0, h.1, subst_next (Leads-store next t v (next x) xs f.1 h.2))
  where
    subst_next : Leads (store next t v) (next x) xs → Leads (store next t v) (store next t v x) xs
    subst_next r = let e : store next t v x ≡ next x = ground arith in rw e r

-- A task that is not of the list is not its last one.
pub last_or-ne : (x y : ℕ) (l : List ℕ) → Fresh x (y ∷ l) → last_or y l ≢ x
last_or-ne x y [] f = f.0
last_or-ne x y (z ∷ l) f = last_or-ne x z l f.1

-- The task `t` behind the last one.
Leads-snoc :
    (next : Memory) (t p x : ℕ) (l : List ℕ)
    → t ≢ 0
    → Fresh t (x ∷ l)
    → Distinct (x ∷ l)
    → next t ≡ 0
    → Leads next p (x ∷ l)
    → Leads (store next (last_or x l) t) p (x ∷ l ++ t ∷ [])
Leads-snoc next t p x [] nz f d at h = (h.0, h.1, rw (store_self next x t) (refl, nz, ground arith))
Leads-snoc next t p x (y ∷ l) nz f d at h =
    (h.0, h.1, step (Leads-snoc next t (next x) y l nz f.1 d.1 at h.2))
  where
    step :
        Leads (store next (last_or y l) t) (next x) (y ∷ l ++ t ∷ [])
        → Leads (store next (last_or y l) t) (store next (last_or y l) t x) (y ∷ l ++ t ∷ [])
    step r = let e : store next (last_or y l) t x ≡ next x = differs in rw e r
      where
        differs : store next (last_or y l) t x ≡ next x
        differs = store_ne next (last_or y l) x t (last_or-ne x y l d.0)

-- The last task behind one more.
last_or-snoc : (d t : ℕ) (l : List ℕ) → last_or d (l ++ t ∷ []) ≡ t
last_or-snoc d t [] = refl
last_or-snoc d t (x ∷ l) = last_or-snoc x t l

Fresh-snoc : (x t : ℕ) (l : List ℕ) → Fresh x l → t ≢ x → Fresh x (l ++ t ∷ [])
Fresh-snoc x t [] f ne = (ne, tt)
Fresh-snoc x t (y ∷ l) f ne = (f.0, Fresh-snoc x t l f.1 ne)

Distinct-snoc : (t : ℕ) (l : List ℕ) → Distinct l → Fresh t l → Distinct (l ++ t ∷ [])
Distinct-snoc t [] d f = (tt, tt)
Distinct-snoc t (x ∷ l) d f = (Fresh-snoc x t l d.0 (λ e. f.0 (sym e)), Distinct-snoc t l d.1 f.1)

-- The state behind task_new when there are tasks already.
with_last : Tasks → ℕ → Tasks
with_last s t = record s {
  next = store (store s.next t 0) s.task_tail t;
  prev = store (store s.prev t 0) t s.task_tail;
  task_tail = t;
}

task_new-more : (s : Tasks) (t : ℕ) → s.task_head ≢ 0 → task_new s t ≡ with_last s t
unfolding task_new with_last
task_new-more s t nz = ground arith

with_last-IsList :
    (s : Tasks) (x : ℕ) (l : List ℕ) (t : ℕ)
    → IsList s (x ∷ l)
    → t ≢ 0
    → Fresh t (x ∷ l)
    → IsList (with_last s t) (x ∷ l ++ t ∷ [])
unfolding with_last
with_last-IsList s x l t h nz f =
    let r : Leads (store (store s.next t 0) s.task_tail t) s.task_head (x ∷ l ++ t ∷ []) =
      subst (λ z. Leads (store (store s.next t 0) z t) s.task_head (x ∷ l ++ t ∷ [])) (sym h.tail)
        (Leads-snoc (store s.next t 0) t s.task_head x l nz f h.distinct (store_self s.next t 0)
          (Leads-store s.next t 0 s.task_head (x ∷ l) f h.leads)) in
    record {
      leads = r;
      distinct = Distinct-snoc t (x ∷ l) h.distinct f;
      tail = sym (last_or-snoc x t l);
    }

-- A new task t, which is not NULL and not yet of the list l of the tasks, is put at the end of the
-- list: behind task_new the list is l ++ t ∷ [], and task_new makes t the current task when l is
-- empty and leaves the current task as it was otherwise.
pub task_new-IsList :
    (s : Tasks) (l : List ℕ) (t : ℕ)
    → IsList s l
    → t ≢ 0
    → Fresh t l
    → IsList (task_new s t) (l ++ t ∷ [])
      × ((task_new s t).current_task ≡ (if s.task_head == 0 then t else s.current_task))
unfolding task_new
task_new-IsList s [] t h nz f =
    let e : (s.task_head == 0) ≡ true = ground arith in
    rw e
      (record { leads = (refl, nz, store_self s.next t 0); distinct = (tt, tt); tail = refl }, refl)
task_new-IsList s (x ∷ l) t h nz f =
    let e : (s.task_head == 0) ≡ false = ground arith in
    (rw (task_new-more s t (ground arith)) (with_last-IsList s x l t h nz f), rw e refl)

-- One more turn, of the task c, before the others.
with_turn : ℕ → Option (List ℕ × Tasks) → Option (List ℕ × Tasks)
with_turn c none = none
with_turn c (some (l, s)) = some (c ∷ l, s)

-- The current tasks of n turns, and the state behind them.
pub turns : ℕ → Tasks → Option (List ℕ × Tasks)
turns zero s = some ([], s)
turns (suc n) s = elim (task_next s) [
  | none ↦ none
  | some s' ↦ with_turn s.current_task (turns n s')
]

-- One turn from a task that is not the last one.
task_next-more :
    (s : Tasks) (y : ℕ)
    → s.current_task ≢ 0
    → s.next s.current_task ≡ y
    → y ≢ 0
    → task_next s ≡ some (record s { current_task = y })
unfolding task_next task_switch task_get_next
task_next-more s y c e nz = ground arith

-- One turn from the last task.
task_next-last :
    (s : Tasks)
    → s.current_task ≢ 0
    → s.next s.current_task ≡ 0
    → s.task_head ≢ 0
    → task_next s ≡ some (record s { current_task = s.task_head })
unfolding task_next task_switch task_get_next
task_next-last s c e nz = ground arith

turns-step :
    (n : ℕ) (s s' : Tasks)
    → task_next s ≡ some s'
    → turns (suc n) s ≡ with_turn s.current_task (turns n s')
unfolding turns
turns-step n s s' e =
    ap (λ o. elim o [ none ↦ none | some r ↦ with_turn s.current_task (turns n r) ]) e

turns-suffix :
    (s : Tasks) (c : ℕ) (l : List ℕ)
    → Leads s.next s.current_task (c ∷ l)
    → s.task_head ≢ 0
    → turns (suc (length l)) s ≡ some (c ∷ l, record s { current_task = s.task_head })
unfolding turns with_turn
turns-suffix s c [] h nz =
    let s' : Tasks = record s { current_task = s.task_head } in
    turns-step 0 s s' (task_next-last s (ground arith) (ground arith) nz) ∙ ground (arith, h.0)
turns-suffix s c (y ∷ l) h nz =
    let s' : Tasks = record s { current_task = y } in
    let e : task_next s ≡ some s' = task_next-more s y (ground arith) (ground arith) h.2.1 in
    let r : turns (suc (length l)) s' ≡ some (y ∷ l, record s' { current_task = s.task_head }) =
      turns-suffix s' y l (refl, h.2.1, h.2.2) nz in
    turns-step (suc (length l)) s s' e ∙ rw r (ground (arith, h.0))

-- Round robin: when the list of the tasks is c ∷ l and the current task is its head, as many calls of
-- task_next as there are tasks succeed, let each task of the list run once in the order of the list,
-- and leave all as it was.
pub task_next-turns :
    (s : Tasks) (c : ℕ) (l : List ℕ)
    → IsList s (c ∷ l)
    → s.current_task ≡ s.task_head
    → turns (suc (length l)) s ≡ some (c ∷ l, s)
task_next-turns s c l is e =
    turns-suffix s c l (ground arith, is.leads.1, is.leads.2) (ground arith)
    ∙ ap (λ k. some (c ∷ l, record s { current_task = k })) (sym e)

-- The tasks of a state behind a call that returns, `none` for none.
abbrev pub Behind : Option Tasks → (Tasks → Type 0) → Type 0
Behind none p = ⊥
Behind (some s) p = p s

task_list_remove-other :
    (s : Tasks) (t : ℕ) → t ≢ s.current_task → task_list_remove s t ≡ some (unlink s t)
unfolding task_list_remove
task_list_remove-other s t ne =
    let other : (t == s.current_task) ≡ false = ground arith in rw (task_list_remove, other) refl

-- Removing the head: the head of the list stays the removed task, which the fields next still lead
-- from to the others; the statement of the source that should move the head is a comparison.
pub task_list_remove-head :
    (s : Tasks) (t : ℕ) (l : List ℕ)
    → IsList s (t ∷ l)
    → s.prev t ≡ 0
    → t ≢ s.current_task
    → Behind (task_list_remove s t) (λ s'. Leads s'.next s'.task_head (t ∷ l))
unfolding unlink
task_list_remove-head s t l is e ne =
    let kept : s.next ≡ (unlink s t).next = rw e refl in
    rw (task_list_remove-other s t ne)
      (subst (λ next. Leads next s.task_head (t ∷ l)) kept is.leads)
