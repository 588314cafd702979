-- ===== src/Task/Removal.antt =====
-- Taking a task that is not the first one out of the list of task/task.c.
use mathlib.Core.Path.{subst}
use custom_os.Base.{
  ℕ, ◌≡◌, ◌≢◌, refl, sym, ◌∙◌, true, false, not, some, none, List, [], ◌∷◌, ◌++◌, Memory, store,
  ◌==◌, if◌then◌else◌, arith, store_self, store_ne, inl, inr, Bool-cases,
}
use custom_os.Task.{Tasks, unlink, task_get_next, task_list_remove}
use custom_os.Task.Ring.{Leads, Fresh, Distinct, last_or, IsList, Leads-store, last_or-ne, Behind}

Fresh-middle : (a : ℕ) (xs : List ℕ) (p : ℕ) (r : List ℕ) → Fresh a (xs ++ p ∷ r) → p ≢ a
Fresh-middle a [] p r f = f.0
Fresh-middle a (x ∷ xs) p r f = Fresh-middle a xs p r f.1

Fresh-drop :
    (a : ℕ) (xs : List ℕ) (p t : ℕ) (ys : List ℕ)
    → Fresh a (xs ++ p ∷ t ∷ ys)
    → Fresh a (xs ++ p ∷ ys)
Fresh-drop a [] p t ys f = (f.0, f.1.1)
Fresh-drop a (x ∷ xs) p t ys f = (f.0, Fresh-drop a xs p t ys f.1)

Distinct-drop :
    (xs : List ℕ) (p t : ℕ) (ys : List ℕ) → Distinct (xs ++ p ∷ t ∷ ys) → Distinct (xs ++ p ∷ ys)
Distinct-drop [] p t ys d = (d.0.1, d.1.1)
Distinct-drop (x ∷ xs) p t ys d = (Fresh-drop x xs p t ys d.0, Distinct-drop xs p t ys d.1)

Distinct-rest : (xs : List ℕ) (p t : ℕ) (ys : List ℕ) → Distinct (xs ++ p ∷ t ∷ ys) → Fresh t ys
Distinct-rest [] p t ys d = d.1.0
Distinct-rest (x ∷ xs) p t ys d = Distinct-rest xs p t ys d.1

-- The way through the list, with the task `t` passed over.
Leads-unlink :
    (next : Memory) (xs : List ℕ) (h p t : ℕ) (ys : List ℕ)
    → Distinct (xs ++ p ∷ t ∷ ys)
    → Leads next h (xs ++ p ∷ t ∷ ys)
    → Leads (store next p (next t)) h (xs ++ p ∷ ys)
Leads-unlink next [] h p t ys d l =
    let (from, nz, (to, nz', rest)) = l in
    (
      from,
      nz,
      subst (λ q. Leads (store next p (next t)) q ys) (sym (store_self next p (next t)))
          (Leads-store next p (next t) (next t) ys d.0.1 rest),
    )
Leads-unlink next (x ∷ xs) h p t ys d l =
    let other : p ≢ x = Fresh-middle x xs p (t ∷ ys) d.0 in
    (
      l.0,
      l.1,
      subst (λ q. Leads (store next p (next t)) q (xs ++ p ∷ ys))
          (sym (store_ne next p x (next t) other)) (Leads-unlink next xs (next x) p t ys d.1 l.2),
    )

last_or-append : (d p : ℕ) (xs l : List ℕ) → last_or d (xs ++ p ∷ l) ≡ last_or p l
last_or-append d p [] l = refl
last_or-append d p (x ∷ xs) l = last_or-append x p xs l

last_or-unlink :
    (tail p t : ℕ) (xs ys : List ℕ)
    → Fresh t ys
    → tail ≡ last_or 0 (xs ++ p ∷ t ∷ ys)
    → (if t == tail then p else tail) ≡ last_or 0 (xs ++ p ∷ ys)
last_or-unlink tail p t xs [] f e =
    let last : tail ≡ t = e ∙ last_or-append 0 p xs (t ∷ []) in
    let same : (t == tail) ≡ true = ground (arith, last) in rw same (sym (last_or-append 0 p xs []))
last_or-unlink tail p t xs (y ∷ ys) f e =
    let last : tail ≡ last_or y ys = e ∙ last_or-append 0 p xs (t ∷ y ∷ ys) in
    let other : (t == tail) ≡ false = ground (arith, last, last_or-ne t y ys f) in
    rw other (last ∙ sym (last_or-append 0 p xs (y ∷ ys)))

Leads-nonzero :
    (next : Memory) (xs : List ℕ) (h p t : ℕ) (r : List ℕ)
    → Leads next h (xs ++ p ∷ t ∷ r)
    → (p ≢ 0) × (t ≢ 0)
Leads-nonzero next [] h p t r l = (l.1, l.2.1)
Leads-nonzero next (x ∷ xs) h p t r l = Leads-nonzero next xs (next x) p t r l.2

-- The next task becomes the current one.
task_get_next-IsList :
    (u : Tasks) (l : List ℕ)
    → u.current_task ≢ 0
    → IsList u l
    → Behind
        (elim (task_get_next u) [ none ↦ none | some n ↦ some (record u { current_task = n }) ])
        (λ s'. IsList s' l)
unfolding task_get_next
task_get_next-IsList u l nz is =
    let live : (u.current_task == 0) ≡ false = ground arith in
    let kept : (n : ℕ) → IsList (record u { current_task = n }) l =
      λ n. record { leads = is.leads; distinct = is.distinct; tail = is.tail } in
    elim (Bool-cases (u.next u.current_task == 0)) [
      | inl last ↦ rw (task_get_next, live, last) (kept u.task_head)
      | inr more ↦ rw (task_get_next, live, more) (kept (u.next u.current_task))
    ]

task_list_remove-eq :
    (s : Tasks) (t : ℕ)
    → task_list_remove s t ≡ (
        if not (t == s.current_task) then some (unlink s t) else elim (task_get_next (unlink s t)) [
          | none ↦ none
          | some n ↦ some (record (unlink s t) { current_task = n })
        ])
unfolding task_list_remove
task_list_remove-eq s t = refl

-- For a task `t` of the list that has the task `p` in front of it, as its field prev says,
-- task_list_remove succeeds and leaves the list without `t`, also where `t` is the last or the current
-- task.
pub task_list_remove-IsList :
    (s : Tasks) (xs : List ℕ) (p t : ℕ) (ys : List ℕ)
    → IsList s (xs ++ p ∷ t ∷ ys)
    → s.prev t ≡ p
    → Behind (task_list_remove s t) (λ s'. IsList s' (xs ++ p ∷ ys))
unfolding unlink
task_list_remove-IsList s xs p t ys is at =
    let (nz, nz') = Leads-nonzero s.next xs s.task_head p t ys is.leads in
    let linked : (p == 0) ≡ false = ground arith in
    let rest : IsList (unlink s t) (xs ++ p ∷ ys) = record {
      leads = rw (at, linked) (Leads-unlink s.next xs s.task_head p t ys is.distinct is.leads);
      distinct = Distinct-drop xs p t ys is.distinct;
      tail =
          rw at
            (last_or-unlink s.task_tail p t xs ys (Distinct-rest xs p t ys is.distinct) is.tail);
    } in
    rw (task_list_remove-eq s t) (elim (Bool-cases (t == s.current_task)) [
      | inl current ↦
          rw current (task_get_next-IsList (unlink s t) (xs ++ p ∷ ys) (ground arith) rest)
      | inr other ↦ rw other rest
    ])
