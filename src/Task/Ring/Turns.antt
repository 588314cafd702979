-- ===== src/Task/Ring/Turns.antt =====
-- Runs of task_next of task/task.c, taken apart.
use custom_os.Base.{ℕ, suc, ◌≡◌, ◌≢◌, refl, Option, none, some, List, [], ◌∷◌, arith}
use custom_os.Task.{Tasks, task_get_next, task_next}
use custom_os.Task.Ring.{turns, with_turn}

-- A turn that succeeds has a current task.
pub task_next-current : (t t' : Tasks) → task_next t ≡ some t' → t.current_task ≢ 0
unfolding task_next task_get_next
task_next-current t t' e = ground arith

-- A run of no turns.
pub turns-zero : (t t' : Tasks) (l : List ℕ) → turns 0 t ≡ some (l, t') → (l ≡ []) × (t ≡ t')
unfolding turns
turns-zero t t' l e = ground arith

with_turn-some :
    (c : ℕ) (o : Option (List ℕ × Tasks)) (l : List ℕ) (t' : Tasks)
    → with_turn c o ≡ some (l, t')
    → (l1 : List ℕ) × (o ≡ some (l1, t')) × (l ≡ c ∷ l1)
unfolding with_turn
with_turn-some c none l t' e = cc
with_turn-some c (some (l1, t1)) l t' e = (l1, ground arith, ground arith)

-- The first of several turns.
pub turns-suc :
    (n : ℕ) (t t' : Tasks) (l : List ℕ)
    → turns (suc n) t ≡ some (l, t')
    → (t1 : Tasks) × (l1 : List ℕ) × (task_next t ≡ some t1)
      × (turns n t1 ≡ some (l1, t'))
      × (l ≡ t.current_task ∷ l1)
unfolding turns
turns-suc n t t' l e = go (task_next t) refl e
  where
    go :
        (o : Option Tasks)
        → task_next t ≡ o
        → (elim o [ none ↦ none | some s' ↦ with_turn t.current_task (turns n s') ]) ≡ some (l, t')
        → (t1 : Tasks) × (l1 : List ℕ) × (task_next t ≡ some t1)
          × (turns n t1 ≡ some (l1, t'))
          × (l ≡ t.current_task ∷ l1)
    go none h r = cc
    go (some t1) h r =
        let (l1, more, eq) = with_turn-some t.current_task (turns n t1) l t' r in
        (t1, l1, h, more, eq)
