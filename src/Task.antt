-- ===== src/Task.antt =====
-- The tasks of task/task.c: a doubly linked list of task structures, by their addresses (0 is NULL),
-- with a current task that the scheduler moves along it. Pages and registers of the tasks that the
-- list does not depend on are left out.
pub mod Ring
pub mod Removal
pub mod Save
mod Tests
use custom_os.Base.{
  ℕ, zero, suc, ◌+◌, ◌-◌, Bool, true, false, not, ◌&&◌, Option, none, some, List, [], ◌∷◌, Memory,
  store, ◌==◌, if◌then◌else◌,
}

-- The fields `next` and `prev` of the tasks, and the three variables of the file.
pub record Tasks : Type 0 where
  pub next : Memory
  pub prev : Memory
  pub task_head : ℕ
  pub task_tail : ℕ
  pub current_task : ℕ

-- `task_new` behind the allocation of the task `t`, whose fields kzalloc and task_init have cleared.
pub task_new : Tasks → ℕ → Tasks
task_new s t =
    let fresh = record s { next = store s.next t 0; prev = store s.prev t 0 } in
    if s.task_head == 0
    then record fresh { task_head = t; task_tail = t; current_task = t }
    else record fresh {
      next = store fresh.next s.task_tail t;
      prev = store fresh.prev t s.task_tail;
      task_tail = t;
    }

-- `none` is a read through a null current task.
pub task_get_next : Tasks → Option ℕ
task_get_next s =
    if s.current_task == 0
    then none
    else if s.next s.current_task == 0
    then some s.task_head
    else some (s.next s.current_task)

-- The removal in front of its search for a current task. The statement on the head of the list is a
-- comparison, and the `prev` of the following task is not written.
pub unlink : Tasks → ℕ → Tasks
unlink s t =
    let next' = if s.prev t == 0 then s.next else store s.next (s.prev t) (s.next t) in
    record s { next = next'; task_tail = if t == s.task_tail then s.prev t else s.task_tail }

pub task_list_remove : Tasks → ℕ → Option Tasks
unfolding unlink
task_list_remove s t =
    let trimmed = unlink s t in
    if not (t == s.current_task) then some trimmed else elim (task_get_next trimmed) [
      | none ↦ none
      | some n ↦ some (record trimmed { current_task = n })
    ]

-- What is left of `task_switch` on these variables; the page directory is that of the task.
pub task_switch : Tasks → ℕ → Tasks
task_switch s t = record s { current_task = t }

-- `task_next` up to its return to user land; `none` is the panic, or the read through NULL.
pub task_next : Tasks → Option Tasks
unfolding task_get_next task_switch
task_next s = elim (task_get_next s) [
  | none ↦ none
  | some n ↦ if n == 0 then none else some (task_switch s n)
]

-- `task_run_first_ever_task`; `none` is the panic.
pub task_run_first_ever_task : Tasks → Option Tasks
unfolding task_switch
task_run_first_ever_task s = if s.current_task == 0 then none else some (task_switch s s.task_head)
