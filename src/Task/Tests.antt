-- ===== src/Task/Tests.antt =====
-- Each theorem on the list of tasks of task/task.c at one input.
use custom_os.Base.{◌≡◌, refl, [], ◌∷◌, some, ◌==◌, if◌then◌else◌, arith}
use custom_os.Task.{Tasks, task_new, task_list_remove, task_run_first_ever_task}
use custom_os.Task.Removal.{task_list_remove-IsList}
use custom_os.Task.Save.{Registers, InterruptFrame}
use custom_os.Task.Ring.{
  IsList, Leads, Behind, turns, task_new-IsList, task_next-turns, task_list_remove-head,
}

-- Two tasks, the first of them current.
abbrev two : Tasks
two = record {
  next = λ t. if t == 100 then 200 else 0;
  prev = λ t. if t == 200 then 100 else 0;
  task_head = 100;
  task_tail = 200;
  current_task = 100;
}

two-IsList : IsList two (100 ∷ 200 ∷ [])
two-IsList = record {
  leads = (refl, omega arith, (refl, omega arith, refl));
  distinct = ((omega arith, tt), (tt, tt));
  tail = refl;
}

task_new-IsList_example :
    IsList (task_new two 300) (100 ∷ 200 ∷ 300 ∷ [])
    × ((task_new two 300).current_task ≡ (if two.task_head == 0 then 300 else two.current_task))
task_new-IsList_example =
    task_new-IsList two (100 ∷ 200 ∷ []) 300 two-IsList (omega arith)
      (omega arith, (omega arith, tt))

task_next-turns_example : turns 2 two ≡ some (100 ∷ 200 ∷ [], two)
task_next-turns_example = task_next-turns two 100 (200 ∷ []) two-IsList refl

abbrev second_runs : Tasks
second_runs = record two { current_task = 200 }

second_runs-IsList : IsList second_runs (100 ∷ 200 ∷ [])
second_runs-IsList = record {
  leads = (refl, omega arith, (refl, omega arith, refl));
  distinct = ((omega arith, tt), (tt, tt));
  tail = refl;
}

task_list_remove-head_example :
    Behind (task_list_remove second_runs 100) (λ s'. Leads s'.next s'.task_head (100 ∷ 200 ∷ []))
task_list_remove-head_example =
    task_list_remove-head second_runs 100 (200 ∷ []) second_runs-IsList refl (omega arith)

first-run : task_run_first_ever_task second_runs ≡ some two
unfolding task_run_first_ever_task
first-run = refl

abbrev frame : InterruptFrame
frame = record {
  edi = 1;
  esi = 2;
  ebp = 3;
  reserved = 4;
  ebx = 5;
  edx = 6;
  ecx = 7;
  eax = 8;
  ip = 0x400010;
  cs = 0x1b;
  flags = 0x202;
  esp = 0x3FEFF0;
  ss = 0x23;
}

abbrev start : Registers
start = record {
  edi = 0;
  esi = 0;
  ebp = 0;
  ebx = 0;
  edx = 0;
  ecx = 0;
  eax = 0;
  ip = 0x400000;
  cs = 0x1b;
  flags = 0;
  esp = 0x3FF000;
  ss = 0x23;
}

task_list_remove-IsList_example :
    Behind (task_list_remove (record two { current_task = 200 }) 200) (λ s. IsList s (100 ∷ []))
task_list_remove-IsList_example =
    task_list_remove-IsList (record two { current_task = 200 }) [] 100 200 []
      (record {
        leads = (refl, ground arith, (refl, ground arith, refl));
        distinct = ((ground arith, tt), (tt, tt));
        tail = refl;
      })
      refl
