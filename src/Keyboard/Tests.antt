-- ===== src/Keyboard/Tests.antt =====
-- Runs of keyboard/keyboard.c and keyboard/classic.c, and each theorem on them at one input.
use custom_os.Base.{
  ℕ, ◌+◌, ◌<◌, ◌≡◌, ◌%◌, refl, List, [], ◌∷◌, ◌++◌, store, some, get_or, ok, arith, zero, suc,
}
use custom_os.Keyboard.{
  Buffer, Input, Keyboards, push, pop, keyboard_backspace, keyboard_push, keyboard_pop,
  keyboard_insert, keyboard_set_capslock, keyboard_get_capslock,
}
use custom_os.Keyboard.Ring.{
  Holds, Call, put, get, run, run_queue, run-queue, keyboard_backspace-empty,
}
use custom_os.Keyboard.Classic.{
  Machine, kernel, task, classic_keyboard_scancode_to_char, classic_keyboard_handle_interrupt,
  handle_interrupt-press, handle_interrupt-release, handle_interrupt-capslock, scancode_to_char-eq,
  scancode_to_char-tolower, capslock_on, capslock_off,
}
use custom_os.Text.{tolower}

-- A buffer whose counters are about to wrap.
abbrev empty : Buffer
empty = record { buffer = λ j. 0; tail = 0xFFFFFFFF; head = 0xFFFFFFFF }

empty-Holds : Holds empty []
empty-Holds = record { fits = omega arith; head = omega arith; tail = refl; cells = λ j lt. refl }

abbrev calls : List Call
calls = put 65 ∷ put 66 ∷ get ∷ get ∷ get ∷ []

run-queue_example : run empty calls ≡ run_queue [] calls
run-queue_example =
    run-queue calls empty [] empty-Holds tt
      (omega arith, omega arith, (omega arith, omega arith, tt))

run_queue-calls : run_queue [] calls ≡ 65 ∷ 66 ∷ 0 ∷ []
unfolding run_queue
run_queue-calls = refl

abbrev one : Buffer
one = record { buffer = store (λ j. 0) 5 65; tail = 6; head = 5 }

one-Holds : Holds one ([] ++ 65 ∷ [])
one-Holds = record { fits = omega arith; head = omega arith; tail = refl; cells = one_cells }
  where
    one_cells : (j : ℕ) → j < 1024 → one.buffer ((5 + j) % 1024) ≡ get_or (65 ∷ []) j 0
    one_cells zero lt = refl
    one_cells (suc j) lt = ground arith

keyboard_backspace-empty_example : (pop (push (keyboard_backspace empty) 65)).0 ≡ 0
keyboard_backspace-empty_example = keyboard_backspace-empty empty 65 empty-Holds

abbrev input : Input
input = record { buffers = λ p. empty; current_process = 7; task_process = 7 }

abbrev machine : Machine
machine = record { capslock = 0; input = input; page = task }

letter-q : classic_keyboard_scancode_to_char 0 16 ≡ some b'q'
unfolding tolower
letter-q = scancode_to_char-eq 0 16 b'Q' refl refl

handle_interrupt-press_example :
    (m' : Machine) × (classic_keyboard_handle_interrupt machine 16 ≡ some m')
    × Holds (m'.input.buffers 7) ([] ++ b'q' ∷ [])
    × (m'.capslock ≡ 0)
    × (m'.page ≡ task)
handle_interrupt-press_example =
    handle_interrupt-press machine 16 b'q' [] (omega arith) (omega arith) letter-q (omega arith)
      (omega arith) empty-Holds (omega arith)

handle_interrupt-capslock_example :
    classic_keyboard_handle_interrupt machine 0x3A
    ≡ some (record machine { capslock = 1; page = task })
handle_interrupt-capslock_example = handle_interrupt-capslock machine

handle_interrupt-release_example :
    classic_keyboard_handle_interrupt machine 0x90 ≡ some (record machine { page = kernel })
handle_interrupt-release_example = handle_interrupt-release machine 0x90 refl

scancode_to_char-tolower_example :
    (c : ℕ) × (classic_keyboard_scancode_to_char capslock_on 16 ≡ some c)
    × (classic_keyboard_scancode_to_char capslock_off 16 ≡ some (tolower c))
scancode_to_char-tolower_example = scancode_to_char-tolower 16 (omega arith)

pop-pushed : (keyboard_pop (keyboard_push input 65)).0 ≡ 65
unfolding keyboard_pop keyboard_push
pop-pushed = refl

abbrev keyboards : Keyboards
keyboards = record {
  init = λ k. 500;
  next = λ k. 0;
  capslock_state = λ k. 0;
  list_head = 0;
  list_last = 0;
}

insert-result : (keyboard_insert keyboards 9).0 ≡ ok 500
unfolding keyboard_insert
insert-result = refl

lock-set : keyboard_get_capslock (keyboard_set_capslock keyboards 9 1) 9 ≡ 1
unfolding keyboard_get_capslock keyboard_set_capslock
lock-set = refl
