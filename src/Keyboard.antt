-- ===== src/Keyboard.antt =====
-- The keyboards' buffers of keyboard/keyboard.c: a ring of 1024 bytes in each process, with `tail`
-- and `head` as the bit patterns of the two `int` counters.
pub mod Ring
pub mod Classic
mod Tests
use custom_os.Base.{
  ℕ, zero, suc, ◌+◌, ◌-◌, ◌%◌, ◌^◌, Bool, true, false, Option, none, some, Memory, store, ◌==◌,
  if◌then◌else◌, Result, ok, err, einvarg,
}

-- `struct keyboard_buffer`
pub record Buffer : Type 0 where
  pub buffer : Memory
  pub tail : ℕ
  pub head : ℕ

abbrev pub buffer_size : ℕ
buffer_size = 1024

abbrev pub int_mod : ℕ
int_mod = 2 ^ 32

abbrev pub keyboard_get_tail_index : Buffer → ℕ
keyboard_get_tail_index process = process.tail % buffer_size

pub keyboard_backspace : Buffer → Buffer
keyboard_backspace process =
    let back = record process { tail = (process.tail + int_mod - 1) % int_mod } in
    record back { buffer = store process.buffer (keyboard_get_tail_index back) 0 }

-- The part of `keyboard_push` behind its guards.
pub push : Buffer → ℕ → Buffer
push process c = record process {
  buffer = store process.buffer (keyboard_get_tail_index process) c;
  tail = (process.tail + 1) % int_mod;
}

-- The part of `keyboard_pop` behind its guard: the byte, 0 where there is none.
pub pop : Buffer → ℕ × Buffer
pop process =
    let real_index = process.head % buffer_size in
    let c = process.buffer real_index in
    if c == 0 then (0, process) else (
      c,
      record process {
        buffer = store process.buffer real_index 0;
        head = (process.head + 1) % int_mod;
      },
    )

-- What the keyboard code sees of the processes: their buffers, the current process, and the process
-- of the current task (0 is no process).
pub record Input : Type 0 where
  pub buffers : ℕ → Buffer
  pub current_process : ℕ
  pub task_process : ℕ

abbrev pub set_buffer : Input → ℕ → Buffer → Input
set_buffer s p b = record s { buffers = λ q. if p == q then b else s.buffers q }

pub keyboard_push : Input → ℕ → Input
unfolding push
keyboard_push s c =
    if s.current_process == 0
    then s
    else if c == 0
    then s
    else set_buffer s s.current_process (push (s.buffers s.current_process) c)

pub keyboard_pop : Input → ℕ × Input
unfolding pop
keyboard_pop s =
    if s.task_process == 0
    then (0, s)
    else let (c, b) = pop (s.buffers s.task_process) in (c, set_buffer s s.task_process b)

-- The list of keyboards: by the address of each, its `init`, its `next` and its lock.
pub record Keyboards : Type 0 where
  pub init : Memory
  pub next : Memory
  pub capslock_state : Memory
  pub list_head : ℕ
  pub list_last : ℕ

-- The result is the value of the field `init`: the function is not called.
pub keyboard_insert : Keyboards → ℕ → Result ℕ × Keyboards
keyboard_insert k keyboard = if k.init keyboard == 0 then (err einvarg, k) else (
  ok (k.init keyboard),
  if k.list_last == 0
      then record k { list_head = keyboard; list_last = keyboard }
      else record k { next = store k.next k.list_last keyboard; list_last = keyboard },
)

pub keyboard_set_capslock : Keyboards → ℕ → ℕ → Keyboards
keyboard_set_capslock k keyboard state = record k {
  capslock_state = store k.capslock_state keyboard state;
}

pub keyboard_get_capslock : Keyboards → ℕ → ℕ
keyboard_get_capslock k keyboard = k.capslock_state keyboard
