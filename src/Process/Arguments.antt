-- ===== src/Process/Arguments.antt =====
-- The arguments of a process, of task/process.c: process_inject_arguments on a list of the 512-byte arrays
-- of the command's arguments, and process_get_arguments.
pub mod Entries
pub mod Round
pub mod Rounds
pub mod Injected
mod Tests
use custom_os.Base.{
  ℕ, zero, suc, ◌+◌, ◌*◌, ◌/◌, ◌%◌, ◌^◌, ◌==◌, if◌then◌else◌, List, [], ◌∷◌, replicate, true, false,
  Memory, store, Option, none, some, Result, ok, err, eio, enomem,
}
use custom_os.Memory.{write_bytes}
use custom_os.Process.{World, process_malloc, process_count_command_arguments}
use custom_os.Process.System.{ProcessData}
use custom_os.Text.{strncpy}

-- The `n` bytes from `a` on.
pub read_bytes : Memory → ℕ → ℕ → List ℕ
read_bytes m a zero = []
read_bytes m a (suc n) = m a ∷ read_bytes m (a + 1) n

-- A pointer, in four bytes.
abbrev pub write_pointer : Memory → ℕ → ℕ → Memory
write_pointer m a p =
    store
      (store (store (store m a (p % 2 ^ 8)) (a + 1) (p / 2 ^ 8 % 2 ^ 8)) (a + 2)
        (p / 2 ^ 16 % 2 ^ 8))
      (a + 3) (p / 2 ^ 24 % 2 ^ 8)

abbrev pub with_bytes : World → Memory → World
with_bytes w m = record w { kernel = record (w.kernel) { memory = m } }

abbrev pub argument_size : ℕ
argument_size = 512

-- The body of the loop for the argument `i`, behind the allocation of `argument_str`: strncpy is given
-- the bytes that are in memory there, and what it makes of them goes back.
pub inject_one : World → ℕ → ℕ → ℕ → List ℕ → Option World
unfolding write_bytes read_bytes
inject_one w argv i argument_str argument =
    let dest = read_bytes w.kernel.memory argument_str argument_size in
    elim (strncpy dest argument argument_size) [
      | none ↦ none
      | some bytes ↦ some (
          with_bytes w (
            write_pointer (write_bytes w.kernel.memory argument_str bytes) (argv + 4 * i)
              argument_str))
    ]

-- The loop, from argument `i` on. What has been allocated before an error stays allocated.
pub inject_from : World → ℕ → ℕ → List (List ℕ) → Option (Result (Unit {0}) × World)
inject_from w argv i [] = some (ok tt, w)
inject_from w argv i (argument ∷ next) = elim (process_malloc w argument_size) [
  | none ↦ none
  | some (argument_str, w1) ↦ elim (argument_str == 0) [
    | true ↦ some (err enomem, w1)
    | false ↦ elim (inject_one w1 argv i argument_str argument) [
      | none ↦ none
      | some w2 ↦ inject_from w2 argv (i + 1) next
    ]
  ]
]

-- The process keeps `argc` and `argv`, which are the result.
pub process_inject_arguments : World → List (List ℕ) → Option (Result (ℕ × ℕ) × World)
process_inject_arguments w root_argument =
    let argc = process_count_command_arguments root_argument in
    if argc == 0 then some (err eio, w) else elim (process_malloc w (4 * argc)) [
      | none ↦ none
      | some (argv, w1) ↦
          if argv == 0 then some (err enomem, w1) else elim (inject_from w1 argv 0 root_argument) [
            | none ↦ none
            | some (res, w2) ↦ elim res [
              | err e ↦ some (err e, w2)
              | ok _ ↦ some (ok (argc, argv), w2)
            ]
          ]
    ]

pub process_get_arguments : ProcessData → ℕ × ℕ
process_get_arguments process = (process.argc, process.argv)
