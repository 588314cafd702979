-- ===== src/Process/Arguments/Tests.antt =====
-- The theorem on the arguments of a process at two arguments.
use custom_os.Base.{ℕ, ◌+◌, ◌*◌, ◌<◌, ◌≤◌, ◌≡◌, refl, arith, List, [], ◌∷◌, some, ok}
use custom_os.Elf.{u32_at}
use custom_os.Heap.{heap_align_value_to_upper}
use custom_os.Heap.Filling.{Room}
use custom_os.Process.{World}
use custom_os.Process.Arguments.{process_inject_arguments}
use custom_os.Process.Arguments.Injected.{process_inject_arguments_lem}

-- A process without allocations, on an empty pool of eight blocks.
abbrev idle : World
idle = record {
  kernel = record {
    heap = record { table = record { entries = λ j. 0; total = 8 }; saddr = 0x1000000 };
    memory = λ a. 7;
  };
  pages = λ a. 0;
  process = record { ptr = λ i. 0; size = λ i. 0; page_directory = 0 };
}

idle-Room : Room idle.kernel 0
idle-Room = record {
  filled = record {
    low = omega arith;
    taken = λ j lt. absurd (omega arith);
    free = λ j lo hi. refl;
  };
  aligned = refl;
  somewhere = omega arith;
}

-- "ab" and the empty string.
abbrev arguments : List (List ℕ)
arguments = (97 ∷ 98 ∷ 0 ∷ []) ∷ (0 ∷ []) ∷ []

process_inject_arguments_lem_example :
    (w' : World) × (argv : ℕ) × (process_inject_arguments idle arguments ≡ some (ok (2, argv), w'))
    × (w'.process.ptr 0 ≡ argv)
    × ((j : ℕ) → j < 2 → u32_at w'.kernel.memory (argv + 4 * j) ≡ w'.process.ptr (1 + j))
    × ((j o : ℕ) → j < 2 → o < 512 → (w'.kernel).memory (w'.process.ptr (1 + j) + o) ≡ 0)
    × ((i j : ℕ) → i < 2 → j < i → w'.process.ptr (1 + j) + 512 ≤ w'.process.ptr (1 + i))
unfolding heap_align_value_to_upper
process_inject_arguments_lem_example =
    process_inject_arguments_lem idle arguments 0 idle-Room (λ j. refl) (omega arith) (omega arith)
      (omega arith) ((97 ∷ 98 ∷ [], [], omega arith, refl), (([], [], tt, refl), tt))
