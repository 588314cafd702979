-- ===== src/Memory/Tests.antt =====
-- Each theorem on the memory routines of memory/memory.c at one input.
use custom_os.Base.{◌%◌, ◌≡◌, Memory, if◌then◌else◌}
use custom_os.Memory.{memset}
use custom_os.Memory.Laws.{inside, memset_lem}

abbrev ramp : Memory
ramp j = j % 256

memset_lem_example : memset ramp 16 0x141 8 20 ≡ (if inside 16 8 20 then 0x141 % 256 else ramp 20)
memset_lem_example = memset_lem ramp 16 0x141 8 20
