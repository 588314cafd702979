-- ===== src/Idt.antt =====
-- The interrupt descriptors and the tables of handlers of idt/idt.c, and the registration of the
-- kernel's commands by isr80h/isr80h.c. A handler is given by its address, 0 for none.
pub mod Tables
mod Tests
use custom_os.Base.{
  ℕ, zero, suc, ◌+◌, ◌/◌, ◌%◌, ◌^◌, not, Memory, store, leb, ltb, ◌==◌, if◌then◌else◌, Option, none,
  some, Result, ok, err, einvarg, List, [], ◌∷◌,
}
use custom_os.Base.Int.{ℤ, pos, negsuc}

-- `struct idt_desc`
pub record IdtDesc : Type 0 where
  pub offset_1 : ℕ
  pub selector : ℕ
  pub zero_byte : ℕ
  pub type_attr : ℕ
  pub offset_2 : ℕ

-- The variables of the file.
pub record Idt : Type 0 where
  pub idt_descriptors : ℕ → IdtDesc
  pub interrupt_callbacks : Memory
  pub isr80h_commands : Memory

abbrev pub total_interrupts : ℕ
total_interrupts = 512

abbrev pub max_isr80h_commands : ℕ
max_isr80h_commands = 1024

abbrev pub kernel_code_selector : ℕ
kernel_code_selector = 0x08

pub idt_set : Idt → ℕ → ℕ → Idt
idt_set s interrupt_no address =
    let desc : IdtDesc = record {
      offset_1 = address % 2 ^ 16;
      selector = kernel_code_selector;
      zero_byte = 0;
      type_attr = 0xEE;
      offset_2 = address / 2 ^ 16;
    } in
    record s { idt_descriptors = λ i. if i == interrupt_no then desc else s.idt_descriptors i }

pub idt_register_interrupt_callback : Idt → ℤ → ℕ → Result (Unit {0}) × Idt
idt_register_interrupt_callback s (negsuc n) callback = (err einvarg, s)
idt_register_interrupt_callback s (pos interrupt) callback =
    if leb total_interrupts interrupt
    then (err einvarg, s)
    else (ok tt, record s { interrupt_callbacks = store s.interrupt_callbacks interrupt callback })

-- `none` is one of the two panics.
pub isr80h_register_command : Idt → ℤ → ℕ → Option Idt
isr80h_register_command s (negsuc n) command = none
isr80h_register_command s (pos command_id) command =
    if leb max_isr80h_commands command_id
    then none
    else if not (s.isr80h_commands command_id == 0)
    then none
    else some (record s { isr80h_commands = store s.isr80h_commands command_id command })

-- `call` runs the command at an address on the rest of the machine.
pub isr80h_handler_command {ℓ} : {S : Type ℓ} → (ℕ → S → ℕ × S) → Idt → ℤ → S → ℕ × S
isr80h_handler_command call s (negsuc n) rest = (0, rest)
isr80h_handler_command call s (pos command) rest =
    if leb max_isr80h_commands command
    then (0, rest)
    else let command_func = s.isr80h_commands command in
      if command_func == 0 then (0, rest) else call command_func rest

-- The first loop of `idt_init`, over the table of idt.asm, from interrupt `i`.
pub set_all : Idt → Memory → ℕ → ℕ → Idt
set_all s table zero i = s
set_all s table (suc rounds) i = set_all (idt_set s i (table i)) table rounds (i + 1)

-- The second loop, over the exceptions.
pub register_exceptions : Idt → ℕ → ℕ → ℕ → Idt
register_exceptions s handler zero i = s
register_exceptions s handler (suc rounds) i =
    register_exceptions (idt_register_interrupt_callback s (pos i) handler).1 handler rounds (i + 1)

-- The addresses that `idt_init` names, and those that idt.asm exports.
pub record Handlers : Type 0 where
  pub interrupt_pointer_table : Memory
  pub idt_zero : ℕ
  pub isr80h_wrapper : ℕ
  pub idt_handler_exception : ℕ
  pub idt_clock : ℕ

abbrev pub no_desc : IdtDesc
no_desc = record { offset_1 = 0; selector = 0; zero_byte = 0; type_attr = 0; offset_2 = 0 }

-- `idt_init` up to the instruction that loads the table.
pub idt_init : Idt → Handlers → Idt
idt_init s h =
    let cleared = record s { idt_descriptors = λ i. no_desc } in
    let mapped = set_all cleared h.interrupt_pointer_table total_interrupts 0 in
    let zeroed = idt_set mapped 0 h.idt_zero in
    let wrapped = idt_set zeroed 0x80 h.isr80h_wrapper in
    let guarded = register_exceptions wrapped h.idt_handler_exception 0x20 0 in
    (idt_register_interrupt_callback guarded (pos 0x20) h.idt_clock).1

-- `isr80h_register_commands`: the commands, in the order of their numbers, from number `i`.
pub isr80h_register_commands : Idt → ℕ → List ℕ → Option Idt
isr80h_register_commands s i [] = some s
isr80h_register_commands s i (command ∷ commands) =
    elim (isr80h_register_command s (pos i) command) [
      | none ↦ none
      | some s' ↦ isr80h_register_commands s' (i + 1) commands
    ]
