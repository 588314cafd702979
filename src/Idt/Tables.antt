-- ===== src/Idt/Tables.antt =====
-- What idt_init leaves in the tables of idt/idt.c, and the commands that are called.
use custom_os.Base.{
  ℕ, zero, suc, ◌+◌, ◌*◌, ◌^◌, ◌<◌, ◌≤◌, ◌≡◌, ◌≢◌, ◌⊎◌, refl, false, Memory, store, leb, ltb, ◌==◌,
  if◌then◌else◌, arith, none, some, Bool-cases, inl, inr, ◌∙◌,
}
use custom_os.Base.Int.{pos, negsuc}
use custom_os.Idt.{
  Idt, IdtDesc, Handlers, idt_set, idt_register_interrupt_callback, isr80h_register_command,
  isr80h_handler_command, set_all, register_exceptions, idt_init, no_desc,
}
use custom_os.Memory.Laws.{inside}

-- The address that the processor reads from a descriptor.
abbrev pub address_of : IdtDesc → ℕ
address_of d = d.offset_1 + d.offset_2 * 2 ^ 16

set_all_lem :
    (s : Idt) (table : Memory) (rounds i j : ℕ)
    → address_of ((set_all s table rounds i).idt_descriptors j)
      ≡ (if inside i rounds j then table j else address_of (s.idt_descriptors j))
unfolding set_all idt_set
set_all_lem s table zero i j = ground arith
set_all_lem s table (suc rounds) i j =
    ground (arith, set_all_lem (idt_set s i (table i)) table rounds (i + 1) j)

register_exceptions_lem :
    (s : Idt) (handler rounds i j : ℕ)
    → i + rounds ≤ 512
    → (register_exceptions s handler rounds i).interrupt_callbacks j
      ≡ (if inside i rounds j then handler else s.interrupt_callbacks j)
unfolding register_exceptions idt_register_interrupt_callback
register_exceptions_lem s handler zero i j fits = ground arith
register_exceptions_lem s handler (suc rounds) i j fits = ground (
  arith,
  register_exceptions_lem (idt_register_interrupt_callback s (pos i) handler).1 handler rounds
      (i + 1) j,
)

register_exceptions-descriptors :
    (s : Idt) (handler rounds i : ℕ)
    → (register_exceptions s handler rounds i).idt_descriptors ≡ s.idt_descriptors
unfolding register_exceptions idt_register_interrupt_callback
register_exceptions-descriptors s handler zero i = refl
register_exceptions-descriptors s handler (suc rounds) i = ground (
  arith,
  register_exceptions-descriptors (idt_register_interrupt_callback s (pos i) handler).1 handler
      rounds (i + 1),
)

set_all-callbacks :
    (s : Idt) (table : Memory) (rounds i : ℕ)
    → (set_all s table rounds i).interrupt_callbacks ≡ s.interrupt_callbacks
unfolding set_all idt_set
set_all-callbacks s table zero i = refl
set_all-callbacks s table (suc rounds) i =
    set_all-callbacks (idt_set s i (table i)) table rounds (i + 1)

idt_set_at :
    (s : Idt) (i a j : ℕ)
    → (address_of ((idt_set s i a).idt_descriptors j)
        ≡ (if j == i then a else address_of (s.idt_descriptors j)))
      × ((idt_set s i a).interrupt_callbacks ≡ s.interrupt_callbacks)
unfolding idt_set
idt_set_at s i a j = (ground arith, refl)

register_at :
    (s : Idt) (i f j : ℕ)
    → i < 512
    → ((idt_register_interrupt_callback s (pos i) f).1.interrupt_callbacks j
        ≡ (if j == i then f else s.interrupt_callbacks j))
      × ((idt_register_interrupt_callback s (pos i) f).1.idt_descriptors ≡ s.idt_descriptors)
unfolding idt_register_interrupt_callback
register_at s i f j lt = (ground arith, ground arith)

-- After idt_init the processor reads from the descriptor of each interrupt below 512 the address that
-- the table of idt.asm has for it, but for interrupt 0 that of idt_zero and for interrupt 0x80 that of
-- isr80h_wrapper. The callback of each of the first 32 interrupts is the handler of exceptions, that
-- of interrupt 0x20 the clock's, and every other stays as it was.
pub idt_init_lem :
    (s : Idt) (h : Handlers) (j : ℕ)
    → j < 512
    → (address_of ((idt_init s h).idt_descriptors j) ≡ (
        if j == 0x80
        then h.isr80h_wrapper
        else if j == 0
        then h.idt_zero
        else h.interrupt_pointer_table j))
      × ((idt_init s h).interrupt_callbacks j ≡ (
          if j == 0x20
          then h.idt_clock
          else if ltb j 0x20
          then h.idt_handler_exception
          else s.interrupt_callbacks j))
unfolding idt_init
idt_init_lem s h j lt =
    let cleared : Idt = record s { idt_descriptors = λ i. no_desc } in
    let mapped = set_all cleared h.interrupt_pointer_table 512 0 in
    let wrapped = idt_set (idt_set mapped 0 h.idt_zero) 0x80 h.isr80h_wrapper in
    let guarded = register_exceptions wrapped h.idt_handler_exception 32 0 in
    let at = set_all_lem cleared h.interrupt_pointer_table 512 0 j in
    let zeroed_at = idt_set_at mapped 0 h.idt_zero j in
    let wrapped_at = idt_set_at (idt_set mapped 0 h.idt_zero) 0x80 h.isr80h_wrapper j in
    let calls = register_exceptions_lem wrapped h.idt_handler_exception 32 0 j (omega arith) in
    let kept = register_exceptions-descriptors wrapped h.idt_handler_exception 32 0 in
    let clock = register_at guarded 0x20 h.idt_clock j (omega arith) in
    let same = set_all-callbacks cleared h.interrupt_pointer_table 512 0 in
    (
      rw (clock.1, kept) (wrapped_at.0 ∙ rw (zeroed_at.0, at) (ground arith)),
      clock.0 ∙ rw calls (rw (wrapped_at.1, zeroed_at.1, same) (ground arith)),
    )

-- A command that is registered under a free number is called by isr80h_handler_command for that
-- number, and for every other number the same is called as before.
pub handler_command-register_command {ℓ} :
    {S : Type ℓ} (call : ℕ → S → ℕ × S) (s : Idt) (id other command : ℕ) (rest : S)
    → id < 1024
    → s.isr80h_commands id ≡ 0
    → command ≢ 0
    → (s' : Idt) × (isr80h_register_command s (pos id) command ≡ some s')
      × (isr80h_handler_command call s' (pos other) rest ≡ (
          if id == other
          then call command rest
          else isr80h_handler_command call s (pos other) rest))
unfolding isr80h_register_command isr80h_handler_command
handler_command-register_command call s id other command rest lt free nz = (
  record s { isr80h_commands = store s.isr80h_commands id command },
  ground arith,
  elim (Bool-cases (id == other)) [
    | inl here ↦
        let small : leb 1024 other ≡ false = ground arith in
        let named : (command == 0) ≡ false = ground arith in rw (here, small, named) refl
    | inr there ↦ rw there refl
  ],
)

-- isr80h_register_command panics for a number that is taken, and for one that is negative or not below
-- 1024.
pub isr80h_register_command-none :
    (s : Idt) (id command : ℕ)
    → (s.isr80h_commands id ≢ 0) ⊎ (1024 ≤ id)
    → (isr80h_register_command s (pos id) command ≡ none)
      × (isr80h_register_command s (negsuc id) command ≡ none)
unfolding isr80h_register_command
isr80h_register_command-none s id command h = ground arith

-- The handler calls what the table has under a number.
pub isr80h_handler_command_lem {ℓ} :
    {S : Type ℓ} (call : ℕ → S → ℕ × S) (s : Idt) (number : ℕ) (rest : S)
    → number < 1024
    → s.isr80h_commands number ≢ 0
    → isr80h_handler_command call s (pos number) rest ≡ call (s.isr80h_commands number) rest
unfolding isr80h_handler_command
isr80h_handler_command_lem call s number rest lt registered =
    let within : leb 1024 number ≡ false = ground arith in
    let there : (s.isr80h_commands number == 0) ≡ false = ground arith in rw (within, there) refl
