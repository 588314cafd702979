-- ===== src/Idt/Tests.antt =====
-- Each theorem on the tables of idt/idt.c at one input.
use custom_os.Base.{
  ℕ, ◌+◌, ◌≡◌, refl, inr, ltb, ◌==◌, if◌then◌else◌, Option, none, some, [], ◌∷◌, arith,
}
use custom_os.Base.Int.{pos, negsuc}
use custom_os.Idt.{
  Idt, Handlers, no_desc, idt_init, isr80h_register_command, isr80h_register_commands,
}
use custom_os.Idt.Tables.{address_of, idt_init_lem, isr80h_register_command-none}

abbrev blank : Idt
blank = record {
  idt_descriptors = λ i. no_desc;
  interrupt_callbacks = λ i. 0;
  isr80h_commands = λ i. 0;
}

abbrev handlers : Handlers
handlers = record {
  interrupt_pointer_table = λ i. 0x110000 + i;
  idt_zero = 0x120000;
  isr80h_wrapper = 0x130000;
  idt_handler_exception = 0x140000;
  idt_clock = 0x150000;
}

idt_init_lem_example :
    (address_of ((idt_init blank handlers).idt_descriptors 0x80) ≡ (
      if 0x80 == 0x80
      then 0x130000
      else if 0x80 == 0
      then 0x120000
      else handlers.interrupt_pointer_table 0x80))
    × ((idt_init blank handlers).interrupt_callbacks 0x80 ≡ (
        if 0x80 == 0x20
        then 0x150000
        else if ltb 0x80 0x20
        then 0x140000
        else blank.interrupt_callbacks 0x80))
idt_init_lem_example = idt_init_lem blank handlers 0x80 (omega arith)

-- A command counts its calls.
abbrev count : ℕ → ℕ → ℕ × ℕ
count f n = (f, n + 1)

isr80h_register_command-none_example :
    (isr80h_register_command blank (pos 1024) 0x160000 ≡ none)
    × (isr80h_register_command blank (negsuc 1024) 0x160000 ≡ none)
isr80h_register_command-none_example =
    isr80h_register_command-none blank 1024 0x160000 (inr (omega arith))

taken : Option Idt → ℕ → ℕ
taken none id = 0
taken (some s) id = s.isr80h_commands id

ten : taken (isr80h_register_commands blank 0 (11 ∷ 12 ∷ 13 ∷ [])) 2 ≡ 13
unfolding isr80h_register_commands isr80h_register_command taken
ten = refl
