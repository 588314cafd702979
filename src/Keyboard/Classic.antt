-- ===== src/Keyboard/Classic.antt =====
-- The PS/2 keyboard of keyboard/classic.c. The scan code is an argument: it is what `insb` reads.
use custom_os.Base.{
  ℕ, ◌+◌, ◌/◌, ◌%◌, ◌<◌, ◌≡◌, ◌≢◌, refl, ap, ◌∙◌, get_elem?-some, Bool, true, false, ◌&&◌, Option,
  none, some, List, [], ◌∷◌, ◌++◌, length, get_elem?, ltb, leb, ◌==◌, if◌then◌else◌, arith,
  Bool-cases, inl, inr, ==_refl, sym,
}
use custom_os.Text.{tolower}
use custom_os.Keyboard.{Input, keyboard_push, push, set_buffer}
use custom_os.Keyboard.Ring.{Holds, push-Holds}

abbrev pub keyboard_scan_set_one : List ℕ
keyboard_scan_set_one =
    0x00 ∷ 0x1B ∷ b'1' ∷ b'2' ∷ b'3' ∷ b'4' ∷ b'5' ∷ b'6' ∷ b'7' ∷ b'8' ∷ b'9' ∷ b'0' ∷ b'-' ∷ b'='
    ∷ 0x08 ∷ 9 ∷ b'Q' ∷ b'W' ∷ b'E' ∷ b'R' ∷ b'T' ∷ b'Y' ∷ b'U' ∷ b'I' ∷ b'O' ∷ b'P' ∷ b'[' ∷ b']'
    ∷ 0x0d ∷ 0x00 ∷ b'A' ∷ b'S' ∷ b'D' ∷ b'F' ∷ b'G' ∷ b'H' ∷ b'J' ∷ b'K' ∷ b'L' ∷ b';' ∷ 39 ∷ b'`'
    ∷ 0x00 ∷ 92 ∷ b'Z' ∷ b'X' ∷ b'C' ∷ b'V' ∷ b'B' ∷ b'N' ∷ b'M' ∷ b',' ∷ b'.' ∷ b'/' ∷ 0x00 ∷ b'*'
    ∷ 0x00 ∷ 0x20 ∷ 0x00 ∷ 0x00 ∷ 0x00 ∷ 0x00 ∷ 0x00 ∷ 0x00 ∷ 0x00 ∷ 0x00 ∷ 0x00 ∷ 0x00 ∷ 0x00
    ∷ b'7' ∷ b'8' ∷ b'9' ∷ b'-' ∷ b'4' ∷ b'5' ∷ b'6' ∷ b'+' ∷ b'1' ∷ b'2' ∷ b'3' ∷ b'0' ∷ b'.' ∷ []

abbrev pub capslock_on : ℕ
capslock_on = 1

abbrev pub capslock_off : ℕ
capslock_off = 0

-- `none` is a read behind the array.
pub classic_keyboard_scancode_to_char : ℕ → ℕ → Option ℕ
classic_keyboard_scancode_to_char capslock scancode =
    if ltb (length keyboard_scan_set_one) scancode
    then some 0
    else elim (get_elem? keyboard_scan_set_one scancode) [
      | none ↦ none
      | some c ↦
          if capslock == capslock_off
          then some (if leb b'A' c && leb c b'Z' then c + 32 else c)
          else some c
    ]

-- Whose page directory is loaded.
pub data Page : Type 0 where
  kernel task : Page

pub record Machine : Type 0 where
  pub capslock : ℕ
  pub input : Input
  pub page : Page

-- The end of the handler: the character is pushed and the task's pages come back.
pub deliver : Machine → ℕ → Machine
deliver m c =
    let pushed = if c == 0 then m else record m { input = keyboard_push m.input c } in
    record pushed { page = task }

-- The part of the handler behind the test for a release.
pub handle_press : Machine → ℕ → Option Machine
unfolding deliver
handle_press m scancode =
    let toggled = if m.capslock == capslock_on then capslock_off else capslock_on in
    let capslock = if scancode == 0x3A then toggled else m.capslock in
    elim (classic_keyboard_scancode_to_char capslock scancode) [
      | none ↦ none
      | some c ↦ some (deliver (record m { capslock = capslock }) c)
    ]

-- A release of a key returns at once, with the kernel's pages loaded.
pub classic_keyboard_handle_interrupt : Machine → ℕ → Option Machine
unfolding handle_press
classic_keyboard_handle_interrupt machine scancode =
    let m = record machine { page = kernel } in
    if scancode / 128 % 2 == 1 then some m else handle_press m scancode

beyond :
    (l scancode : ℕ)
    → ltb 82 scancode ≡ true
    → classic_keyboard_scancode_to_char l scancode ≡ some 0
unfolding classic_keyboard_scancode_to_char
beyond l scancode e = rw (e, classic_keyboard_scancode_to_char)

lower_0 : 0 ≡ tolower 0
unfolding tolower
lower_0 = refl

pub scancode_to_char-eq :
    (capslock scancode c : ℕ)
    → ltb 82 scancode ≡ false
    → get_elem? keyboard_scan_set_one scancode ≡ some c
    → classic_keyboard_scancode_to_char capslock scancode
      ≡ some (if capslock == 0 then tolower c else c)
unfolding classic_keyboard_scancode_to_char tolower
scancode_to_char-eq capslock scancode c small at =
    rw (small, at, classic_keyboard_scancode_to_char) (ground arith)

-- A scan code other than 82 never reads behind the array. With the lock off the character is the one
-- with the lock on, in lower case.
pub scancode_to_char-tolower :
    (scancode : ℕ)
    → scancode ≢ 82
    → (c : ℕ) × (classic_keyboard_scancode_to_char capslock_on scancode ≡ some c)
      × (classic_keyboard_scancode_to_char capslock_off scancode ≡ some (tolower c))
scancode_to_char-tolower scancode h = elim (Bool-cases (ltb 82 scancode)) [
  | inl large ↦ (0, beyond 1 scancode large, beyond 0 scancode large ∙ ap some lower_0)
  | inr small ↦
      let (c, at) = get_elem?-some keyboard_scan_set_one scancode (ground arith) in
      (c, scancode_to_char-eq 1 scancode c small at, scancode_to_char-eq 0 scancode c small at)
]

-- Scan code 82 passes the test of the bound and reads behind the array.
pub scancode_to_char-behind : (capslock : ℕ) → classic_keyboard_scancode_to_char capslock 82 ≡ none
unfolding classic_keyboard_scancode_to_char
scancode_to_char-behind capslock = refl

lock_char : (capslock : ℕ) → classic_keyboard_scancode_to_char capslock 0x3A ≡ some 0
lock_char capslock =
    scancode_to_char-eq capslock 0x3A 0 refl refl ∙ ap some (if_same (capslock == 0) lower_0)
  where
    if_same : (t : Bool) → 0 ≡ tolower 0 → (if t then tolower 0 else 0) ≡ 0
    if_same true e = sym e
    if_same false e = refl

-- The lock's key turns the lock over, changes no buffer, and leaves the task's pages loaded.
pub handle_interrupt-capslock :
    (m : Machine)
    → classic_keyboard_handle_interrupt m 0x3A
      ≡ some (record m { capslock = if m.capslock == 1 then 0 else 1; page = task })
unfolding classic_keyboard_handle_interrupt
handle_interrupt-capslock m = rw (lock_char (if m.capslock == 1 then 0 else 1), handle_press)

-- The handler of a release changes no lock and no buffer, and leaves the kernel's pages loaded.
pub handle_interrupt-release :
    (m : Machine) (scancode : ℕ)
    → scancode / 128 % 2 ≡ 1
    → classic_keyboard_handle_interrupt m scancode ≡ some (record m { page = kernel })
unfolding classic_keyboard_handle_interrupt
handle_interrupt-release m scancode e =
    let released : (scancode / 128 % 2 == 1) ≡ true = ground arith in
    rw (released, classic_keyboard_handle_interrupt)

-- A press of a key other than the lock's whose character, under the state of the lock, is `c` puts
-- `c` behind the bytes that the buffer of the current process holds, if that is not full. The lock
-- stays as it is, and the pages of the current task are loaded.
pub handle_interrupt-press :
    (m : Machine) (scancode c : ℕ) (q : List ℕ)
    → scancode < 82
    → scancode ≢ 0x3A
    → classic_keyboard_scancode_to_char m.capslock scancode ≡ some c
    → c ≢ 0
    → m.input.current_process ≢ 0
    → Holds (m.input.buffers m.input.current_process) q
    → length q < 1024
    → (m' : Machine) × (classic_keyboard_handle_interrupt m scancode ≡ some m')
      × Holds (m'.input.buffers m.input.current_process) (q ++ c ∷ [])
      × (m'.capslock ≡ m.capslock)
      × (m'.page ≡ task)
unfolding classic_keyboard_handle_interrupt keyboard_push
handle_interrupt-press m scancode c q lt ne at nz live h room =
    let pressed : (scancode / 128 % 2 == 1) ≡ false = ground arith in
    let other : (scancode == 0x3A) ≡ false = ground arith in
    let some_char : (c == 0) ≡ false = ground arith in
    let has_process : (m.input.current_process == 0) ≡ false = ground arith in
    (
      record m {
        input =
            set_buffer m.input m.input.current_process
              (push (m.input.buffers m.input.current_process) c);
        page = task;
      },
      rw (pressed, classic_keyboard_handle_interrupt)
          (rw (other, at, handle_press) (rw some_char (rw has_process (rw other refl)))),
      rw (==_refl m.input.current_process)
          (push-Holds (m.input.buffers m.input.current_process) q c h room),
      refl,
      refl,
    )
