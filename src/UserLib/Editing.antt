-- ===== src/UserLib/Editing.antt =====
-- The line that peachos_terminal_readline of programs/stdlib/src/peachos.c leaves, against the editing
-- of a line as a list.
use custom_os.Base.{
  ℕ, zero, suc, ◌+◌, ◌-◌, ◌<◌, ◌≤◌, ◌≡◌, ◌≢◌, refl, ◌∙◌, Bool, true, false, ◌==◌, ◌&&◌, ltb, leb,
  if◌then◌else◌, Memory, store, store_self, store_ne, Option, none, some, arith, List, [], ◌∷◌,
  ◌++◌, length, inl, inr, Bool-cases,
}
use custom_os.UserLib.{Line, peachos_getkeyblock, readline_from, peachos_terminal_readline}

-- One key, on the characters of the line from its end: a backspace takes the last one away, and is a
-- character itself at the start.
abbrev pub press : List ℕ → ℕ → List ℕ
press [] key = key ∷ []
press (c ∷ line) key = if key == 8 then line else key ∷ c ∷ line

-- The keys of one line, up to the carriage return: neither a 0 nor a carriage return, and the line
-- stays shorter than the limit while they are pressed.
abbrev pub Typed : ℕ → List ℕ → List ℕ → Type 0
Typed limit line [] = length line < limit
Typed limit line (key ∷ keys) =
    (length line < limit) × (key ≢ 0) × (key ≢ 13) × Typed limit (press line key) keys

abbrev pub pressed : List ℕ → List ℕ → List ℕ
pressed line [] = line
pressed line (key ∷ keys) = pressed (press line key) keys

-- The characters, from the last one on, stand in front of `p`.
abbrev pub StandsBefore : Memory → ℕ → List ℕ → Type 0
StandsBefore m p [] = Unit
StandsBefore m p (c ∷ line) = (m (p - 1) ≡ c) × StandsBefore m (p - 1) line

-- The line stands at `out` with its terminator, and the keys behind the carriage return are left.
abbrev pub ReadsLine : ℕ → List ℕ → List ℕ → Option Line → Type 0
ReadsLine out line rest none = ⊥
ReadsLine out line rest (some s) =
    StandsBefore s.memory (out + length line) line
    × (s.memory (out + length line) ≡ 0)
    × (s.keys ≡ rest)

StandsBefore-store :
    (m : Memory) (p q v : ℕ) (line : List ℕ)
    → length line ≤ p
    → p ≤ q
    → StandsBefore m p line
    → StandsBefore (store m q v) p line
StandsBefore-store m p q v [] fits h s = tt
StandsBefore-store m p q v (c ∷ line) fits h s = (
  store_ne m q (p - 1) v (ground arith) ∙ s.0,
  StandsBefore-store m (p - 1) q v line (omega arith) (omega arith) s.1,
)

StandsBefore-push :
    (m : Memory) (p q c : ℕ) (line : List ℕ)
    → length line ≤ p
    → q - 1 ≡ p
    → StandsBefore m p line
    → StandsBefore (store m p c) q (c ∷ line)
StandsBefore-push m p q c line fits e s =
    rw e (store_self m p c, StandsBefore-store m p p c line fits (omega arith) s)

getkeyblock-key :
    (key : ℕ) (keys : List ℕ) → key ≢ 0 → peachos_getkeyblock (key ∷ keys) ≡ some (key, keys)
unfolding peachos_getkeyblock
getkeyblock-key key keys h = let waits : (key == 0) ≡ false = ground arith in rw waits refl

-- What is printed behind a key.
abbrev shown : Bool → List ℕ → ℕ → List ℕ
shown echo printed key = if echo then printed ++ key ∷ [] else printed

module _ (fuel : ℕ) (m : Memory) (key : ℕ) (keys printed : List ℕ) (out limit i : ℕ) (echo : Bool)
    (more : ltb i limit ≡ true) (ready : key ≢ 0) where
  step-return :
      key ≡ 13
      → readline_from
          (suc fuel)
          (record { memory = m; keys = key ∷ keys; printed = printed })
          out
          limit
          i
          echo
        ≡ some (record { memory = store m (out + i) 0; keys = keys; printed = printed })
  unfolding readline_from
  step-return e =
      let enter : (key == 13) ≡ true = ground (arith, e) in
      rw (readline_from, more, getkeyblock-key key keys ready, enter) refl

  step-back :
      (j : ℕ)
      → key ≡ 8
      → i ≡ suc j
      → readline_from
          (suc fuel)
          (record { memory = m; keys = key ∷ keys; printed = printed })
          out
          limit
          i
          echo
        ≡ readline_from fuel
            (record {
              memory = store m (out + i - 1) 0;
              keys = keys;
              printed = shown echo printed key;
            })
            out
            limit
            j
            echo
  unfolding readline_from
  step-back j e at =
      let enter : (key == 13) ≡ false = ground (arith, e) in
      let back : (key == 8 && leb 1 i) ≡ true = ground (arith, e, at) in
      let before : i - 1 ≡ j = omega (arith, at) in
      rw (readline_from, more, getkeyblock-key key keys ready, enter, back, before) refl

  step-type :
      (j : ℕ)
      → key ≢ 13
      → (key == 8 && leb 1 i) ≡ false
      → i + 1 ≡ j
      → readline_from
          (suc fuel)
          (record { memory = m; keys = key ∷ keys; printed = printed })
          out
          limit
          i
          echo
        ≡ readline_from fuel
            (record {
              memory = store m (out + i) key;
              keys = keys;
              printed = shown echo printed key;
            })
            out
            limit
            j
            echo
  unfolding readline_from
  step-type j other back next =
      let enter : (key == 13) ≡ false = ground arith in
      rw (readline_from, more, getkeyblock-key key keys ready, enter, back, next) refl

readline_from-ReadsLine :
    (fuel out limit : ℕ) (echo : Bool) (m : Memory) (line keys rest printed : List ℕ)
    → Typed limit line keys
    → length keys < fuel
    → StandsBefore m (out + length line) line
    → ReadsLine out (pressed line keys) rest (
        readline_from fuel
          (record { memory = m; keys = keys ++ 13 ∷ rest; printed = printed })
          out
          limit
          (length line)
          echo)
readline_from-ReadsLine zero out limit echo m line keys rest printed typed enough s =
    absurd (omega arith)
readline_from-ReadsLine (suc fuel) out limit echo m line [] rest printed typed enough s =
    rw
      (step-return fuel m 13 rest printed out limit (length line) echo (ground arith) (ground arith)
        refl)
      (
        StandsBefore-store m _ (out + length line) 0 line (omega arith) (omega arith) s,
        store_self m (out + length line) 0,
        refl,
      )
readline_from-ReadsLine (suc fuel) out limit echo m [] (key ∷ keys) rest printed
      (short, ready, other, later) enough s =
    rw
      (step-type fuel m key (keys ++ 13 ∷ rest) printed out limit 0 echo (ground arith) ready 1
        other (ground arith) refl)
      (readline_from-ReadsLine fuel out limit echo (store m (out + 0) key) (key ∷ []) keys rest _
        later (omega arith) (ground arith, tt))
readline_from-ReadsLine (suc fuel) out limit echo m (c ∷ line) (key ∷ keys) rest printed
      (short, ready, other, later) enough s =
    let before : out + length (c ∷ line) - 1 ≡ out + length line = omega arith in
    elim (Bool-cases (key == 8)) [
      | inl back ↦
          rw
            (
              step-back fuel m key (keys ++ 13 ∷ rest) printed out limit (length (c ∷ line)) echo
                  (ground arith) ready (length line) (ground arith) refl,
              back,
            )
            (readline_from-ReadsLine fuel out limit echo _ line keys rest _ (rw back at later)
              (omega arith)
              (StandsBefore-store m (out + length line) _ 0 line (omega arith) (omega arith)
                (rw before at s.1)))
      | inr plain ↦
          rw
            (
              step-type fuel m key (keys ++ 13 ∷ rest) printed out limit (length (c ∷ line)) echo
                  (ground arith) ready (length (key ∷ c ∷ line)) other (rw plain refl)
                  (omega arith),
              plain,
            )
            (readline_from-ReadsLine fuel out limit echo _ (key ∷ c ∷ line) keys rest _
              (rw plain at later) (omega arith)
              (StandsBefore-push m (out + length (c ∷ line)) (out + length (key ∷ c ∷ line)) key
                (c ∷ line) (omega arith) (omega arith) s))
    ]

-- For the keys of a line that stays shorter than `max - 1`, a carriage return and more keys,
-- peachos_terminal_readline ends, and leaves at `out` the line that the keys make as a list, from which
-- a backspace takes the last character and to which every other key adds one (a backspace too, where
-- the line is empty), with a terminator behind it; the keys behind the carriage return are left.
pub peachos_terminal_readline-ReadsLine :
    (fuel out max : ℕ) (echo : Bool) (m : Memory) (keys rest printed : List ℕ)
    → Typed (max - 1) [] keys
    → length keys < fuel
    → ReadsLine out (pressed [] keys) rest (
        peachos_terminal_readline fuel
          (record { memory = m; keys = keys ++ 13 ∷ rest; printed = printed })
          out
          max
          echo)
unfolding peachos_terminal_readline
peachos_terminal_readline-ReadsLine fuel out max echo m keys rest printed typed enough =
    readline_from-ReadsLine fuel out (max - 1) echo m [] keys rest printed typed enough tt
