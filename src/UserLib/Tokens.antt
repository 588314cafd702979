-- ===== src/UserLib/Tokens.antt =====
-- The token that one call of strtok of programs/stdlib/src/string.c takes.
use custom_os.Base.{
  ℕ, zero, suc, ◌+◌, ◌<◌, ◌≤◌, ◌≡◌, ◌≢◌, refl, ap, ◌∙◌, true, false, ◌==◌, ◌&&◌, if◌then◌else◌,
  Memory, store, some, arith, List, ◌⊎◌, inl, inr, Bool-cases,
}
use custom_os.UserLib.{Tokenizer, is_delimiter, skip_delimiters, end_token, next_token, strtok}

-- The string has `k` delimiters from `p` on, then `n` characters of a token, and then its terminator
-- or one more delimiter.
pub record HasToken (m : Memory) (delimiters : List ℕ) (p k n : ℕ) : Type 0 where
  pub skipped : (j : ℕ) → p ≤ j → j < p + k → is_delimiter delimiters (m j) ≡ true
  pub token :
      (j : ℕ) → p + k ≤ j → j < p + k + n → (m j ≢ 0) × (is_delimiter delimiters (m j) ≡ false)
  pub end : (m (p + k + n) ≡ 0) ⊎ ((0 < n) × (is_delimiter delimiters (m (p + k + n)) ≡ true))
  pub terminator : is_delimiter delimiters 0 ≡ false

skip_delimiters-token :
    (fuel : ℕ) (m : Memory) (delimiters : List ℕ) (p k : ℕ)
    → k < fuel
    → ((j : ℕ) → p ≤ j → j < p + k → is_delimiter delimiters (m j) ≡ true)
    → is_delimiter delimiters (m (p + k)) ≡ false
    → skip_delimiters fuel m delimiters p ≡ some (p + k)
unfolding skip_delimiters
skip_delimiters-token zero m delimiters p k enough before at = absurd (omega arith)
skip_delimiters-token (suc fuel) m delimiters p zero enough before at =
    let e : p + 0 ≡ p = omega arith in rw (skip_delimiters, e) (rw (rw e at at) refl)
skip_delimiters-token (suc fuel) m delimiters p (suc k) enough before at =
    let e : p + suc k ≡ p + 1 + k = omega arith in
    rw (skip_delimiters, before p (omega arith) (omega arith), e)
      (skip_delimiters-token fuel m delimiters (p + 1) k (omega arith)
        (λ j lo hi. before j (omega arith) (omega arith)) (rw e at at))

-- The memory and the variable behind a token that ends at `e`.
abbrev pub behind_token : Memory → ℕ → Tokenizer
behind_token m e =
    if m e == 0 then record { memory = m; sp = e } else record { memory = store m e 0; sp = e + 1 }

closed :
    (c : ℕ) (delimiters : List ℕ)
    → (c ≡ 0) ⊎ (is_delimiter delimiters c ≡ true)
    → (c == 0) ≡ false
    → is_delimiter delimiters c ≡ true
closed c delimiters (inl z) more = absurd (ground (arith, z, more))
closed c delimiters (inr d) more = d

end_token-token :
    (fuel : ℕ) (m : Memory) (delimiters : List ℕ) (q n : ℕ)
    → n < fuel
    → ((j : ℕ) → q ≤ j → j < q + n → (m j ≢ 0) × (is_delimiter delimiters (m j) ≡ false))
    → (m (q + n) ≡ 0) ⊎ (is_delimiter delimiters (m (q + n)) ≡ true)
    → end_token fuel (record { memory = m; sp = q }) delimiters ≡ some (behind_token m (q + n))
unfolding end_token
end_token-token zero m delimiters q n enough token end = absurd (omega arith)
end_token-token (suc fuel) m delimiters q zero enough token end =
    let e : q + 0 ≡ q = omega arith in
    rw (end_token, e)
      (elim (Bool-cases (m q == 0)) [
        | inl last ↦ rw last refl
        | inr more ↦
            let closes : is_delimiter delimiters (m q) ≡ true =
              closed (m q) delimiters (rw e at end) more in
            rw (more, closes) refl
      ])
end_token-token (suc fuel) m delimiters q (suc n) enough token end =
    let e : q + suc n ≡ q + 1 + n = omega arith in
    let here = token q (omega arith) (omega arith) in
    let more : (m q == 0) ≡ false = ground (arith, here.0) in
    rw (end_token, more, here.1, e)
      (end_token-token fuel m delimiters (q + 1) n (omega arith)
        (λ j lo hi. token j (omega arith) (omega arith)) (rw e at end))

closed_end :
    (m : Memory) (delimiters : List ℕ) (e n : ℕ)
    → (m e ≡ 0) ⊎ ((0 < n) × (is_delimiter delimiters (m e) ≡ true))
    → (m e ≡ 0) ⊎ (is_delimiter delimiters (m e) ≡ true)
closed_end m delimiters e n (inl z) = inl z
closed_end m delimiters e n (inr h) = inr h.1

-- The string that a call breaks up: its argument only where none is being broken up.
abbrev pub start : Tokenizer → ℕ → ℕ
start s str = if s.sp == 0 then str else s.sp

strtok-start :
    (fuel : ℕ) (s : Tokenizer) (str : ℕ) (delimiters : List ℕ) (p : ℕ)
    → start s str ≡ p
    → p ≢ 0
    → strtok fuel s str delimiters
      ≡ next_token fuel (record { memory = s.memory; sp = p }) delimiters
unfolding strtok
strtok-start fuel s str delimiters p from nz = elim (Bool-cases (s.sp == 0)) [
  | inl none_left ↦
      let given : str ≡ p = ground (arith, from, none_left) in
      let something : (str == 0) ≡ false = ground (arith, nz, given) in
      rw (strtok, none_left, something)
        (ap (λ q. next_token fuel (record { memory = s.memory; sp = q }) delimiters) given)
  | inr goes_on ↦
      let kept : s.sp ≡ p = ground (arith, from, goes_on) in
      let guard : (str == 0 && s.sp == 0) ≡ false = ground arith in
      rw (strtok, guard, goes_on)
        (ap (λ q. next_token fuel (record { memory = s.memory; sp = q }) delimiters) kept)
]

next_token-none :
    (fuel : ℕ) (m : Memory) (delimiters : List ℕ) (p k : ℕ)
    → HasToken m delimiters p k 0
    → k < fuel
    → m (p + k) ≡ 0
    → next_token fuel (record { memory = m; sp = p }) delimiters
      ≡ some (0, record { memory = m; sp = 0 })
unfolding next_token
next_token-none fuel m delimiters p k has enough last =
    let stops : is_delimiter delimiters (m (p + k)) ≡ false = rw last has.terminator in
    let ends : (m (p + k) == 0) ≡ true = ground (arith, last) in
    rw (next_token, skip_delimiters-token fuel m delimiters p k enough has.skipped stops, ends) refl

next_token-token :
    (fuel : ℕ) (m : Memory) (delimiters : List ℕ) (p k n : ℕ)
    → HasToken m delimiters p k (suc n)
    → k < fuel
    → suc n < fuel
    → next_token fuel (record { memory = m; sp = p }) delimiters
      ≡ some (p + k, behind_token m (p + k + suc n))
unfolding next_token
next_token-token fuel m delimiters p k n has enough enough' =
    let first = has.token (p + k) (omega arith) (omega arith) in
    let more : (m (p + k) == 0) ≡ false = ground (arith, first.0) in
    let taken =
      end_token-token fuel m delimiters (p + k) (suc n) enough' has.token
        (closed_end m delimiters (p + k + suc n) (suc n) has.end) in
    rw
      (
        next_token,
        skip_delimiters-token fuel m delimiters p k enough has.skipped first.1,
        more,
        taken,
      )
      refl

-- For a string of `k` delimiters, then `n` characters that are no delimiters, and then a terminator or
-- a delimiter, strtok returns within the fuel: where `n` is 0 the result is NULL and no string is left;
-- otherwise the result is the address of the token, the delimiter behind it is replaced by a terminator,
-- nothing else is written, and the next call goes on behind it.
pub strtok_lem :
    (fuel : ℕ) (s : Tokenizer) (str : ℕ) (delimiters : List ℕ) (p k n : ℕ)
    → start s str ≡ p
    → p ≢ 0
    → HasToken s.memory delimiters p k n
    → k < fuel
    → n < fuel
    → ((n ≡ 0)
        × (s.memory (p + k) ≡ 0)
        × (strtok fuel s str delimiters ≡ some (0, record { memory = s.memory; sp = 0 })))
      ⊎ ((0 < n) × (strtok fuel s str delimiters ≡ some (p + k, behind_token s.memory (p + k + n))))
strtok_lem fuel s str delimiters p k zero from nz has skips ends =
    let e : p + k + 0 ≡ p + k = omega arith in
    let last : s.memory (p + k) ≡ 0 = ended (rw e at has.end) in
    inl (
      refl,
      last,
      strtok-start fuel s str delimiters p from nz
          ∙ next_token-none fuel s.memory delimiters p k has skips last,
    )
  where
    ended :
        (s.memory (p + k) ≡ 0) ⊎ ((0 < 0) × (is_delimiter delimiters (s.memory (p + k)) ≡ true))
        → s.memory (p + k) ≡ 0
    ended (inl z) = z
    ended (inr h) = absurd (omega (arith, h.0))
strtok_lem fuel s str delimiters p k (suc n) from nz has skips ends = inr (
  omega arith,
  strtok-start fuel s str delimiters p from nz
      ∙ next_token-token fuel s.memory delimiters p k n has skips ends,
)
