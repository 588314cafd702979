-- ===== src/UserLib/Decimal.antt =====
-- The decimal digits that itoa of programs/stdlib/src/stdlib.c writes, read back.
use custom_os.Base.{
  ℕ, zero, suc, ◌+◌, ◌-◌, ◌*◌, ◌/◌, ◌%◌, ◌^◌, ◌<◌, ◌≤◌, ◌≡◌, refl, ap, ◌∙◌, sym, true, false, ◌==◌,
  if◌then◌else◌, Memory, store, store_self, store_ne, Option, some, arith, inl, inr, Bool-cases,
}
use native.Mathlib.Nat.{pow-suc}
use custom_os.Base.Int.{ℤ, pos, negsuc}
use custom_os.UserLib.{digits_from, sign, itoa}

-- The number that the `n` digits from `p` on stand for, behind the digits of `acc`.
abbrev pub value : Memory → ℕ → ℕ → ℕ → ℕ
value m p zero acc = acc
value m p (suc n) acc = value m (p + 1) n (acc * 10 + (m p - 48))

-- The `n` bytes from `p` on are digits.
abbrev pub IsDigits : Memory → ℕ → ℕ → Type 0
IsDigits m p n = (j : ℕ) → p ≤ j → j < p + n → (48 ≤ m j) × (m j < 58)

value-store : (m : Memory) (p n acc q c : ℕ) → q < p → value (store m q c) p n acc ≡ value m p n acc
value-store m p zero acc q c h = refl
value-store m p (suc n) acc q c h =
    let here : store m q c p ≡ m p = ground arith in
    rw here (value-store m (p + 1) n (acc * 10 + (m p - 48)) q c (omega arith))

-- The text behind the loop: the digits from `loc'` to 10, and the terminator.
record Digits (text : Memory) (k loc n : ℕ) (text' : Memory) (loc' : ℕ) : Type 0 where
  low : loc ≤ loc' + k
  high : loc' ≤ loc
  started : 0 < n → loc' < loc
  reads : value text' loc' (11 - loc') 0 ≡ value text loc (11 - loc) n
  digits : IsDigits text' loc' (11 - loc')
  terminated : text' 11 ≡ text 11

digit_before :
    (text : Memory) (loc n j : ℕ)
    → IsDigits text (suc loc) (11 - suc loc)
    → loc ≤ j
    → j < loc + (11 - loc)
    → (48 ≤ store text loc (48 + n % 10) j) × (store text loc (48 + n % 10) j < 58)
digit_before text loc n j is lo hi = elim (Bool-cases (loc == j)) [
  | inl here ↦ ground arith
  | inr other ↦ let d = is j (ground arith) (ground arith) in ground (arith, d)
]

value-digit :
    (text : Memory) (loc n : ℕ)
    → loc < 11
    → value (store text loc (48 + n % 10)) loc (11 - loc) (n / 10)
      ≡ value text (suc loc) (11 - suc loc) n
value-digit text loc n h =
    let text1 = store text loc (48 + n % 10) in
    let k = 11 - suc loc in
    let one_more : 11 - loc ≡ suc k = omega arith in
    let next : loc + 1 ≡ suc loc = omega arith in
    let back : n / 10 * 10 + (text1 loc - 48) ≡ n =
      omega (arith, store_self text loc (48 + n % 10)) in
    ap (λ r. value text1 loc r (n / 10)) one_more
    ∙ (ap (λ a. value text1 (loc + 1) k a) back
        ∙ (value-store text (loc + 1) k n loc (48 + n % 10) (omega arith)
            ∙ ap (λ q. value text q k n) next))

digits_from-Digits :
    (text : Memory) (k loc n : ℕ)
    → k ≤ loc
    → loc ≤ 11
    → n < 10 ^ k
    → IsDigits text loc (11 - loc)
    → (text' : Memory) × (loc' : ℕ) × (digits_from text loc n ≡ some (text', loc'))
      × Digits text k loc n text' loc'
unfolding digits_from
digits_from-Digits text k zero zero below inside fits is = (
  text,
  zero,
  refl,
  record {
    low = omega arith;
    high = omega arith;
    started = λ h. absurd (omega arith);
    reads = refl;
    digits = is;
    terminated = refl;
  },
)
digits_from-Digits text k (suc loc) zero below inside fits is = (
  text,
  suc loc,
  refl,
  record {
    low = omega arith;
    high = omega arith;
    started = λ h. absurd (omega arith);
    reads = refl;
    digits = is;
    terminated = refl;
  },
)
digits_from-Digits text zero loc (suc n) below inside fits is = absurd (omega arith)
digits_from-Digits text (suc k) zero (suc n) below inside fits is = absurd (omega arith)
digits_from-Digits text (suc k) (suc loc) (suc n) below inside fits is =
    let text1 = store text loc (48 + suc n % 10) in
    let is1 : IsDigits text1 loc (11 - loc) = λ j lo hi. digit_before text loc (suc n) j is lo hi in
    let (text', loc', e, r) =
      digits_from-Digits text1 k loc (suc n / 10) (omega arith) (omega arith)
        (omega (arith, pow-suc 10 k)) is1 in
    (
      text',
      loc',
      e,
      record {
        low = omega (arith, r.low);
        high = omega (arith, r.high);
        started = λ h. omega (arith, r.high);
        reads = r.reads ∙ value-digit text loc (suc n) (omega arith);
        digits = r.digits;
        terminated = r.terminated ∙ store_ne text loc 11 (48 + suc n % 10) (ground arith);
      },
    )

-- The number that the characters from `p` to the terminator at 11 stand for.
abbrev pub negated : ℕ → ℤ
negated zero = pos 0
negated (suc n) = negsuc n

abbrev pub number : Memory → ℕ → ℤ
number text p =
    if text p == b'-'
    then negated (value text (p + 1) (11 - (p + 1)) 0)
    else pos (value text p (11 - p) 0)

-- An `int`.
abbrev pub IsInt : ℤ → Type 0
IsInt (pos n) = n < 2 ^ 31
IsInt (negsuc n) = n < 2 ^ 31

-- The digits of the number, behind a minus sign for a negative one.
abbrev pub Written : ℤ → Memory → ℕ → Type 0
Written (pos n) text p = IsDigits text p (11 - p)
Written (negsuc n) text p = (text p ≡ b'-') × IsDigits text (p + 1) (11 - (p + 1))

-- What itoa returns for the number.
abbrev pub Shows : ℤ → Option (Memory × ℕ) → Type 0
Shows i r =
    (text' : Memory) × (loc : ℕ) × (r ≡ some (text', loc))
    × (loc < 11)
    × (text' 11 ≡ 0)
    × Written i text' loc
    × (number text' loc ≡ i)

sign-zero :
    (text : Memory) (loc n : ℕ)
    → loc ≡ 11
    → n ≡ 0
    → text 11 ≡ 0
    → Shows (pos n) (sign false (text, loc))
unfolding sign
sign-zero text loc n e none_left end =
    rw e (
      store text 10 48,
      10,
      refl,
      omega arith,
      end,
      λ j lo hi. ground arith,
      ap pos (sym none_left),
    )

sign-pos :
    (text : Memory) (loc n : ℕ)
    → loc < 11
    → text 11 ≡ 0
    → IsDigits text loc (11 - loc)
    → value text loc (11 - loc) 0 ≡ n
    → Shows (pos n) (sign false (text, loc))
unfolding sign
sign-pos text loc n h end is e =
    let inside : (loc == 11) ≡ false = ground arith in
    let digit : (text loc == 45) ≡ false = ground (arith, is loc (omega arith) (omega arith)) in
    (text, loc, rw (sign, inside) refl, h, end, is, rw (digit, e) refl)

sign-neg :
    (text : Memory) (loc n : ℕ)
    → loc < 11
    → 0 < loc
    → text 11 ≡ 0
    → IsDigits text loc (11 - loc)
    → value text loc (11 - loc) 0 ≡ n + 1
    → Shows (negsuc n) (sign true (text, loc))
unfolding sign
sign-neg text zero n h low end is e = absurd (omega arith)
sign-neg text (suc l) n h low end is e =
    let inside : (suc l == 11) ≡ false = ground arith in
    let text' = store text l 45 in
    let next : l + 1 ≡ suc l = omega arith in
    let minus : (store text l 45 l == 45) ≡ true = ground arith in
    let succ : n + 1 ≡ suc n = omega arith in
    let shown : value text' (suc l) (11 - suc l) 0 ≡ suc n =
      value-store text (suc l) (11 - suc l) 0 l 45 (omega arith) ∙ (e ∙ succ) in
    (
      text',
      l,
      rw (sign, inside) refl,
      omega arith,
      store_ne text l 11 45 (ground arith) ∙ end,
      (
        store_self text l 45,
        λ j lo hi. let d = is j (omega arith) (omega arith) in ground (arith, d),
      ),
      rw (minus, next, shown) refl,
    )

-- itoa of every `int` returns an address in front of the end of its array, from which on a minus sign
-- for a negative number and then the decimal digits of the number stand, up to the terminator.
pub itoa_lem : (text : Memory) (i : ℤ) → IsInt i → Shows i (itoa text i)
unfolding itoa
itoa_lem text (pos n) small =
    let text0 = store text 11 0 in
    let (text', loc, e, r) =
      digits_from-Digits text0 10 11 n (omega arith) (omega arith) (omega arith)
        (λ j lo hi. absurd (omega arith)) in
    rw (itoa, e)
      (elim (Bool-cases (loc == 11)) [
        | inl empty ↦
            let none_left : n ≡ 0 = ground (arith, r.started) in
            sign-zero text' loc n (ground arith) none_left r.terminated
        | inr inside ↦ sign-pos text' loc n (ground (arith, r.high)) r.terminated r.digits r.reads
      ])
itoa_lem text (negsuc n) small =
    let text0 = store text 11 0 in
    let (text', loc, e, r) =
      digits_from-Digits text0 10 11 (n + 1) (omega arith) (omega arith) (omega arith)
        (λ j lo hi. absurd (omega arith)) in
    rw (itoa, e)
      (sign-neg text' loc n (r.started (omega arith)) (omega (arith, r.low)) r.terminated r.digits
        r.reads)
