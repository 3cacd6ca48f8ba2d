-- ===== src/Stdlib/Itoa.antt =====
-- What `itoa` leaves in the buffer: the marks, the digits, highest first, and the terminator.
use rpiosv.Base.{
  ℕ, zero, suc, ◌+◌, ◌-◌, ◌^◌, ◌<◌, ◌≤◌, ◌≡◌, ◌≢◌, refl, ap, subst, ◌∙◌, Bool, true, false, some,
  ◌%◌, ◌==◌, if◌then◌else◌, List, [], ◌∷◌, ◌++◌, get_or, update, arith, Bool-cases, inl, inr,
}
use rpiosv.Base.Int.{ℤ, pos, negsuc}
use rpiosv.Stdlib.{
  Buffer, push, digits_loop, mark_base, magnitude, is_zero_int, itoa_fuel, terminate, itoa,
}
use rpiosv.Stdlib.Digits.{
  value_of, value_of-same, Extended, digits_loop-Extended, reverse_loop-lem, between,
}

-- `m` characters were put behind those of `b`.
record More (m : ℕ) (b b' : Buffer) : Type 0 where
  end : b'.1 ≡ m + b.1
  kept : (k : ℕ) → k < b.1 → b'.0 k ≡ b.0 k

-- How many characters mark the base, and the sign.
abbrev pub base_marks : ℕ → ℕ
base_marks base = if base == 16 then 2 else if base == 8 then 1 else if base == 2 then 2 else 0

abbrev pub sign_marks : Bool → ℕ
sign_marks sign = if sign then 1 else 0

mark_base-More : (base : ℕ) (b : Buffer) → More (base_marks base) b (mark_base base b)
unfolding mark_base
mark_base-More base b = record { end = ground arith; kept = λ k l. ground (arith, l) }

sign-More : (sign : Bool) (b : Buffer) → More (sign_marks sign) b (if sign then push 45 b else b)
sign-More true b = record { end = omega arith; kept = λ k l. ground (arith, l) }
sign-More false b = record { end = omega arith; kept = λ k l. refl }

-- The marks, first one first.
abbrev pub mark_chars : (base : ℕ) (sign : Bool) → List ℕ
mark_chars base sign =
    (if base == 16
      then 48 ∷ 120 ∷ []
      else if base == 8
      then 48 ∷ []
      else if base == 2
      then 48 ∷ 98 ∷ []
      else [])
    ++ (if sign then 45 ∷ [] else [])

-- The last characters of a marked buffer, from its end on.
marks_at :
    (base : ℕ) (sign : Bool) (b : Buffer) (k : ℕ)
    → k < base_marks base + sign_marks sign
    → (mark_base base (if sign then push 45 b else b)).0
        ((mark_base base (if sign then push 45 b else b)).1 - 1 - k)
      ≡ get_or (mark_chars base sign) k 0
unfolding mark_base
marks_at base true b zero h = ground (arith, h)
marks_at base true b (suc zero) h = ground (arith, h)
marks_at base true b (suc (suc zero)) h = ground (arith, h)
marks_at base true b (suc (suc (suc k))) h = ground (arith, h)
marks_at base false b zero h = ground (arith, h)
marks_at base false b (suc zero) h = ground (arith, h)
marks_at base false b (suc (suc k)) h = ground (arith, h)

-- An `int`.
abbrev pub InInt : ℤ → Type 0
InInt (pos n) = n < 2 ^ 31
InInt (negsuc n) = n < 2 ^ 31

-- A sign is shown in base 10 only.
abbrev pub negative : ℤ → (base : ℕ) → Bool
negative (pos n) base = false
negative (negsuc n) base = base == 10

-- What the digits show: the absolute value in base 10, and the number as a `uint32_t` else.
abbrev pub digits_of : ℤ → (base : ℕ) → ℕ
digits_of (pos n) base = n
digits_of (negsuc n) base = if base == 10 then n + 1 else 2 ^ 32 - (n + 1)

pub magnitude-digits_of :
    (num : ℤ) (base : ℕ) → InInt num → magnitude num base ≡ (negative num base, digits_of num base)
unfolding magnitude
magnitude-digits_of (pos n) base h =
    ap (λ (t : ℕ). (false, t)) {x = n % 2 ^ 32} {y = n} (omega (arith, h))
magnitude-digits_of (negsuc n) base h = elim (Bool-cases (base == 10)) [
  | inl e ↦ rw e (ap (λ (t : ℕ). (true, t)) {x = suc n % 2 ^ 32} {y = n + 1} (omega (arith, h)))
  | inr e ↦
      rw e (ap (λ (t : ℕ). (false, t)) {x = 2 ^ 32 - suc n} {y = 2 ^ 32 - (n + 1)} (omega arith))
]

pub digits_of-zero : (num : ℤ) (base : ℕ) → InInt num → is_zero_int num ≡ (digits_of num base == 0)
unfolding is_zero_int
digits_of-zero (pos n) base h = refl
digits_of-zero (negsuc n) base h = ground (arith, h)

pub magnitude-bound :
    (num : ℤ) (base : ℕ)
    → InInt num
    → is_zero_int num ≡ false
    → (0 < (magnitude num base).1) × ((magnitude num base).1 < 2 ^ 32)
unfolding magnitude is_zero_int
magnitude-bound (pos n) base h z = (ground (arith, h, z), omega arith)
magnitude-bound (negsuc n) base h z = elim (Bool-cases (base == 10)) [
  | inl e ↦ rw e (omega (arith, h), omega arith)
  | inr e ↦ rw e (omega (arith, h), omega arith)
]

-- What the reversal puts at the place of the character `k` from the end.
pub backwards :
    (b : Buffer) (k : ℕ)
    → k < b.1
    → (if between 0 (b.1 - 1) (b.1 - 1 - k)
        then update b.0 b.1 0 (0 + (b.1 - 1) - (b.1 - 1 - k))
        else update b.0 b.1 0 (b.1 - 1 - k))
      ≡ b.0 k
backwards b k h =
    let at : 0 + (b.1 - 1) - (b.1 - 1 - k) ≡ k = omega (arith, h) in rw at (ground (arith, h))

-- The terminator stays where it is.
pub terminated :
    (b : Buffer)
    → 0 < b.1
    → (if between 0 (b.1 - 1) b.1
        then update b.0 b.1 0 (0 + (b.1 - 1) - b.1)
        else update b.0 b.1 0 b.1)
      ≡ 0
terminated b h = ground (arith, h)

-- The marked buffer is not empty, and shorter than the fuel of the reversal.
pub marked_length :
    (base i : ℕ) (sign : Bool) (f : ℕ → ℕ) (b : Buffer)
    → Extended base i (f, 0) b
    → 0 < i
    → i < 2 ^ 32
    → let b' = mark_base base (if sign then push 45 b else b) in
      (0 < b'.1) × (b'.1 - 1 < 0 + itoa_fuel)
marked_length base i sign f b e positive bounded =
    let m2 = sign-More sign b in
    let m3 = mark_base-More base (if sign then push 45 b else b) in
    let some_digit = e.some_digit (λ z. omega (arith, positive, z)) in
    let few : base_marks base + sign_marks sign ≤ 3 = ground arith in
    (
      omega (arith, m3.end, m2.end, e.end, some_digit),
      omega (arith, m3.end, m2.end, e.end, few, e.few, bounded),
    )

-- The steps of `itoa`.
pub itoa-steps :
    (num : ℤ) (base : ℕ) (intbuf text : ℕ → ℕ) (b : Buffer)
    → is_zero_int num ≡ false
    → digits_loop itoa_fuel (magnitude num base).1 base (intbuf, 0) ≡ some b
    → terminate (mark_base base (if (magnitude num base).0 then push 45 b else b)) ≡ some text
    → itoa num base intbuf ≡ some text
unfolding itoa
itoa-steps num base intbuf text b nz e t = rw (nz, e) t

-- The text that `itoa` leaves: `marks` characters, then digits, then the terminator.
pub record PrintedAs (sign : Bool) (shown : ℕ) (num : ℤ) (base : ℕ) (intbuf : ℕ → ℕ) : Type 0 where
  pub text : ℕ → ℕ
  pub digits : ℕ
  pub returns : itoa num base intbuf ≡ some text
  pub some_digit : digits ≢ 0
  pub ended : text (digits + (base_marks base + sign_marks sign)) ≡ 0
  pub marked :
      (k : ℕ) → k < base_marks base + sign_marks sign → text k ≡ get_or (mark_chars base sign) k 0
  pub value :
      value_of base (λ k. text (digits + (base_marks base + sign_marks sign) - 1 - k)) digits
      ≡ shown

-- With the sign and the digits that the number is to have.
abbrev pub Printed : ℤ → (base : ℕ) → (ℕ → ℕ) → Type 0
Printed num base intbuf = PrintedAs (negative num base) (digits_of num base) num base intbuf

itoa-PrintedAs :
    (num : ℤ) (base : ℕ) (intbuf : ℕ → ℕ)
    → InInt num
    → is_zero_int num ≡ false
    → 2 ≤ base
    → base ≤ 36
    → PrintedAs (magnitude num base).0 (magnitude num base).1 num base intbuf
unfolding terminate
itoa-PrintedAs num base intbuf h nz lo hi =
    let i = (magnitude num base).1 in
    let sign = (magnitude num base).0 in
    let (positive, bounded) = magnitude-bound num base h nz in
    let (b1, ret1, e) =
      digits_loop-Extended itoa_fuel i base (intbuf, 0) (omega (arith, bounded)) lo hi in
    let b2 : Buffer = if sign then push 45 b1 else b1 in
    let m2 = sign-More sign b1 in
    let b3 = mark_base base b2 in
    let m3 = mark_base-More base b2 in
    let marks = base_marks base + sign_marks sign in
    let few : marks ≤ 3 = ground arith in
    let len : b3.1 ≡ e.count + marks = omega (arith, m3.end, m2.end, e.end) in
    let some_digit = e.some_digit (λ z. omega (arith, positive, z)) in
    let positive3 : 0 < b3.1 = omega (arith, len, some_digit) in
    let (text, ret3, at) =
      reverse_loop-lem itoa_fuel 0 (b3.1 - 1) (update b3.0 b3.1 0) (omega arith)
        (omega (arith, len, few, e.few, bounded)) in
    record {
      text = text;
      digits = e.count;
      returns = itoa-steps num base intbuf text b1 nz ret1 ret3;
      some_digit = some_digit;
      ended = subst (λ (m : ℕ). text m ≡ 0) len (at b3.1 ∙ terminated b3 positive3);
      marked = λ k l.
          ap text {x = k} {y = b3.1 - 1 - (b3.1 - 1 - k)} (omega (arith, l, len))
          ∙ at (b3.1 - 1 - (b3.1 - 1 - k))
          ∙ backwards b3 (b3.1 - 1 - k) (omega (arith, positive3))
          ∙ marks_at base sign b1 k l;
      value =
          value_of-same base e.count (λ k. text (e.count + marks - 1 - k)) (λ k. b1.0 (k + 0))
            (λ k l.
              ap text {x = e.count + marks - 1 - k} {y = b3.1 - 1 - k} (omega (arith, len))
              ∙ at (b3.1 - 1 - k)
              ∙ backwards b3 k (omega (arith, l, len))
              ∙ m3.kept k (omega (arith, l, m2.end, e.end))
              ∙ m2.kept k (omega (arith, l, e.end))
              ∙ ap b1.0 (omega arith))
          ∙ e.value;
    }

not_zero : (num : ℤ) → num ≢ pos 0 → is_zero_int num ≡ false
unfolding is_zero_int
not_zero (pos zero) h = absurd (h refl)
not_zero (pos (suc n)) h = ground arith
not_zero (negsuc n) h = refl

-- `itoa` of an `int` that is not 0, in a base from 2 to 36, returns. It writes the marks of the base,
-- the sign of a negative number in base 10, digits, highest first, that have the value of the number
-- (its absolute value in base 10, else the number as a `uint32_t`), and a terminator.
pub itoa-Printed :
    (num : ℤ) (base : ℕ) (intbuf : ℕ → ℕ)
    → InInt num
    → num ≢ pos 0
    → 2 ≤ base
    → base ≤ 36
    → Printed num base intbuf
itoa-Printed num base intbuf h nz lo hi =
    subst (λ (r : Bool × ℕ). PrintedAs r.0 r.1 num base intbuf) (magnitude-digits_of num base h)
      (itoa-PrintedAs num base intbuf h (not_zero num nz) lo hi)
