-- ===== src/Stdlib/Shown.antt =====
-- The text of a number as a list, and `itoa` against it.
use rpiosv.Base.{
  ℕ, zero, suc, ◌+◌, ◌-◌, ◌/◌, ◌%◌, ◌<◌, ◌≤◌, ◌≡◌, ◌≢◌, refl, ap, subst, ◌∙◌, Bool, true, false,
  some, leb, ◌==◌, if◌then◌else◌, List, [], ◌∷◌, ◌++◌, update, arith, Addr, Bool-cases, inl, inr,
}
use rpiosv.Base.Int.{ℤ}
use rpiosv.Stdlib.{
  Buffer, push, digit_char, digits_loop, mark_base, magnitude, is_zero_int, itoa_fuel, terminate,
  itoa,
}
use rpiosv.Stdlib.Digits.{digits_loop-Extended, reverse_loop-lem}
use rpiosv.Stdlib.Itoa.{
  mark_chars, negative, digits_of, magnitude-digits_of, digits_of-zero, InInt, magnitude-bound,
  backwards, terminated, itoa-steps, marked_length,
}

-- The characters of `s` stand at `p`, none of them the terminator, which follows.
abbrev pub IsText : Addr → List ℕ → (Addr → ℕ) → Type 0
IsText p [] text = text p ≡ 0
IsText p (c ∷ s) text = (text p ≡ c) × (c ≢ 0) × IsText (suc p) s text

-- A digit: 0 to 9, then letters.
abbrev pub digit : ℕ → ℕ
digit r = if leb r 9 then r + 48 else r + 87

-- The digits of `i`, highest first, in front of `s`.
unfoldable pub numeral : (fuel base i : ℕ) → List ℕ → List ℕ
numeral zero base i s = s
numeral (suc fuel) base i s =
    let rest = numeral fuel base (i / base) (digit (i % base) ∷ s) in if i == 0 then s else rest

-- The text of a number: the mark of the base, the sign and the digits.
unfoldable pub shown : ℤ → (base : ℕ) → List ℕ
shown num base =
    if digits_of num base == 0
    then 48 ∷ []
    else mark_chars base (negative num base) ++ numeral itoa_fuel base (digits_of num base) []

-- The buffer, from its end backwards, holds the characters of `s`, none of them 0.
abbrev Back : (ℕ → ℕ) → ℕ → List ℕ → Type 0
Back f j [] = j ≡ 0
Back f j (c ∷ s) = (0 < j) × (f (j - 1) ≡ c) × (c ≢ 0) × Back f (j - 1) s

Back-update : (f : ℕ → ℕ) (i j c : ℕ) (s : List ℕ) → j ≤ i → Back f j s → Back (update f i c) j s
Back-update f i j c [] h b = b
Back-update f i j c (d ∷ s) h b =
    (b.0, ground arith, b.2, Back-update f i (j - 1) c s (omega arith) b.3)

Back-push :
    (b : Buffer) (c : ℕ) (s : List ℕ)
    → c ≢ 0
    → Back b.0 b.1 s
    → Back (push c b).0 (push c b).1 (c ∷ s)
Back-push b c s live back =
    let at : suc b.1 - 1 ≡ b.1 = omega arith in
    (
      omega arith,
      rw at (ground arith),
      live,
      rw at (Back-update b.0 b.1 b.1 c s (omega arith) back),
    )

digit_char-digit : (r : ℕ) → digit_char r ≡ digit r
digit_char-digit r = ground arith

digit-pos : (r : ℕ) → digit r ≢ 0
digit-pos r = ground arith

digits_loop-Back :
    (fuel i base : ℕ) (b b' : Buffer) (s : List ℕ)
    → digits_loop fuel i base b ≡ some b'
    → Back b.0 b.1 s
    → Back b'.0 b'.1 (numeral fuel base i s)
unfolding digits_loop numeral
digits_loop-Back zero i base b b' s e back = cc
digits_loop-Back (suc fuel) i base b b' s e back = elim (Bool-cases (i == 0)) [
  | inl z ↦
      let same : b ≡ b' = ground arith in rw z (subst (λ (x : Buffer). Back x.0 x.1 s) same back)
  | inr nz ↦
      let c = digit (i % base) in
      let same = digit_char-digit (i % base) in
      let e' : digits_loop fuel (i / base) base (push c b) ≡ some b' = rw (nz, same) at e in
      rw nz (
        digits_loop-Back fuel (i / base) base (push c b) b' (c ∷ s) e'
          (Back-push b c s (digit-pos (i % base)) back))
]

sign-Back :
    (sign : Bool) (b : Buffer) (s : List ℕ)
    → Back b.0 b.1 s
    → let b' = if sign then push 45 b else b in Back b'.0 b'.1 ((if sign then 45 ∷ [] else []) ++ s)
sign-Back true b s back = Back-push b 45 s (omega arith) back
sign-Back false b s back = back

base-Back :
    (base : ℕ) (sign : Bool) (b : Buffer) (s : List ℕ)
    → Back b.0 b.1 ((if sign then 45 ∷ [] else []) ++ s)
    → Back (mark_base base b).0 (mark_base base b).1 (mark_chars base sign ++ s)
unfolding mark_base
base-Back base sign b s back =
    let t = (if sign then 45 ∷ [] else []) ++ s in
    elim (Bool-cases (base == 16)) [
      | inl e ↦
          rw e (
            Back-push (push 120 b) 48 (120 ∷ t) (omega arith)
              (Back-push b 120 t (omega arith) back))
      | inr e ↦ elim (Bool-cases (base == 8)) [
        | inl e' ↦ rw (e, e') (Back-push b 48 t (omega arith) back)
        | inr e' ↦ elim (Bool-cases (base == 2)) [
          | inl e'' ↦
              rw (e, e', e'')
                (Back-push (push 98 b) 48 (98 ∷ t) (omega arith)
                  (Back-push b 98 t (omega arith) back))
          | inr e'' ↦ rw (e, e', e'') back
        ]
      ]
    ]

-- What stands backwards before the end `j` stands forwards in the reversed buffer.
Back-IsText :
    (f text : ℕ → ℕ) (end j p : ℕ) (s : List ℕ)
    → ((k : ℕ) → k < end → text (end - 1 - k) ≡ f k)
    → text end ≡ 0
    → p + j ≡ end
    → Back f j s
    → IsText p s text
Back-IsText f text end j p [] at last sum back =
    subst (λ (q : ℕ). text q ≡ 0) {x = end} (omega (arith, sum, back)) last
Back-IsText f text end j p (c ∷ s) at last sum back =
    let pos = back.0 in
    (
      ap text {x = p} {y = end - 1 - (j - 1)} (omega (arith, sum, pos))
          ∙ at (j - 1) (omega (arith, sum, pos))
          ∙ back.1,
      back.2,
      Back-IsText f text end (j - 1) (suc p) s at last (omega (arith, sum, pos)) back.3,
    )

-- The text with the sign and the number that the code computes.
coded : ℤ → (base : ℕ) → List ℕ
coded num base =
    if is_zero_int num
    then 48 ∷ []
    else mark_chars base (magnitude num base).0 ++ numeral itoa_fuel base (magnitude num base).1 []

itoa-coded :
    (num : ℤ) (base : ℕ) (intbuf : ℕ → ℕ)
    → InInt num
    → 2 ≤ base
    → base ≤ 36
    → (text : ℕ → ℕ) × (itoa num base intbuf ≡ some text) × IsText 0 (coded num base) text
unfolding terminate coded
itoa-coded num base intbuf h lo hi = elim (Bool-cases (is_zero_int num)) [
  | inl z ↦ (update (update intbuf 0 48) 1 0, unfold itoa in rw z, rw z (ground arith))
  | inr nz ↦
      let i = (magnitude num base).1 in
      let sign = (magnitude num base).0 in
      let (positive, bounded) = magnitude-bound num base h nz in
      let (b1, ret1, e) =
        digits_loop-Extended itoa_fuel i base (intbuf, 0) (omega (arith, bounded)) lo hi in
      let digits = digits_loop-Back itoa_fuel i base (intbuf, 0) b1 [] ret1 refl in
      let b2 : Buffer = if sign then push 45 b1 else b1 in
      let b3 = mark_base base b2 in
      let back =
        base-Back base sign b2 (numeral itoa_fuel base i [])
          (sign-Back sign b1 (numeral itoa_fuel base i []) digits) in
      let (positive3, small) = marked_length base i sign intbuf b1 e positive bounded in
      let (text, ret3, at) =
        reverse_loop-lem itoa_fuel 0 (b3.1 - 1) (update b3.0 b3.1 0) (omega arith) small in
      (
        text,
        itoa-steps num base intbuf text b1 nz ret1 ret3,
        rw nz (
            Back-IsText b3.0 text b3.1 b3.1 0 _ (λ k l. at (b3.1 - 1 - k) ∙ backwards b3 k l)
              (at b3.1 ∙ terminated b3 positive3) (omega arith) back),
      )
]

coded-shown : (num : ℤ) (base : ℕ) → InInt num → coded num base ≡ shown num base
unfolding coded shown
coded-shown num base h = rw (digits_of-zero num base h) (
    ap
      (λ (r : Bool × ℕ).
        if digits_of num base == 0
        then 48 ∷ []
        else mark_chars base r.0 ++ numeral itoa_fuel base r.1 [])
      (magnitude-digits_of num base h))

-- `itoa` of an `int` in a base from 2 to 36 returns the text `shown`, whatever its buffer held: 0,
-- or the mark of the base, the sign of a negative number in base 10, and the digits of its absolute
-- value in base 10, else of the number as a `uint32_t`, highest first.
pub itoa-shown :
    (num : ℤ) (base : ℕ) (intbuf : ℕ → ℕ)
    → InInt num
    → 2 ≤ base
    → base ≤ 36
    → (text : ℕ → ℕ) × (itoa num base intbuf ≡ some text) × IsText 0 (shown num base) text
itoa-shown num base intbuf h lo hi =
    subst (λ (s : List ℕ). (text : ℕ → ℕ) × (itoa num base intbuf ≡ some text) × IsText 0 s text)
      (coded-shown num base h) (itoa-coded num base intbuf h lo hi)
