-- ===== src/Stdlib/Digits.antt =====
-- The loops of `itoa`: the digits are those of the number, and the reversal is one.
use rpiosv.Base.{
  ℕ, zero, suc, ◌+◌, ◌-◌, ◌*◌, ◌/◌, ◌%◌, ◌<◌, ◌≤◌, ◌≡◌, ◌≢◌, refl, ap, fun_ext, ◌∙◌, Bool, false,
  ◌&&◌, some, ltb, leb, ◌==◌, if◌then◌else◌, update, arith, Bool-cases, inl, inr,
}
use native.Mathlib.Nat.{mod-lt, mod-add-div, div-lt_self}
use rpiosv.Stdlib.{Buffer, push, digit_char, digits_loop, reverse_loop}

-- The digit that a character stands for.
abbrev pub digit_of : ℕ → ℕ
digit_of c = if ltb c 58 then c - 48 else c - 87

-- The value of `n` characters, lowest digit first.
abbrev pub value_of : (base : ℕ) → (ℕ → ℕ) → (n : ℕ) → ℕ
value_of base g zero = 0
value_of base g (suc n) = digit_of (g 0) + base * value_of base (λ k. g (suc k)) n

digit_of-digit_char : (r : ℕ) → r < 36 → digit_of (digit_char r) ≡ r
digit_of-digit_char r h = ground (arith, h)

-- A buffer that was extended by the digits of `i`.
pub record Extended (base i : ℕ) (b b' : Buffer) : Type 0 where
  pub count : ℕ
  pub end : b'.1 ≡ count + b.1
  pub value : value_of base (λ k. b'.0 (k + b.1)) count ≡ i
  pub kept : (k : ℕ) → k < b.1 → b'.0 k ≡ b.0 k
  pub some_digit : i ≢ 0 → count ≢ 0
  pub few : count ≤ i

-- One digit more.
extend :
    (base i : ℕ) (b b' : Buffer)
    → 0 < i
    → 2 ≤ base
    → base ≤ 36
    → Extended base (i / base) (push (digit_char (i % base)) b) b'
    → Extended base i b b'
extend base i b b' some_i lo hi e =
    let c = digit_char (i % base) in
    let r : i % base < base = mod-lt i (omega (arith, lo)) in
    let at : (push c b).0 b.1 ≡ c = ground arith in
    let first : b'.0 (0 + b.1) ≡ c = ap b'.0 (omega arith) ∙ e.kept b.1 (omega arith) ∙ at in
    let digit = ap digit_of first ∙ digit_of-digit_char (i % base) (omega (arith, r, hi)) in
    let shift = fun_ext (λ (k : ℕ). ap b'.0 {x = suc k + b.1} {y = k + suc b.1} (omega arith)) in
    let rest = ap (λ (g : ℕ → ℕ). value_of base g e.count) shift ∙ e.value in
    record {
      count = suc e.count;
      end = omega (arith, e.end);
      value = rw (digit, rest) (mod-add-div i base);
      kept = λ k l. e.kept k (omega (arith, l)) ∙ ground (arith, l);
      some_digit = λ ne z. omega (arith, z);
      few = omega (arith, e.few, div-lt_self {n = i} {k = base} some_i (omega (arith, lo)));
    }

pub digits_loop-Extended :
    (fuel i base : ℕ) (b : Buffer)
    → i < fuel
    → 2 ≤ base
    → base ≤ 36
    → (b' : Buffer) × (digits_loop fuel i base b ≡ some b') × Extended base i b b'
unfolding digits_loop
digits_loop-Extended zero i base b h lo hi = absurd (omega arith)
digits_loop-Extended (suc fuel) zero base b h lo hi = (
  b,
  refl,
  record {
    count = 0;
    end = omega arith;
    value = refl;
    kept = λ k l. refl;
    some_digit = λ ne e. ne refl;
    few = omega arith;
  },
)
digits_loop-Extended (suc fuel) (suc i) base b h lo hi =
    let r : suc i % base < base = mod-lt (suc i) (omega (arith, lo)) in
    let q : suc i / base < fuel =
      omega (arith, h, div-lt_self {n = suc i} {k = base} (omega arith) (omega (arith, lo))) in
    let (b', returns, e) =
      digits_loop-Extended fuel (suc i / base) base (push (digit_char (suc i % base)) b) q lo hi in
    let nz : (suc i == 0) ≡ false = ground arith in
    (b', rw (digits_loop, nz) returns, extend base (suc i) b b' (omega arith) lo hi e)

-- `k` within the part that is reversed.
abbrev pub between : ℕ → ℕ → ℕ → Bool
between i j k = leb i k && leb k j

-- One swap, and the reversal of what stands between.
swap : (i j : ℕ) (buf : ℕ → ℕ) → ℕ → ℕ
swap i j buf = update (update buf i (buf j)) j (buf i)

swap-between :
    (i j k : ℕ) (buf : ℕ → ℕ)
    → i < j
    → (if between (suc i) (j - 1) k then swap i j buf (suc i + (j - 1) - k) else swap i j buf k)
      ≡ (if between i j k then buf (i + j - k) else buf k)
unfolding swap
swap-between i j k buf h = elim (Bool-cases (k == i)) [
  | inl e ↦
      let here : k ≡ i = ground arith in
      let at : i + j - k ≡ j = omega (arith, here) in rw at (ground (arith, h, here))
  | inr e ↦ elim (Bool-cases (k == j)) [
    | inl e' ↦
        let here : k ≡ j = ground arith in
        let at : i + j - k ≡ i = omega (arith, here) in rw at (ground (arith, h, here))
    | inr e' ↦
        let at : suc i + (j - 1) - k ≡ i + j - k = omega (arith, h) in rw at (ground (arith, h))
  ]
]

unmoved :
    (i j k : ℕ) (buf : ℕ → ℕ) → j ≤ i → buf k ≡ (if between i j k then buf (i + j - k) else buf k)
unmoved i j k buf h = elim (Bool-cases (between i j k)) [
  | inl e ↦ let at : k ≡ i + j - k = ground (arith, h, e) in rw e (ap buf at)
  | inr e ↦ rw e
]

pub reverse_loop-lem :
    (fuel i j : ℕ) (buf : ℕ → ℕ)
    → 0 < fuel
    → j < i + fuel
    → (buf' : ℕ → ℕ) × (reverse_loop fuel i j buf ≡ some buf')
      × ((k : ℕ) → buf' k ≡ (if between i j k then buf (i + j - k) else buf k))
unfolding reverse_loop swap
reverse_loop-lem zero i j buf some_fuel h = absurd (omega arith)
reverse_loop-lem (suc fuel) i j buf some_fuel h = elim (Bool-cases (ltb i j)) [
  | inl e ↦
      let lt : i < j = ground arith in
      let (buf', returns, at) =
        reverse_loop-lem fuel (suc i) (j - 1) (swap i j buf) (omega (arith, h, lt))
          (omega (arith, h, lt)) in
      (buf', rw (reverse_loop, e) returns, λ k. at k ∙ swap-between i j k buf lt)
  | inr e ↦ (buf, rw (reverse_loop, e) refl, λ k. unmoved i j k buf (ground arith))
]

pub value_of-same :
    (base n : ℕ) (g h : ℕ → ℕ)
    → ((k : ℕ) → k < n → g k ≡ h k)
    → value_of base g n ≡ value_of base h n
value_of-same base zero g h same = refl
value_of-same base (suc n) g h same = rw (
  same 0 (omega arith),
  value_of-same base n (λ k. g (suc k)) (λ k. h (suc k)) (λ k l. same (suc k) (omega (arith, l))),
)
