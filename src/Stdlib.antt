-- ===== src/Stdlib.antt =====
-- The conversion of numbers and the copying of memory in src/stdlib.c. A buffer is a map from positions to characters: a
-- position from 33 on lies outside `intbuf`.
pub mod Digits
pub mod Itoa
pub mod Shown
pub mod Bound
pub mod Copy
mod Examples
use rpiosv.Base.{
  ℕ, zero, suc, ◌+◌, ◌-◌, ◌*◌, ◌/◌, ◌%◌, ◌^◌, Bool, true, false, ◌&&◌, Option, none, some, ltb, leb,
  ◌==◌, ◌>>=◌, if◌then◌else◌, Addr, update,
}
use rpiosv.Base.Int.{ℤ, pos, negsuc}

-- `intbuf` and `j`.
abbrev pub Buffer : Type 0
Buffer = (ℕ → ℕ) × ℕ

-- `intbuf[j++] = c`
abbrev pub push : ℕ → Buffer → Buffer
push c b = (update b.0 b.1 c, suc b.1)

abbrev pub digit_char : ℕ → ℕ
digit_char r = if ltb r 10 then 48 + r else 97 + r - 10

-- `while (i != 0)`. `none` stands for a loop that has not ended.
pub digits_loop : (fuel i base : ℕ) → Buffer → Option Buffer
digits_loop zero i base b = none
digits_loop (suc fuel) i base b =
    let rest = digits_loop fuel (i / base) base (push (digit_char (i % base)) b) in
    if i == 0 then some b else rest

-- What is put behind the digits, last character first.
pub mark_base : (base : ℕ) → Buffer → Buffer
mark_base base b =
    if base == 16
    then push 48 (push 120 b)
    else if base == 8
    then push 48 b
    else if base == 2
    then push 48 (push 98 b)
    else b

-- `while (i < j)`, which swaps from both ends.
pub reverse_loop : (fuel i j : ℕ) → (ℕ → ℕ) → Option (ℕ → ℕ)
reverse_loop zero i j buf = none
reverse_loop (suc fuel) i j buf =
    let rest = reverse_loop fuel (suc i) (j - 1) (update (update buf i (buf j)) j (buf i)) in
    if ltb i j then rest else some buf

-- Whether a sign is put down, and the number as a `uint32_t`.
unfoldable pub magnitude : ℤ → (base : ℕ) → Bool × ℕ
magnitude (pos n) base = (false, n % 2 ^ 32)
magnitude (negsuc n) base = if base == 10 then (true, suc n % 2 ^ 32) else (false, 2 ^ 32 - suc n)

unfoldable pub is_zero_int : ℤ → Bool
is_zero_int (pos n) = n == 0
is_zero_int (negsuc n) = false

-- A `uint32_t` has fewer rounds than its value, and a buffer fewer than its length.
abbrev pub itoa_fuel : ℕ
itoa_fuel = 2 ^ 33

-- The end of `itoa`: the terminator, and the reversal of what stands before it.
pub terminate : Buffer → Option (ℕ → ℕ)
terminate b = reverse_loop itoa_fuel 0 (b.1 - 1) (update b.0 b.1 0)

pub itoa : (num : ℤ) (base : ℕ) → (ℕ → ℕ) → Option (ℕ → ℕ)
unfolding is_zero_int magnitude
itoa num base intbuf = if is_zero_int num then some (update (update intbuf 0 48) 1 0) else do
  b ← digits_loop itoa_fuel (magnitude num base).1 base (intbuf, 0)
  terminate (mark_base base (if (magnitude num base).0 then push 45 b else b))

abbrev pub is_digit : ℕ → Bool
is_digit c = leb 48 c && leb c 57

-- The loop that looks for the end of the number. `none` stands for one that has not ended.
pub find_end : (fuel : ℕ) → (text : Addr → ℕ) → (num : Addr) → Option Addr
find_end zero text num = none
find_end (suc fuel) text num =
    let rest = find_end fuel text ((num + 1) % 2 ^ 32) in
    if is_digit (text num) then rest else some num

pub times_ten : (power digit : ℕ) → ℕ
times_ten zero digit = digit
times_ten (suc power) digit = times_ten power (digit * 10 % 2 ^ 32)

-- The loop back to the start. An `int` is kept as a `uint32_t`.
pub sum_loop : (fuel : ℕ) → (text : Addr → ℕ) → (start num : Addr) → (power res : ℕ) → Option ℕ
unfolding times_ten
sum_loop zero text start num power res = none
sum_loop (suc fuel) text start num power res =
    let digit = times_ten power ((text num + 2 ^ 32 - 48) % 2 ^ 32) in
    let rest =
      sum_loop fuel text start ((num + 2 ^ 32 - 1) % 2 ^ 32) (suc power) ((res + digit) % 2 ^ 32) in
    if num == start then some res else rest

pub atoi : (fuel : ℕ) → (text : Addr → ℕ) → (num : Addr) → Option ℕ
unfolding find_end sum_loop
atoi fuel text num = do
  end ← find_end fuel text num
  sum_loop fuel text num ((end + 2 ^ 32 - 1) % 2 ^ 32) 0 0

-- Memory by bytes. The areas do not reach past the end of memory.
pub mcpy : (dest src : Addr) (bytes : ℕ) → (Addr → ℕ) → Addr → ℕ
mcpy dest src zero m = m
mcpy dest src (suc bytes) m = mcpy (suc dest) (suc src) bytes (update m dest (m src))

pub mzero : (dest : Addr) (bytes : ℕ) → (Addr → ℕ) → Addr → ℕ
mzero dest zero m = m
mzero dest (suc bytes) m = mzero (suc dest) bytes (update m dest 0)
