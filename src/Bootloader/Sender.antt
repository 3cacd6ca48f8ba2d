-- ===== src/Bootloader/Sender.antt =====
-- The packets that serial/forward.py sends. A number of Python has no bound, and a byte sent is one
-- below 256.
use rpiosv.Base.{ℕ, zero, suc, ◌-◌, ◌/◌, ◌%◌, List, [], ◌∷◌, ◌++◌, bit_xor, length}

-- The loops that append the four bytes of `addr`, lowest first.
unfoldable pub address_bytes : ℕ → ℕ → List ℕ
address_bytes zero addr = []
address_bytes (suc n) addr = addr % 256 ∷ address_bytes n (addr / 256)

-- `cs` over the first `n` bytes.
unfoldable pub sum_of : (cs n : ℕ) → List ℕ → ℕ
sum_of cs zero bytes = cs
sum_of cs (suc n) [] = cs
sum_of cs (suc n) (b ∷ bytes) = sum_of (bit_xor cs b) n bytes

-- The bytes cut to one byte each.
unfoldable pub low_bytes : List ℕ → List ℕ
low_bytes [] = []
low_bytes (b ∷ bts) = b % 256 ∷ low_bytes bts

-- The loop that fills up with zeros.
unfoldable pub zeros : ℕ → List ℕ
zeros zero = []
zeros (suc n) = 0 ∷ zeros n

unfoldable pub write_write : (addr : ℕ) → (bts : List ℕ) → List ℕ
unfolding address_bytes low_bytes zeros sum_of
write_write addr bts =
    let bytes = 0x01 ∷ (address_bytes 4 addr ++ low_bytes bts) in
    let bytes' = bytes ++ zeros (9 - length bytes) in bytes' ++ sum_of 0 9 bytes' ∷ []

unfoldable pub write_read : (addr : ℕ) → List ℕ
unfolding address_bytes sum_of
write_read addr =
    let bytes = 0x04 ∷ (address_bytes 4 addr ++ 0xff ∷ 0xff ∷ 0xff ∷ 0xff ∷ []) in
    bytes ++ sum_of 0 9 bytes ∷ []

unfoldable pub write_jump : (addr : ℕ) → List ℕ
unfolding address_bytes sum_of
write_jump addr =
    let bytes = 0x02 ∷ (address_bytes 4 addr ++ 0xff ∷ 0xff ∷ 0xff ∷ 0xff ∷ []) in
    bytes ++ sum_of 0 9 bytes ∷ []
