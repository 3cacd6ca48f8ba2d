-- ===== src/Bootloader/RoundTrip.antt =====
-- The packets of the sender, carried out by the loader.
use rpiosv.Base.{
  ℕ, zero, suc, ◌+◌, ◌*◌, ◌/◌, ◌%◌, ◌^◌, ◌<◌, ◌≡◌, refl, ap, ◌∙◌, true, some, List, [], ◌∷◌, ◌++◌,
  bit_or, bit_or-shift, ◌==◌, Addr, update, arith,
}
use rpiosv.Bootloader.{
  Loader, acknowledge, check_sum, address_loop, store_loop, perform, bootloader_main,
}
use rpiosv.Bootloader.Sender.{
  write_write, write_read, write_jump, address_bytes, low_bytes, zeros, sum_of,
}
use rpiosv.Bootloader.Packet.{
  Waiting, Waiting-holding, filled, holding, fill, finish-good, acknowledge-none, acknowledge-some,
  append_bytes,
}

-- The four bytes of an address, lowest first, give it back.
address_loop-bytes :
    (p : ℕ → ℕ) (addr : ℕ)
    → addr < 2 ^ 32
    → p 1 ≡ addr % 256
    → p 2 ≡ addr / 256 % 256
    → p 3 ≡ addr / 256 / 256 % 256
    → p 4 ≡ addr / 256 / 256 / 256 % 256
    → address_loop 4 p 0 ≡ addr
unfolding address_loop
address_loop-bytes p addr h e1 e2 e3 e4 =
    let s4 : bit_or 0 (p 4) ≡ p 4 = bit_or-shift 0 (p 4) (omega (arith, e4)) ∙ omega arith in
    let s3 = bit_or-shift (p 4) (p 3) (omega (arith, e3)) in
    let s2 = bit_or-shift (p 4 * 256 + p 3) (p 2) (omega (arith, e2)) in
    let s1 = bit_or-shift ((p 4 * 256 + p 3) * 256 + p 2) (p 1) (omega (arith, e1)) in
    let w3 : p 4 * 256 % 2 ^ 32 ≡ p 4 * 256 = omega (arith, e4) in
    let w2 : (p 4 * 256 + p 3) * 256 % 2 ^ 32 ≡ (p 4 * 256 + p 3) * 256 = omega (arith, e4, e3) in
    let w1 : ((p 4 * 256 + p 3) * 256 + p 2) * 256 % 2 ^ 32
        ≡ ((p 4 * 256 + p 3) * 256 + p 2) * 256 =
      omega (arith, e4, e3, e2) in
    rw (s4, w3, s3, w2, s2, w1, s1) (omega (arith, h, e1, e2, e3, e4))

-- An element of a list.
abbrev pub listed : List ℕ → ℕ → ℕ
listed [] n = 0
listed (x ∷ xs) zero = x
listed (x ∷ xs) (suc n) = listed xs n

equal : (x : ℕ) → (x == x) ≡ true
equal x = ground arith

-- The loader with a whole packet.
abbrev pub full : List ℕ → Loader → Loader
full xs l = record (holding 10 (listed xs) l) { pidx = 0 }

-- What `write_write` puts into memory.
abbrev pub stored : (addr d0 d1 d2 d3 : ℕ) → (Addr → ℕ) → Addr → ℕ
stored addr d0 d1 d2 d3 m =
    update
      (update (update (update m ((addr + 0) % 2 ^ 32) (d0 % 256)) ((addr + 1) % 2 ^ 32) (d1 % 256))
        ((addr + 2) % 2 ^ 32) (d2 % 256))
      ((addr + 3) % 2 ^ 32) (d3 % 256)

module _ (addr : ℕ) (high : addr < 2 ^ 32) (l : Loader) where
  -- `write_write` with four numbers: the loader stores the low byte of each, in order, from `addr`
  -- on, answers 0xff, and waits for the next packet.
  pub bootloader_main-write_write :
      (d0 d1 d2 d3 : ℕ)
      → Waiting l
      → let xs = write_write addr (d0 ∷ d1 ∷ d2 ∷ d3 ∷ []) in
        bootloader_main xs l ≡ record (full xs l) {
          memory = stored addr d0 d1 d2 d3 l.memory;
          sent = l.sent ++ 0xff ∷ [];
        }
  unfolding check_sum perform store_loop write_write address_bytes low_bytes zeros sum_of filled
  bootloader_main-write_write d0 d1 d2 d3 w =
      let xs = write_write addr (d0 ∷ d1 ∷ d2 ∷ d3 ∷ []) in
      let start = ap (bootloader_main xs) (Waiting-holding (listed xs) l w) in
      let at = address_loop-bytes (full xs l).packet addr high refl refl refl refl in
      start
      ∙ fill (listed xs) l
      ∙ finish-good (full xs l) (equal (check_sum 9 (full xs l).packet))
      ∙ ap (λ p. acknowledge (perform p (full xs l))) at
      ∙ acknowledge-none (perform addr (full xs l)) refl

  -- `write_read`: the loader answers 0x88, the byte at `addr` and 0xff, and changes no memory.
  pub bootloader_main-write_read :
      Waiting l
      → let xs = write_read addr in
        bootloader_main xs l
        ≡ record (full xs l) { sent = l.sent ++ 0x88 ∷ l.memory addr ∷ 0xff ∷ [] }
  unfolding check_sum perform write_read address_bytes sum_of filled
  bootloader_main-write_read w =
      let xs = write_read addr in
      let start = ap (bootloader_main xs) (Waiting-holding (listed xs) l w) in
      let at = address_loop-bytes (full xs l).packet addr high refl refl refl refl in
      start
      ∙ fill (listed xs) l
      ∙ finish-good (full xs l) (equal (check_sum 9 (full xs l).packet))
      ∙ ap (λ p. acknowledge (perform p (full xs l))) at
      ∙ acknowledge-none (perform addr (full xs l)) refl
      ∙ ap (λ out. record (full xs l) { sent = out })
          (append_bytes l.sent 0x88 (l.memory addr) 0xff)

  -- `write_jump`: the loader branches to `addr`, answers nothing, and changes no memory.
  pub bootloader_main-write_jump :
      Waiting l
      → let xs = write_jump addr in
        bootloader_main xs l ≡ record (full xs l) { branched = some addr }
  unfolding check_sum perform write_jump address_bytes sum_of filled
  bootloader_main-write_jump w =
      let xs = write_jump addr in
      let start = ap (bootloader_main xs) (Waiting-holding (listed xs) l w) in
      let at = address_loop-bytes (full xs l).packet addr high refl refl refl refl in
      start
      ∙ fill (listed xs) l
      ∙ finish-good (full xs l) (equal (check_sum 9 (full xs l).packet))
      ∙ ap (λ p. acknowledge (perform p (full xs l))) at
      ∙ acknowledge-some (perform addr (full xs l)) addr refl
