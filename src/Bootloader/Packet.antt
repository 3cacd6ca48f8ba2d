-- ===== src/Bootloader/Packet.antt =====
-- What the loader does with a packet: those of the sender are carried out, and one with a wrong byte
-- is refused.
use rpiosv.Base.{
  ℕ, zero, suc, ◌<◌, ◌≡◌, ◌≢◌, refl, ap, sym, ◌∙◌, true, false, none, some, List, [], ◌∷◌, ◌++◌,
  append_assoc, bit_xor, bit_xor-left, bit_xor-right, ◌==◌, Addr, update, arith, Bool-cases, inl,
  inr,
}
use rpiosv.Bootloader.{
  Loader, uart_putc, acknowledge, check_sum, address_loop, perform, finish_packet, receive,
  bootloader_main,
}

-- The loader between packets.
pub record Waiting (l : Loader) : Type 0 where
  pub empty : l.pidx ≡ 0
  pub runs : l.branched ≡ none

-- The ten bytes of a packet in a row.
abbrev pub bytes : (ℕ → ℕ) → List ℕ
bytes f = f 0 ∷ f 1 ∷ f 2 ∷ f 3 ∷ f 4 ∷ f 5 ∷ f 6 ∷ f 7 ∷ f 8 ∷ f 9 ∷ []

check_sum-kept : (n i c : ℕ) (f : ℕ → ℕ) → n < suc i → check_sum n (update f i c) ≡ check_sum n f
unfolding check_sum
check_sum-kept zero i c f h = refl
check_sum-kept (suc n) i c f h =
    let other : update f i c n ≡ f n = ground (arith, h) in
    rw (other, check_sum-kept n i c f (omega arith))

check_sum-changed :
    (n i c : ℕ) (f : ℕ → ℕ) → i < n → c ≢ f i → check_sum n (update f i c) ≢ check_sum n f
unfolding check_sum
check_sum-changed zero i c f h ne e = absurd (omega arith)
check_sum-changed (suc n) i c f h ne e = elim (Bool-cases (n == i)) [
  | inl same ↦
      let here : n ≡ i = ground arith in
      let there : update f i c n ≡ c = ground arith in
      let e' =
        ap (λ t. bit_xor t (update f i c n)) (sym (check_sum-kept n i c f (omega arith))) ∙ e in
      ne (sym there ∙ bit_xor-right (update f i c n) (f n) (check_sum n f) e' ∙ ap f here)
  | inr other ↦
      let there : update f i c n ≡ f n = ground arith in
      check_sum-changed n i c f (ground (arith, h)) ne (
        bit_xor-left (check_sum n (update f i c)) (check_sum n f) (f n)
          (ap (bit_xor (check_sum n (update f i c))) (sym there) ∙ e))
]

-- A packet with one wrong byte is never taken.
wrong_byte :
    (i c : ℕ) (f : ℕ → ℕ)
    → i < 10
    → c ≢ f i
    → check_sum 9 f ≡ f 9
    → (check_sum 9 (update f i c) == update f i c 9) ≡ false
wrong_byte i c f h ne ok = elim (Bool-cases (9 == i)) [
  | inl e ↦ ground (arith, check_sum-kept 9 i c f (ground arith))
  | inr e ↦ ground (arith, check_sum-changed 9 i c f (ground (arith, h)) ne)
]

-- The packet buffer after the bytes `f 0` to `f (n - 1)`.
unfoldable pub filled : ℕ → (ℕ → ℕ) → (ℕ → ℕ) → ℕ → ℕ
filled zero f p = p
filled (suc n) f p = update (filled n f p) n (f n)

-- A loader that has `n` bytes of a packet.
abbrev pub holding : ℕ → (ℕ → ℕ) → Loader → Loader
holding n f l = record l { packet = filled n f l.packet; pidx = n; branched = none }

-- Ten bytes fill the packet, which is then finished.
pub fill :
    (f : ℕ → ℕ) (l : Loader)
    → bootloader_main (bytes f) (holding 0 f l)
      ≡ finish_packet (record (holding 10 f l) { pidx = 0 })
unfolding bootloader_main receive filled
fill f l = refl

pub Waiting-holding : (f : ℕ → ℕ) (l : Loader) → Waiting l → l ≡ holding 0 f l
unfolding filled
Waiting-holding f l w = λ i. record l { pidx = w.empty i; branched = w.runs i }

pub acknowledge-none : (l : Loader) → l.branched ≡ none → acknowledge l ≡ uart_putc 0xff l
unfolding acknowledge
acknowledge-none l r = rw r

pub acknowledge-some : (l : Loader) (p : Addr) → l.branched ≡ some p → acknowledge l ≡ l
unfolding acknowledge
acknowledge-some l p r = rw r

-- What follows a test of the check sum.
finish-bad :
    (l : Loader)
    → (check_sum 9 l.packet == l.packet 9) ≡ false
    → finish_packet l ≡ acknowledge (uart_putc 0x04 (uart_putc 0x00 l))
unfolding finish_packet
finish-bad l bad = rw bad

pub finish-good :
    (l : Loader)
    → (check_sum 9 l.packet == l.packet 9) ≡ true
    → finish_packet l ≡ acknowledge (perform (address_loop 4 l.packet 0) l)
unfolding finish_packet
finish-good l good = rw good

-- The loader after a packet, which has sent `out`.
abbrev pub answered : (ℕ → ℕ) → List ℕ → Loader → Loader
answered f out l = record l {
  packet = filled 10 f l.packet;
  pidx = 0;
  branched = none;
  sent = l.sent ++ out;
}

pub append_bytes :
    (xs : List ℕ) (a b c : ℕ) → ((xs ++ a ∷ []) ++ b ∷ []) ++ c ∷ [] ≡ xs ++ a ∷ b ∷ c ∷ []
append_bytes xs a b c =
    append_assoc (xs ++ a ∷ []) (b ∷ []) (c ∷ []) ∙ append_assoc xs (a ∷ []) (b ∷ c ∷ [])

-- A packet whose check sum is right but for one byte changes no memory and starts nothing: the
-- loader answers 0x00, 0x04 and 0xff, and waits for the next packet.
pub bootloader_main-wrong_byte :
    (i c : ℕ) (f : ℕ → ℕ) (l : Loader)
    → Waiting l
    → i < 10
    → c ≢ f i
    → check_sum 9 f ≡ f 9
    → bootloader_main (bytes (update f i c)) l ≡ answered (update f i c) (0x00 ∷ 0x04 ∷ 0xff ∷ []) l
unfolding check_sum filled
bootloader_main-wrong_byte i c f l w h ne ok =
    let f' = update f i c in
    let start = ap (bootloader_main (bytes f')) (Waiting-holding f' l w) in
    let bad = wrong_byte i c f h ne ok in
    let full = record (holding 10 f' l) { pidx = 0 } in
    start
    ∙ fill f' l
    ∙ finish-bad full bad
    ∙ acknowledge-none (uart_putc 0x04 (uart_putc 0x00 full)) refl
    ∙ ap (λ out. record l { packet = filled 10 f' l.packet; pidx = 0; branched = none; sent = out })
        (append_bytes l.sent 0x00 0x04 0xff)
