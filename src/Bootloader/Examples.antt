-- ===== src/Bootloader/Examples.antt =====
-- The theorems on the loader at one state of it.
use rpiosv.Base.{ℕ, ◌≡◌, refl, none, some, [], ◌∷◌, arith, update}
use rpiosv.Bootloader.{Loader, check_sum, bootloader_main}
use rpiosv.Bootloader.Sender.{write_write, write_jump}
use rpiosv.Bootloader.Packet.{Waiting, bytes, answered, bootloader_main-wrong_byte}
use rpiosv.Bootloader.RoundTrip.{
  listed, full, stored, bootloader_main-write_write, bootloader_main-write_jump,
}

abbrev started : Loader
started = record { packet = λ i. 0; pidx = 0; memory = λ p. 7; sent = []; branched = none }

waits : Waiting started
waits = record { empty = refl; runs = refl }

-- A packet that jumps to 0x8000.
abbrev jump : ℕ → ℕ
jump = listed (2 ∷ 0 ∷ 0x80 ∷ 0 ∷ 0 ∷ 0xff ∷ 0xff ∷ 0xff ∷ 0xff ∷ 0x82 ∷ [])

bootloader_main-wrong_byte_example :
    bootloader_main (bytes (update jump 2 0x90)) started
    ≡ answered (update jump 2 0x90) (0x00 ∷ 0x04 ∷ 0xff ∷ []) started
bootloader_main-wrong_byte_example =
    bootloader_main-wrong_byte 2 0x90 jump started waits (omega arith) (ground arith)
      (unfold check_sum in refl)

bootloader_main-write_write_example :
    let xs = write_write 0x8000 (1 ∷ 2 ∷ 3 ∷ 4 ∷ []) in
    bootloader_main xs started
    ≡ record (full xs started) { memory = stored 0x8000 1 2 3 4 started.memory; sent = 0xff ∷ [] }
bootloader_main-write_write_example =
    bootloader_main-write_write 0x8000 (omega arith) started 1 2 3 4 waits

bootloader_main-write_jump_example :
    let xs = write_jump 0x8000 in
    bootloader_main xs started ≡ record (full xs started) { branched = some 0x8000 }
bootloader_main-write_jump_example = bootloader_main-write_jump 0x8000 (omega arith) started waits
