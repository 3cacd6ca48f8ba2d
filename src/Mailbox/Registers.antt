-- ===== src/Mailbox/Registers.antt =====
-- The loops that wait on the mailbox's registers.
use rpiosv.Base.{ℕ, ◌<◌, ◌≡◌, true, false, some, List, [], ◌∷◌, ◌++◌, ◌==◌, arith, length, bit_and}
use rpiosv.Mmio.{ready, poll-ready}
use rpiosv.Mailbox.{Port, read_loop, mailbox_read, mailbox_empty}

-- The mails are of other channels.
abbrev pub Foreign : (channel : ℕ) → List ℕ → Type 0
Foreign channel [] = Unit
Foreign channel (m ∷ mails) = ((bit_and m 0xF == channel) ≡ false) × Foreign channel mails

read_loop-first :
    (channel : ℕ) (statuses before : List ℕ) (res : ℕ) (after : List ℕ)
    → Foreign channel before
    → (bit_and res 0xF == channel) ≡ true
    → length before < ready mailbox_empty statuses
    → (rest : List ℕ) × (read_loop channel statuses (before ++ (res ∷ after))
        ≡ some (res, rest, after))
unfolding read_loop
read_loop-first channel statuses [] res after foreign own h =
    let (rest, left, _) = poll-ready mailbox_empty statuses (omega arith) in (rest, rw (left, own))
read_loop-first channel statuses (m ∷ before) res after foreign own h =
    let (now, left, counted) = poll-ready mailbox_empty statuses (omega arith) in
    let (rest, found) =
      read_loop-first channel now before res after foreign.1 own (omega (arith, counted)) in
    (rest, rw (left, foreign.0, found))

-- `mailbox_read` returns the first mail of its channel, and drops the mails of other channels
-- before it, once as many reads of the status show mail as there are mails up to that one.
pub mailbox_read-first :
    (channel : ℕ) (port : Port) (before : List ℕ) (res : ℕ) (after : List ℕ)
    → port.mails ≡ before ++ (res ∷ after)
    → Foreign channel before
    → (bit_and res 0xF == channel) ≡ true
    → length before < ready mailbox_empty port.statuses
    → (rest : List ℕ) × (mailbox_read channel port
        ≡ some (res, record port { statuses = rest; mails = after }))
unfolding mailbox_read
mailbox_read-first channel port before res after mails foreign own h =
    let (rest, found) = read_loop-first channel port.statuses before res after foreign own h in
    (rest, rw (mails, found))
