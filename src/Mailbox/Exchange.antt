-- ===== src/Mailbox/Exchange.antt =====
-- `send_messages` as a whole: what the video core is handed, and what is made of its answer.
use rpiosv.Base.{
  ℕ, ◌+◌, ◌<◌, ◌≡◌, ◌≢◌, refl, true, false, some, List, ◌∷◌, ◌++◌, ◌==◌, if◌then◌else◌, bit_and,
  bit_or, Addr, null, arith, length, Bool-cases, ◌^◌, inl, inr,
}
use rpiosv.Base.Int.{ℤ, pos, negsuc}
use rpiosv.Memory.{Machine, salloc, sfree}
use rpiosv.Mailbox.{
  MessageTag, Words, Port, System, mailbox_send, mailbox_full, mailbox_empty, property_channel,
  request, response_success, response_error, last_sent, read_back, free_message, answer_message,
  exchange, deliver, send_messages,
}
use rpiosv.Mmio.{poll, ready}
use rpiosv.Mailbox.Registers.{Foreign, mailbox_read-first}
use rpiosv.Mailbox.Layout.{
  ends, message_bytes, message, store, pad_size-buffer_bytes, buffer_bytes, write_message-store,
}
use rpiosv.Mailbox.Response.{read_back-ends}

-- The video core takes a mail, and later answers on the property channel, while the reads of the
-- status show mail often enough.
pub record Answered (port : Port) : Type 0 where
  pub rest : List ℕ
  pub before : List ℕ
  pub res : ℕ
  pub after : List ℕ
  pub polled : poll mailbox_full port.statuses ≡ some rest
  pub mails : port.mails ≡ before ++ (res ∷ after)
  pub foreign : Foreign property_channel before
  pub own : (bit_and res 0xF == property_channel) ≡ true
  pub enough : length before < ready mailbox_empty rest

-- The result of `send_messages` for a response code.
abbrev pub status : ℕ → ℤ
status c =
    if c == request
    then pos 1
    else if c == response_error
    then pos 2
    else if c == response_success
    then pos 0
    else negsuc 0

abbrev pub freed : (msg : Addr) → Machine → Machine
freed msg machine = record machine { memory = sfree msg machine.memory }

-- The array after an answer.
abbrev pub Delivered : (msg : Addr) → (tags tags' : List MessageTag) → Words → Type 0
Delivered msg tags tags' w =
    if w (msg + 4) == response_success
    then read_back tags (msg + 8) w ≡ some tags'
    else (tags' ≡ tags)

answer_message-status :
    (msg : Addr) (tags : List MessageTag) (s : System)
    → ends tags ≡ true
    → (tags' : List MessageTag) × (answer_message msg tags s
        ≡ some (status (s.words (msg + 4)), tags', free_message msg s))
      × Delivered msg tags tags' s.words
unfolding answer_message
answer_message-status msg tags s e = elim (Bool-cases (s.words (msg + 4) == response_success)) [
  | inl good ↦
      let (tags', back) = read_back-ends tags (msg + 8) s.words e in
      let not_request : (s.words (msg + 4) == request) ≡ false = ground arith in
      let not_error : (s.words (msg + 4) == response_error) ≡ false = ground arith in
      (tags', rw (not_request, not_error, good, back), rw good back)
  | inr bad ↦ (tags, rw bad (ground arith), rw bad refl)
]

-- The memory as the video core leaves it.
abbrev pub answered_words :
    (device : ℕ → Words → Words) (msg bufsize : ℕ) → List MessageTag → Words → Words
answered_words device msg bufsize tags m =
    device (bit_or msg property_channel) (store msg (message bufsize tags) m)

module _ (device : ℕ → Words → Words) where
  exchange-Answered :
      (msg : Addr) (s : System)
      → Answered s.port
      → (port : Port) × (exchange device msg s
          ≡ some (record s { words = device (bit_or msg property_channel) s.words; port = port }))
        × (port.sent ≡ bit_or msg property_channel ∷ s.port.sent)
  unfolding exchange mailbox_send last_sent
  exchange-Answered msg s a =
      let sending : Port = record s.port {
        statuses = a.rest;
        sent = bit_or msg property_channel ∷ s.port.sent;
      } in
      let (rest, found) =
        mailbox_read-first property_channel sending a.before a.res a.after a.mails a.foreign a.own
          a.enough in
      (record sending { statuses = rest; mails = a.after }, rw (a.polled, found), refl)

  pub deliver-status :
      (msg bufsize : ℕ) (tags : List MessageTag) (s : System)
      → ends tags ≡ true
      → Answered s.port
      → let w = answered_words device msg bufsize tags s.words in
        (tags' : List MessageTag) × (port : Port) × (deliver device msg bufsize tags s
          ≡ some (
            status (w (msg + 4)),
            tags',
            record s { machine = freed msg s.machine; words = w; port = port },
          ))
        × Delivered msg tags tags' w
        × (port.sent ≡ bit_or msg property_channel ∷ s.port.sent)
  unfolding deliver free_message
  deliver-status msg bufsize tags s e a =
      let written = write_message-store msg bufsize tags s.words e in
      let s' : System = record s { words = store msg (message bufsize tags) s.words } in
      let (port, exchanged, mail) = exchange-Answered msg s' a in
      let w = answered_words device msg bufsize tags s.words in
      let (tags', answered, delivered) =
        answer_message-status msg tags (record s' { words = w; port = port }) e in
      (tags', port, rw (written, exchanged, answered), delivered, mail)

  module _ (tags : List MessageTag) (s : System) (e : ends tags ≡ true)
      (small : message_bytes tags + 16 < 2 ^ 32) where
    pub send_messages-null :
        (machine : Machine)
        → salloc (buffer_bytes tags) s.machine ≡ some (null, machine)
        → send_messages device tags s ≡ some (negsuc 0, tags, record s { machine = machine })
    unfolding send_messages
    send_messages-null machine none' =
        let (n, sized, padded) = pad_size-buffer_bytes tags e small in rw (sized, padded, none')

    pub send_messages-deliver :
        (msg : Addr) (machine : Machine)
        → salloc (buffer_bytes tags) s.machine ≡ some (msg, machine)
        → msg ≢ null
        → send_messages device tags s
          ≡ deliver device msg (buffer_bytes tags) tags (record s { machine = machine })
    unfolding send_messages
    send_messages-deliver msg machine some' live =
        let (n, sized, padded) = pad_size-buffer_bytes tags e small in
        let real : (msg == null) ≡ false = ground arith in rw (sized, padded, some', real)
