-- ===== src/Mailbox/Sending.antt =====
-- The theorems on `send_messages`: what the video core is handed, the result for every answer,
-- and the heap afterwards.
use rpiosv.Base.{
  ℕ, ◌+◌, ◌*◌, ◌%◌, ◌^◌, ◌≤◌, ◌<◌, ◌≡◌, ◌≢◌, ◌⊎◌, ◌∙◌, refl, ap, true, some, List, ◌∷◌, Addr, null,
  arith, length, Option-cases, inl, inr,
}
use rpiosv.Base.Int.{ℤ, pos, negsuc}
use rpiosv.Memory.{Machine, salloc, round_size}
use rpiosv.Memory.Blocks.{Block, first_fit}
use rpiosv.Memory.Take.{IsHeap}
use rpiosv.Memory.Salloc.{answer, salloc-first_fit}
use rpiosv.Memory.Caller.{Unused, Full, salloc-Unused, salloc-Full}
use rpiosv.Mailbox.{
  MessageTag, Words, Port, System, property_channel, response_success, send_messages,
}
use rpiosv.Mailbox.Layout.{
  ends, message_bytes, buffer_bytes, message, store, Holds, store-Holds, store-below, store-above,
}
use rpiosv.Mailbox.Response.{SameTags, Replied, overlay_all, read_back-overlay}
use rpiosv.Mailbox.Exchange.{
  Answered, status, freed, Delivered, deliver-status, send_messages-null, send_messages-deliver,
}
use rpiosv.Mailbox.Block.{in_use, salloc-sfree-in_use, bit_or-aligned}

buffer_bytes-bounds :
    (tags : List MessageTag)
    → (message_bytes tags ≤ buffer_bytes tags) × (buffer_bytes tags < message_bytes tags + 16)
unfolding buffer_bytes
buffer_bytes-bounds tags = (omega arith, omega arith)

length-message : (n : ℕ) (tags : List MessageTag) → 4 * length (message n tags) ≡ message_bytes tags
unfolding message_bytes
length-message n tags = omega arith

-- Where the message stands when the mail is written.
pub record Handed (lo hi : Addr) (bs : List Block) (tags : List MessageTag) (msg : Addr)
    (m m' : Words) : Type 0 where
  pub aligned : msg % 16 ≡ 0
  pub above : lo + 16 ≤ msg
  pub below : msg + message_bytes tags ≤ hi
  pub unused : Unused msg (buffer_bytes tags) bs
  pub room : message_bytes tags ≤ buffer_bytes tags
  pub holds : Holds msg (message (buffer_bytes tags) tags) m'
  pub frame : (q : Addr) → (q < msg) ⊎ (msg + message_bytes tags ≤ q) → m' q ≡ m q

module _ (device : ℕ → Words → Words) (tags : List MessageTag) (s : System) (lo hi : Addr)
    (bs : List Block) (is : IsHeap lo hi s.machine.memory bs) (e : ends tags ≡ true)
    (small : message_bytes tags + 32 < 2 ^ 32) where
  -- On a well-formed heap without room for the message `send_messages` returns -1, with the array
  -- and the state as they were.
  pub send_messages-Full :
      Full (round_size (buffer_bytes tags)) bs
      → send_messages device tags s ≡ some (negsuc 0, tags, s)
  send_messages-Full full =
      send_messages-null device tags s e (omega (arith, small)) s.machine
        ((salloc-Full (buffer_bytes tags) lo hi s.machine bs is).1 full)

  module _ (msg : Addr) (machine : Machine)
      (some' : salloc (buffer_bytes tags) s.machine ≡ some (msg, machine)) (live : msg ≢ null)
      (a : Answered s.port) where
    handed_words : Words
    handed_words = store msg (message (buffer_bytes tags) tags) s.words

    handed : Handed lo hi bs tags msg s.words handed_words
    unfolding handed_words
    handed =
        let bounds = buffer_bytes-bounds tags in
        let (al, ab, be, un) =
          salloc-Unused (buffer_bytes tags) lo hi s.machine bs is msg machine
            (omega (arith, bounds, small)) some' live in
        let ws = message (buffer_bytes tags) tags in
        let len = length-message (buffer_bytes tags) tags in
        record {
          aligned = al;
          above = ab;
          below = omega (arith, be, bounds);
          unused = un;
          room = bounds.0;
          holds = store-Holds msg ws s.words;
          frame = λ q h. elim h [
            | inl b ↦ store-below msg q ws s.words b
            | inr b ↦ store-above msg q ws s.words (omega (arith, b, len))
          ];
        }

    sent_words : Words
    sent_words = device (msg + property_channel) handed_words

    sent :
        (tags' : List MessageTag) × (port : Port) × (send_messages device tags s
          ≡ some (
            status (sent_words (msg + 4)),
            tags',
            record s { machine = freed msg machine; words = sent_words; port = port },
          ))
        × Delivered msg tags tags' sent_words
        × (port.sent ≡ (msg + 8) ∷ s.port.sent)
    unfolding handed_words sent_words
    sent =
        let mixed = bit_or-aligned msg property_channel handed.aligned (omega arith) in
        let (tags', port, done, delivered, mail) =
          deliver-status device msg (buffer_bytes tags) tags (record s { machine = machine }) e a in
        (
          tags',
          port,
          send_messages-deliver device tags s e (omega (arith, small)) msg machine some' live
              ∙ rw mixed at done,
          rw mixed at delivered,
          rw mixed at mail,
        )

    -- With a block at `msg`, and a video core that answers, `send_messages` returns. It writes one
    -- mail, `msg + 8`, and the video core gets it while memory is as before, but for the message, in the bytes
    -- of the block. The block is aligned to 16 bytes, lies in the heap, and meets no block in use.
    -- The result is 1, 2, 0 or -1 by the response code that the video core left, and the block is
    -- freed for each.
    pub send_messages-Handed :
        (m : Words) × Handed lo hi bs tags msg s.words m
        × (tags' : List MessageTag) × (port : Port) × (send_messages device tags s
            ≡ some (
              status (device (msg + 8) m (msg + 4)),
              tags',
              record s { machine = freed msg machine; words = device (msg + 8) m; port = port },
            ))
        × (port.sent ≡ (msg + 8) ∷ s.port.sent)
    unfolding sent_words
    send_messages-Handed =
        let (tags', port, done, _, mail) = sent in (handed_words, handed, tags', port, done, mail)

    pub send_messages-replies :
        (replies : List MessageTag)
        → ((m : Words)
            → Handed lo hi bs tags msg s.words m
            → (device (msg + 8) m (msg + 4) ≡ response_success)
              × Replied (msg + 8) replies (device (msg + 8) m))
        → SameTags tags replies
        → (s' : System) × (send_messages device tags s ≡ some (pos 0, overlay_all replies tags, s'))
    unfolding sent_words
    send_messages-replies replies answers same =
        let (good, held) = answers handed_words handed in
        let (tags', port, done, delivered, _) = sent in
        let back =
          read_back-overlay tags replies (msg + 8) (device (msg + 8) handed_words) e same held in
        let found = rw good at delivered in
        let same' : tags' ≡ overlay_all replies tags = cc in (_, rw (good, same') at done)

  -- With a video core that answers, `send_messages` returns, and afterwards the heap is well
  -- formed, with the same blocks in use, whatever the answer.
  pub send_messages-in_use :
      Answered s.port
      → (c : ℤ) × (tags' : List MessageTag) × (s' : System) × (send_messages device tags s
          ≡ some (c, tags', s'))
        × (bs' : List Block) × IsHeap lo hi s'.machine.memory bs'
        × (in_use bs' ≡ in_use bs)
  send_messages-in_use a =
      let n = buffer_bytes tags in
      let given = salloc-first_fit n lo hi s.machine bs is in
      elim (Option-cases (first_fit (round_size n) bs)) [
        | inl f ↦
            let none' =
              send_messages-null device tags s e (omega (arith, small)) s.machine
                (given ∙ ap (answer n s.machine) f) in
            (_, _, _, none', bs, is, refl)
        | inr (b, f) ↦
            let some' = given ∙ ap (answer n s.machine) f in
            let (tags', port, done, _, _) = sent (b.addr + 16) _ some' (omega arith) a in
            let (bs', heap, same) =
              salloc-sfree-in_use n lo hi s.machine bs is (b.addr + 16) _ some' (omega arith) in
            (_, tags', _, done, bs', heap, same)
      ]
