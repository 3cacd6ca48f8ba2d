-- ===== src/Mailbox/Examples.antt =====
-- The theorems on src/mailbox.c with a video core that answers, and runs.
use rpiosv.Base.{ℕ, ◌+◌, ◌-◌, ◌≡◌, refl, true, false, some, List, [], ◌∷◌, arith, update}
use rpiosv.Base.Int.{ℤ, negsuc}
use rpiosv.Interrupts.Level.{set_interrupt_level, interrupts_enabled}
use rpiosv.Memory.{Machine, salloc, walk, take_block, init_smemory, round_size}
use rpiosv.Memory.Blocks.{Block}
use rpiosv.Memory.Take.{IsHeap}
use rpiosv.Memory.Caller.{Full}
use rpiosv.Memory.Sfree.{init_smemory-IsHeap}
use rpiosv.Mailbox.{
  PropertyTag, MessageTag, Words, Port, System, mailbox_read, is_null_tag, get_value_buffer_len,
  response_success, send_messages,
}
use rpiosv.Mmio.{poll, ready}
use rpiosv.Mailbox.Registers.{mailbox_read-first}
use rpiosv.Mailbox.Layout.{encode, ends, message_bytes, buffer_bytes}
use rpiosv.Mailbox.Exchange.{Answered, status, freed}
use rpiosv.Mailbox.Block.{in_use}
use rpiosv.Mailbox.Sending.{Handed, send_messages-Full, send_messages-Handed, send_messages-in_use}
use rpiosv.Samples.{heap, after}

abbrev tags : List MessageTag
tags =
    record { proptag = PropertyTag.fb_set_physical_dimensions; first = 656; second = 416 }
    ∷ record { proptag = PropertyTag.fb_set_bits_per_pixel; first = 24; second = 0 }
    ∷ record { proptag = PropertyTag.null_tag; first = 0; second = 0 }
    ∷ []

-- Mail is full once; a mail of another channel comes before the answer.
abbrev port : Port
port = record {
  statuses = 0x80000000 ∷ 0 ∷ 0x40000000 ∷ 0 ∷ 0 ∷ [];
  mails = 0x9013 ∷ 0x9018 ∷ [];
  sent = [];
}

abbrev start : System
start = record { machine = heap; words = λ a. 0; port = port }

-- Sets the code and the response words, and leaves the values.
abbrev device : ℕ → Words → Words
device mail m =
    update (update (update m (mail - 8 + 4) response_success) (mail + 8) 0x80000008) (mail + 28)
      0x80000004

answered : Answered port
unfolding poll ready
answered = record {
  rest = 0x40000000 ∷ 0 ∷ 0 ∷ [];
  before = 0x9013 ∷ [];
  res = 0x9018;
  after = [];
  polled = refl;
  mails = refl;
  foreign = (refl, tt);
  own = refl;
  enough = omega arith;
}

ended : ends tags ≡ true
unfolding ends is_null_tag
ended = refl

size : message_bytes tags ≡ 48
unfolding message_bytes encode is_null_tag get_value_buffer_len
size = refl

buffer : buffer_bytes tags ≡ 48
unfolding buffer_bytes encode is_null_tag get_value_buffer_len
buffer = refl

abbrev blocks : List Block
blocks = record { addr = 0x9000; capacity = 0xfff0; used = false } ∷ []

heap_blocks : IsHeap 0x9000 (0x9000 + 0x10000) heap.memory blocks
heap_blocks =
    init_smemory-IsHeap 0x9000 0x10000 _ (omega arith) refl refl (omega arith) (omega arith)

taken_48 : salloc 48 heap ≡ some (0x9010, after 48 heap)
unfolding salloc walk take_block init_smemory round_size set_interrupt_level interrupts_enabled
taken_48 = refl

taken : salloc (buffer_bytes tags) heap ≡ some (0x9010, after 48 heap)
taken = rw buffer taken_48

mailbox_read-first_example :
    (rest : List ℕ) × (mailbox_read 8 port
      ≡ some (0x9018, record port { statuses = rest; mails = [] }))
unfolding ready
mailbox_read-first_example =
    mailbox_read-first 8 port (0x9013 ∷ []) 0x9018 [] refl (refl, tt) refl (omega arith)

send_messages-in_use_example :
    (c : ℤ) × (tags' : List MessageTag) × (s' : System) × (send_messages device tags start
      ≡ some (c, tags', s'))
    × (bs' : List Block) × IsHeap 0x9000 (0x9000 + 0x10000) s'.machine.memory bs'
    × (in_use bs' ≡ in_use blocks)
send_messages-in_use_example =
    send_messages-in_use device tags start 0x9000 (0x9000 + 0x10000) blocks heap_blocks ended
      (omega (arith, size)) answered

send_messages-Handed_example :
    (m : Words) × Handed 0x9000 (0x9000 + 0x10000) blocks tags 0x9010 (λ a. 0) m
    × (tags' : List MessageTag) × (port' : Port) × (send_messages device tags start
        ≡ some (
          status (device 0x9018 m 0x9014),
          tags',
          record start {
            machine = freed 0x9010 (after 48 heap);
            words = device 0x9018 m;
            port = port';
          },
        ))
    × (port'.sent ≡ 0x9018 ∷ [])
send_messages-Handed_example =
    send_messages-Handed device tags start 0x9000 (0x9000 + 0x10000) blocks heap_blocks ended
      (omega (arith, size)) 0x9010 (after 48 heap) taken (omega arith) answered

-- A heap of 48 bytes, in which the message does not fit.
abbrev tight : Machine
tight = record heap { memory = init_smemory 0x9000 48 heap.memory }

abbrev tight_blocks : List Block
tight_blocks = record { addr = 0x9000; capacity = 32; used = false } ∷ []

tight_heap : IsHeap 0x9000 (0x9000 + 48) tight.memory tight_blocks
tight_heap =
    init_smemory-IsHeap 0x9000 48 heap.memory (omega arith) refl refl (omega arith) (omega arith)

tight_Full : Full (round_size (buffer_bytes tags)) tight_blocks
unfolding round_size
tight_Full = (λ u. omega (arith, buffer), tt)

send_messages-Full_example :
    send_messages device tags (record start { machine = tight })
    ≡ some (negsuc 0, tags, record start { machine = tight })
send_messages-Full_example =
    send_messages-Full device tags (record start { machine = tight }) 0x9000 (0x9000 + 48)
      tight_blocks tight_heap ended (omega (arith, size)) tight_Full
