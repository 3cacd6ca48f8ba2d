-- ===== src/Mailbox.antt =====
-- The property mailbox of src/mailbox.c and src/mailbox.h. The registers are read from two
-- streams, of statuses and of mails, and what is written to MAIL0_WRITE is kept. What the video
-- core does to memory when it gets a mail is a parameter. Memory is a map of words: every field
-- and every copy is made of whole words.
pub mod Registers
pub mod Layout
pub mod Response
pub mod Exchange
pub mod Block
pub mod Sending
mod Examples
use rpiosv.Base.{
  ℕ, zero, suc, ◌+◌, ◌-◌, ◌*◌, ◌/◌, ◌%◌, ◌^◌, Bool, true, false, Option, none, some, List, [], ◌∷◌,
  ◌==◌, ◌>>=◌, if◌then◌else◌, bit_and, bit_or, Addr, null, update,
}
use rpiosv.Base.Int.{ℤ, pos, negsuc}
use rpiosv.Mmio.{poll}
use rpiosv.Memory.{Machine, salloc, sfree, u32}

abbrev pub mailbox_full : ℕ
mailbox_full = 0x80000000

abbrev pub mailbox_empty : ℕ
mailbox_empty = 0x40000000

abbrev pub property_channel : ℕ
property_channel = 8

abbrev pub request : ℕ
request = 0

abbrev pub response_success : ℕ
response_success = 0x80000000

abbrev pub response_error : ℕ
response_error = 0x80000001

pub data PropertyTag : Type 0 where
  null_tag get_board_model get_board_rev get_arm_memory get_clock_rate : PropertyTag
  fb_allocate_buffer fb_relese_buffer : PropertyTag
  fb_get_physical_dimensions fb_set_physical_dimensions : PropertyTag
  fb_get_virtual_dimensions fb_set_virtual_dimensions : PropertyTag
  fb_get_bits_per_pixel fb_set_bits_per_pixel fb_get_bytes_per_row : PropertyTag

-- The numbers of the enumeration.
abbrev pub code : PropertyTag → ℕ
code null_tag = 0
code get_board_model = 0x00010001
code get_board_rev = 0x00010002
code get_arm_memory = 0x00010005
code get_clock_rate = 0x00030002
code fb_allocate_buffer = 0x00040001
code fb_relese_buffer = 0x00048001
code fb_get_physical_dimensions = 0x00040003
code fb_set_physical_dimensions = 0x00048003
code fb_get_virtual_dimensions = 0x00040004
code fb_set_virtual_dimensions = 0x00048004
code fb_get_bits_per_pixel = 0x00040005
code fb_set_bits_per_pixel = 0x00048005
code fb_get_bytes_per_row = 0x00040008

-- `property_message_tag_t`. Every member of the union is one or two words, and the first of a
-- pair shares its place with a single one.
pub record MessageTag : Type 0 where
  pub proptag : PropertyTag
  pub first : ℕ
  pub second : ℕ

-- The two streams of register reads to come, and the mails written, the last one first.
pub record Port : Type 0 where
  pub statuses : List ℕ
  pub mails : List ℕ
  pub sent : List ℕ

-- The outer loop of `mailbox_read`, by the mails to come.
pub read_loop : (channel : ℕ) → (statuses mails : List ℕ) → Option (ℕ × List ℕ × List ℕ)
unfolding poll
read_loop channel statuses [] = none
read_loop channel statuses (res ∷ mails) = do
  rest ← poll mailbox_empty statuses
  if bit_and res 0xF == channel then some (res, rest, mails) else read_loop channel rest mails

pub mailbox_read : (channel : ℕ) → Port → Option (ℕ × Port)
unfolding read_loop
mailbox_read channel port = do
  (res, statuses, mails) ← read_loop channel port.statuses port.mails
  some (res, record port { statuses = statuses; mails = mails })

pub mailbox_send : (msg channel : ℕ) → Port → Option Port
unfolding poll
mailbox_send msg channel port = do
  rest ← poll mailbox_full port.statuses
  some (record port { statuses = rest; sent = bit_or msg channel ∷ port.sent })

unfoldable pub get_value_buffer_len : PropertyTag → ℕ
get_value_buffer_len get_arm_memory = 8
get_value_buffer_len get_clock_rate = 8
get_value_buffer_len fb_allocate_buffer = 8
get_value_buffer_len fb_get_physical_dimensions = 8
get_value_buffer_len fb_set_physical_dimensions = 8
get_value_buffer_len fb_get_virtual_dimensions = 8
get_value_buffer_len fb_set_virtual_dimensions = 8
get_value_buffer_len get_board_model = 4
get_value_buffer_len get_board_rev = 4
get_value_buffer_len fb_get_bits_per_pixel = 4
get_value_buffer_len fb_set_bits_per_pixel = 4
get_value_buffer_len fb_get_bytes_per_row = 4
get_value_buffer_len _ = 0

unfoldable pub is_null_tag : PropertyTag → Bool
is_null_tag null_tag = true
is_null_tag _ = false

-- The loop that adds up the sizes. `none` stands for a run past the end of the array.
pub size_loop : List MessageTag → (bufsize : ℕ) → Option ℕ
unfolding get_value_buffer_len is_null_tag
size_loop [] bufsize = none
size_loop (t ∷ tags) bufsize =
    if is_null_tag t.proptag
    then some bufsize
    else size_loop tags (u32 (bufsize + (get_value_buffer_len t.proptag + 12)))

-- The size, the code and the end tag, and the padding.
pub pad_size : ℕ → ℕ
pad_size bufsize =
    let total = u32 (bufsize + 12) in u32 (total + (if total % 16 == 0 then 0 else 16 - total % 16))

-- The memory, by words, at addresses that are multiples of 4.
abbrev pub Words : Type 0
Words = Addr → ℕ

-- `mcpy` of `len` bytes, 0, 4 or 8, from the value buffer of a tag, and into it.
pub copy_in : (len : ℕ) → Addr → MessageTag → Words → Words
copy_in len p t m =
    let m' = update m p t.first in
    if len == 0 then m else if len == 4 then m' else update m' (p + 4) t.second

pub copy_out : (len : ℕ) → Addr → Words → MessageTag → MessageTag
copy_out len p m t =
    if len == 0
    then t
    else if len == 4
    then record t { first = m p }
    else record t { first = m p; second = m (p + 4) }

-- The loop that writes the tags, from `p`, the address of `msg->tags[bufpos]`, on, and the end
-- tag behind them.
pub write_loop : List MessageTag → Addr → Words → Option Words
unfolding get_value_buffer_len is_null_tag copy_in
write_loop [] p m = none
write_loop (t ∷ tags) p m =
    let len = get_value_buffer_len t.proptag in
    let m' = update (update (update m p (code t.proptag)) (p + 4) len) (p + 8) 0 in
    if is_null_tag t.proptag
    then some (update m p 0)
    else write_loop tags (p + 12 + len) (copy_in len (p + 12) t m')

-- The loop that copies the tags back: the array after it.
pub read_back : List MessageTag → Addr → Words → Option (List MessageTag)
unfolding get_value_buffer_len is_null_tag copy_out
read_back [] p m = none
read_back (t ∷ tags) p m =
    let len = get_value_buffer_len t.proptag in
    if is_null_tag t.proptag
    then some (t ∷ tags)
    else (read_back tags (p + 12 + len) m >>= λ rest. some (copy_out len (p + 12) m t ∷ rest))

pub record System : Type 0 where
  pub machine : Machine
  pub words : Words
  pub port : Port

-- `msg->size`, `msg->req_res_code` and the tags.
pub write_message : (msg : Addr) → (bufsize : ℕ) → List MessageTag → Words → Option Words
unfolding write_loop
write_message msg bufsize tags m =
    write_loop tags (msg + 8) (update (update m msg bufsize) (msg + 4) request)

pub free_message : (msg : Addr) → System → System
free_message msg s = record s { machine = record s.machine { memory = sfree msg s.machine.memory } }

-- What is done with the answer, by its code.
pub answer_message : (msg : Addr) → List MessageTag → System → Option (ℤ × List MessageTag × System)
unfolding read_back free_message
answer_message msg tags s =
    let res = s.words (msg + 4) in
    if res == request
    then some (pos 1, tags, free_message msg s)
    else if res == response_error
    then some (pos 2, tags, free_message msg s)
    else if res == response_success
    then (read_back tags (msg + 8) s.words >>= λ tags'. some (pos 0, tags', free_message msg s))
    else some (negsuc 0, tags, free_message msg s)

abbrev head_or : List ℕ → ℕ → ℕ
head_or [] d = d
head_or (x ∷ xs) d = x

-- The word that was written last to MAIL0_WRITE.
unfoldable pub last_sent : Port → ℕ
last_sent port = head_or port.sent 0

-- What the video core does to memory for a mail.
module _ (device : ℕ → Words → Words) where
  -- A mail to the property channel, and the wait for the answer. The video core gets the word that
  -- was written.
  pub exchange : (msg : Addr) → System → Option System
  unfolding mailbox_send mailbox_read last_sent
  exchange msg s = do
    port ← mailbox_send msg property_channel s.port
    (res, port') ← mailbox_read property_channel port
    some (record s { words = device (last_sent port) s.words; port = port' })

  -- The part of `send_messages` behind the allocation.
  pub deliver :
      (msg : Addr)
      → (bufsize : ℕ) → List MessageTag
      → System
      → Option (ℤ × List MessageTag × System)
  unfolding write_message exchange answer_message
  deliver msg bufsize tags s = do
    m ← write_message msg bufsize tags s.words
    s' ← exchange msg (record s { words = m })
    answer_message msg tags s'

  -- `none` stands for a call that does not return.
  pub send_messages : List MessageTag → System → Option (ℤ × List MessageTag × System)
  unfolding size_loop pad_size deliver
  send_messages tags s = do
    bufsize ← size_loop tags 0
    (msg, machine) ← salloc (pad_size bufsize) s.machine
    if msg == null
        then some (negsuc 0, tags, record s { machine = machine })
        else deliver msg (pad_size bufsize) tags (record s { machine = machine })
