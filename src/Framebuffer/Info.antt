-- ===== src/Framebuffer/Info.antt =====
-- What `framebuffer_init` keeps of the answer.
use rpiosv.Base.{
  ℕ, ◌+◌, ◌-◌, ◌*◌, ◌/◌, ◌^◌, ◌<◌, ◌≡◌, ◌≢◌, refl, sym, ap, subst, true, false, some, List, [], ◌∷◌,
  ◌++◌, arith, Addr, null, bit_and, bit_and-le,
}
use rpiosv.Base.Int.{is_zero}
use rpiosv.Memory.{Machine, salloc}
use rpiosv.Memory.Blocks.{Block}
use rpiosv.Memory.Take.{IsHeap}
use rpiosv.Mailbox.{MessageTag, Words, System, is_null_tag, get_value_buffer_len, response_success}
use rpiosv.Mailbox.Layout.{encode, ends, message_bytes, buffer_bytes}
use rpiosv.Mailbox.Response.{SameTags, Replied, overlay_all}
use rpiosv.Mailbox.Exchange.{Answered, status, freed}
use rpiosv.Mailbox.Sending.{Handed, send_messages-Handed, send_messages-replies}
use rpiosv.Stdout.Printing.{Room, Room-append, Room-left}
use rpiosv.Uart.Text.{Took, Took-append}
use rpiosv.Framebuffer.{
  FramebufferInfo, Video, framebuffer_tags, set_size, set_buffer, accept, framebuffer_init,
  times_bytes_per_pixel, tag_at,
}
use rpiosv.Framebuffer.Printing.{size_lines, buffer_lines, print_size-Put, print_buffer-Put}

-- The size of the screen and the buffer, as they were answered, and a cursor in the first place.
pub record Accepted (screen buffer : MessageTag) (info : FramebufferInfo) : Type 0 where
  pub width : info.width ≡ screen.first
  pub height : info.height ≡ screen.second
  pub pitch : info.pitch ≡ screen.first * 3
  pub buf : info.buf ≡ bit_and buffer.first 0x3FFFFFFF
  pub buf_size : info.buf_size ≡ buffer.second
  pub chars_width : info.chars_width ≡ screen.first / 8
  pub chars_height : info.chars_height ≡ screen.second / 8
  pub chars_x : info.chars_x ≡ 0
  pub chars_y : info.chars_y ≡ 0

-- The information that is set for an array.
abbrev pub info_of : List MessageTag → FramebufferInfo → FramebufferInfo
info_of tags info = set_buffer tags (set_size tags info)

accept-lem :
    (tags : List MessageTag) (v : Video)
    → (tag_at tags 0).first < 2 ^ 32
    → (tag_at tags 0).second < 2 ^ 32
    → (tag_at tags 3).second < 2 ^ 32
    → Room (size_lines (info_of tags v.info) ++ buffer_lines (info_of tags v.info)) v.out
    → (v' : Video) × (accept tags v ≡ some (0, v'))
      × (v'.info ≡ info_of tags v.info)
      × (v'.system ≡ v.system)
      × Took
          (size_lines (info_of tags v.info) ++ buffer_lines (info_of tags v.info))
          v.out.uart
          v'.out.uart
unfolding accept set_size set_buffer
accept-lem tags v w h z r =
    let sized = set_size tags v.info in
    let info = info_of tags v.info in
    let (o, first, took) =
      print_size-Put sized v.out w h (Room-left (size_lines sized) (buffer_lines info) v.out r) in
    let (o', second, took') =
      print_buffer-Put info o (omega (arith, bit_and-le (tag_at tags 3).first 0x3FFFFFFF)) z
        (Room-append (size_lines sized) (buffer_lines info) v.out o r took) in
    (record v { out = o'; info = info }, rw (first, second), refl, refl, Took-append took took')

-- The tags end, and their message is short.
framebuffer_tags-ends : (junk : ℕ → ℕ) → ends (framebuffer_tags junk) ≡ true
unfolding ends framebuffer_tags is_null_tag
framebuffer_tags-ends junk = refl

message_bytes-framebuffer_tags : (junk : ℕ → ℕ) → message_bytes (framebuffer_tags junk) ≡ 88
unfolding message_bytes encode framebuffer_tags is_null_tag get_value_buffer_len
message_bytes-framebuffer_tags junk = refl

-- The array after the answer `r0`, ..., `r4`.
abbrev pub merged : (junk : ℕ → ℕ) → (r0 r1 r2 r3 r4 : MessageTag) → List MessageTag
merged junk r0 r1 r2 r3 r4 = overlay_all (r0 ∷ r1 ∷ r2 ∷ r3 ∷ r4 ∷ []) (framebuffer_tags junk)

merged-words :
    (junk : ℕ → ℕ) (r0 r1 r2 r3 r4 : MessageTag)
    → let tags = merged junk r0 r1 r2 r3 r4 in
      ((tag_at tags 0).first ≡ r0.first)
      × ((tag_at tags 0).second ≡ r0.second)
      × ((tag_at tags 3).first ≡ r3.first)
      × ((tag_at tags 3).second ≡ r3.second)
unfolding overlay_all framebuffer_tags is_null_tag get_value_buffer_len
merged-words junk r0 r1 r2 r3 r4 = (refl, refl, refl, refl)

info_of-Accepted :
    (tags : List MessageTag) (screen buffer : MessageTag) (info : FramebufferInfo)
    → (tag_at tags 0).first ≡ screen.first
    → (tag_at tags 0).second ≡ screen.second
    → (tag_at tags 3).first ≡ buffer.first
    → (tag_at tags 3).second ≡ buffer.second
    → screen.first * 24 < 2 ^ 32
    → Accepted screen buffer (info_of tags info)
unfolding set_size set_buffer times_bytes_per_pixel
info_of-Accepted tags screen buffer info a b c d small = record {
  width = a;
  height = b;
  pitch = omega (arith, a);
  buf = ap (λ x. bit_and x 0x3FFFFFFF) c;
  buf_size = d;
  chars_width = ap (λ (x : ℕ). x / 8) a;
  chars_height = ap (λ (x : ℕ). x / 8) b;
  chars_x = refl;
  chars_y = refl;
}

-- What is printed for an array.
abbrev pub lines_of : List MessageTag → FramebufferInfo → List ℕ
lines_of tags info = size_lines (info_of tags info) ++ buffer_lines (info_of tags info)

module _ (device : ℕ → Words → Words) (junk : ℕ → ℕ) (v : Video) (lo hi : Addr) (bs : List Block)
    (is : IsHeap lo hi v.system.machine.memory bs) (msg : Addr) (machine : Machine)
    (some' : salloc (buffer_bytes (framebuffer_tags junk)) v.system.machine ≡ some (msg, machine))
    (live : msg ≢ null) (a : Answered v.system.port) where
  -- If the video core answers the request with success and with values for its four tags, where the
  -- screen is narrow enough for its pitch, and the UART takes the lines that are printed,
  -- `framebuffer_init` returns 0 and keeps the answered size and buffer, with a pitch of three
  -- bytes for each pixel, the size in characters, and the cursor in the first place.
  pub framebuffer_init-Accepted :
      (r0 r1 r2 r3 r4 : MessageTag)
      → SameTags (framebuffer_tags junk) (r0 ∷ r1 ∷ r2 ∷ r3 ∷ r4 ∷ [])
      → ((m : Words)
          → Handed lo hi bs (framebuffer_tags junk) msg v.system.words m
          → (device (msg + 8) m (msg + 4) ≡ response_success)
            × Replied (msg + 8) (r0 ∷ r1 ∷ r2 ∷ r3 ∷ r4 ∷ []) (device (msg + 8) m))
      → r0.first * 24 < 2 ^ 32
      → r0.second < 2 ^ 32
      → r3.second < 2 ^ 32
      → Room (lines_of (merged junk r0 r1 r2 r3 r4) v.info) v.out
      → (v' : Video) × (framebuffer_init device junk v ≡ some (0, v'))
        × Accepted r0 r3 v'.info
        × Took (lines_of (merged junk r0 r1 r2 r3 r4) v.info) v.out.uart v'.out.uart
  unfolding framebuffer_init
  framebuffer_init-Accepted r0 r1 r2 r3 r4 same answers small height size room =
      let replies = r0 ∷ r1 ∷ r2 ∷ r3 ∷ r4 ∷ [] in
      let tags = merged junk r0 r1 r2 r3 r4 in
      let (w0, h0, b3, z3) = merged-words junk r0 r1 r2 r3 r4 in
      let (s', sent) =
        send_messages-replies device (framebuffer_tags junk) v.system lo hi bs is
          (framebuffer_tags-ends junk) (omega (arith, message_bytes-framebuffer_tags junk)) msg
          machine some' live a replies answers same in
      let (v', done, info, _, took) =
        accept-lem tags (record v { system = s' }) (omega (arith, w0, small))
          (omega (arith, h0, height)) (omega (arith, z3, size)) room in
      (
        v',
        rw sent done,
        subst (Accepted r0 r3) (sym info) (info_of-Accepted tags r0 r3 v.info w0 h0 b3 z3 small),
        took,
      )

  -- If the video core answers with another code, it returns -1 as a `uint32_t`, and what was kept
  -- of the frame buffer before stays.
  pub framebuffer_init-fails :
      ((m : Words)
        → Handed lo hi bs (framebuffer_tags junk) msg v.system.words m
        → is_zero (status (device (msg + 8) m (msg + 4))) ≡ false)
      → (s' : System) × (framebuffer_init device junk v
          ≡ some (2 ^ 32 - 1, record v { system = s' }))
  unfolding framebuffer_init
  framebuffer_init-fails bad =
      let (m, handed, tags', port, sent, _) =
        send_messages-Handed device (framebuffer_tags junk) v.system lo hi bs is
          (framebuffer_tags-ends junk) (omega (arith, message_bytes-framebuffer_tags junk)) msg
          machine some' live a in
      (
        record v.system { machine = freed msg machine; words = device (msg + 8) m; port = port },
        rw (sent, bad m handed),
      )
