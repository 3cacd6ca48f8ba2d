-- ===== src/Samples/Screens.antt =====
-- A video core that gives the screen that is asked for, and a start with it.
use rpiosv.Base.{
  ℕ, zero, suc, ◌+◌, ◌-◌, ◌*◌, ◌≡◌, ◌∙◌, ap, refl, some, List, [], ◌∷◌, Addr, arith, update,
}
use rpiosv.Memory.{Machine, salloc}
use rpiosv.Memory.Blocks.{Block}
use rpiosv.Memory.Take.{IsHeap}
use rpiosv.Mmio.{poll, ready}
use rpiosv.Mailbox.{
  MessageTag, PropertyTag, Words, is_null_tag, get_value_buffer_len, response_success,
}
use rpiosv.Mailbox.Layout.{buffer_bytes, store}
use rpiosv.Mailbox.Response.{Replied, overlay_all}
use rpiosv.Mailbox.Exchange.{Answered}
use rpiosv.Stdlib.{is_zero_int, magnitude}
use rpiosv.Stdlib.Shown.{shown, numeral}
use rpiosv.Stdout.Printing.{Room}
use rpiosv.Uart.Text.{Took}
use rpiosv.Framebuffer.{
  FramebufferInfo, Video, framebuffer_tags, framebuffer_init, as_int, set_size, set_buffer,
  times_bytes_per_pixel,
}
use rpiosv.Framebuffer.Info.{Accepted, lines_of, merged, framebuffer_init-Accepted}
use rpiosv.Gpu.Scroll.{IsScreen}
use rpiosv.Samples.{heap}

abbrev pub junk : ℕ → ℕ
junk i = 0

-- `n` reads that find the device free.
abbrev pub zeros : ℕ → List ℕ
zeros zero = []
zeros (suc n) = 0 ∷ zeros n

abbrev pub blank : FramebufferInfo
blank = record {
  width = 0;
  height = 0;
  pitch = 0;
  buf = 0;
  buf_size = 0;
  chars_width = 0;
  chars_height = 0;
  chars_x = 0;
  chars_y = 0;
}

-- The video core's mailbox and the UART, on a machine.
abbrev pub start : Machine → Video
start machine = record {
  system = record {
    machine = machine;
    words = λ a. 0;
    port = record { statuses = 0 ∷ 0 ∷ []; mails = 0x9018 ∷ []; sent = [] };
  };
  out = record {
    intbuf = λ k. 0;
    uart = record { flags = zeros 150; received = []; written = [] };
  };
  info = blank;
}

pub answered : Answered (record { statuses = 0 ∷ 0 ∷ []; mails = 0x9018 ∷ []; sent = [] })
unfolding poll ready
answered = record {
  rest = 0 ∷ [];
  before = [];
  res = 0x9018;
  after = [];
  polled = refl;
  mails = refl;
  foreign = tt;
  own = refl;
  enough = omega arith;
}

abbrev pub screen : MessageTag
screen = record { proptag = PropertyTag.fb_set_physical_dimensions; first = 656; second = 416 }

abbrev pub virtual : MessageTag
virtual = record { proptag = PropertyTag.fb_set_virtual_dimensions; first = 656; second = 416 }

abbrev pub depth : MessageTag
depth = record { proptag = PropertyTag.fb_set_bits_per_pixel; first = 24; second = 0 }

abbrev pub buffer : MessageTag
buffer = record { proptag = PropertyTag.fb_allocate_buffer; first = 0xC0100000; second = 818688 }

abbrev pub last : MessageTag
last = record { proptag = PropertyTag.null_tag; first = 0; second = 0 }

abbrev pub replies : List MessageTag
replies = screen ∷ virtual ∷ depth ∷ buffer ∷ last ∷ []

-- The replies as the video core writes them, with the highest bit and the length in the response
-- words.
abbrev pub reply_words : List ℕ
reply_words =
    0x48003 ∷ 8 ∷ 0x80000008 ∷ 656 ∷ 416 ∷ 0x48004 ∷ 8 ∷ 0x80000008 ∷ 656 ∷ 416 ∷ 0x48005 ∷ 4
    ∷ 0x80000004 ∷ 24 ∷ 0x40001 ∷ 8 ∷ 0x80000008 ∷ 0xC0100000 ∷ 818688 ∷ 0 ∷ []

-- Writes the success code and the replies.
abbrev pub device : ℕ → Words → Words
device mail m = store (mail + 0) reply_words (update m (mail - 8 + 4) response_success)

pub device-code : (m : Words) → device 0x9018 m 0x9014 ≡ response_success
device-code m = refl

pub device-Replied : (m : Words) → Replied 0x9018 replies (device 0x9018 m)
unfolding Replied is_null_tag get_value_buffer_len
device-Replied m = ground arith

-- The words that the request leaves are those that were there before, in part.
abbrev pub answers : List MessageTag
answers = merged junk screen virtual depth buffer last

-- What is printed fits.
pub few_lines : Room (lines_of answers blank) (start heap).out
unfolding ready framebuffer_tags set_size set_buffer times_bytes_per_pixel shown numeral is_zero_int
    magnitude as_int overlay_all is_null_tag get_value_buffer_len
few_lines = omega arith

-- The first start, on a heap in which the message stands at 0x9010.
pub first_start :
    (m m' : Machine) (lo hi : Addr) (bs : List Block)
    → IsHeap lo hi m.memory bs
    → salloc (buffer_bytes (framebuffer_tags junk)) m ≡ some (0x9010, m')
    → (v' : Video) × (framebuffer_init device junk (start m) ≡ some (0, v'))
      × Accepted screen buffer v'.info
      × Took (lines_of answers blank) (start m).out.uart v'.out.uart
unfolding framebuffer_tags
first_start m m' lo hi bs is taken =
    framebuffer_init-Accepted device junk (start m) lo hi bs is 0x9010 m' taken (omega arith)
      answered screen virtual depth buffer last (refl, (refl, (refl, (refl, (refl, tt)))))
      (λ w h. (device-code w, device-Replied w)) (omega arith) (omega arith) (omega arith) few_lines

pub screen_of : {info : FramebufferInfo} → Accepted screen buffer info → IsScreen info
screen_of {info} a =
    let area : info.pitch * info.height ≡ 1968 * 416 =
      ap (λ (t : ℕ). t * info.height) a.pitch ∙ ap (λ (t : ℕ). 1968 * t) a.height in
    record {
      end = omega (arith, area, a.buf);
      some_row = omega (arith, a.height);
      height_word = omega (arith, a.height);
    }
