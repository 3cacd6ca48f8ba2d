-- ===== src/Framebuffer.antt =====
-- src/framebuffer.c: the request for a frame buffer, and what is kept of the answer.
pub mod Printing
pub mod Info
pub mod Success
mod Examples
use Prim.Native.String.{String}
use Prim.Native.Char.{code}
use rpiosv.Base.{
  ℕ, zero, suc, ◌+◌, ◌-◌, ◌*◌, ◌/◌, ◌%◌, ◌^◌, Option, none, some, List, [], ◌∷◌, ◌>>=◌, ltb,
  if◌then◌else◌, bit_and, get_or, Addr,
}
use rpiosv.Base.Int.{ℤ, pos, negsuc, is_zero}
use rpiosv.Memory.{u32}
use rpiosv.Mailbox.{PropertyTag, MessageTag, Words, System, send_messages}
use rpiosv.Stdlib.{itoa}
use rpiosv.Uart.{uart_puts}
use rpiosv.Stdout.{Output}

pub record FramebufferInfo : Type 0 where
  pub width : ℕ
  pub height : ℕ
  pub pitch : ℕ
  pub buf : Addr
  pub buf_size : ℕ
  pub chars_width : ℕ
  pub chars_height : ℕ
  pub chars_x : ℕ
  pub chars_y : ℕ

abbrev pub colordepth : ℕ
colordepth = 24

-- `n * BYTES_PER_PIXEL`. The macro has no parentheses, so the product is taken first.
unfoldable pub times_bytes_per_pixel : ℕ → ℕ
times_bytes_per_pixel n = u32 (n * colordepth) / 8

-- The code points of a text: its bytes, for ASCII.
abbrev pub codes : String → List ℕ
codes String.[] = []
codes (String.◌∷◌ c s) = code c ∷ codes s

-- A text literal, as memory from 0 on.
abbrev pub literal : List ℕ → Addr → ℕ
literal s a = get_or s a 0

abbrev pub crlf : List ℕ
crlf = 13 ∷ 10 ∷ []

-- A `uint32_t` that is passed as an `int`.
unfoldable pub as_int : ℕ → ℤ
as_int n = if ltb n (2 ^ 31) then pos n else negsuc (2 ^ 32 - n - 1)

-- `uart_puts(text)` for a literal.
unfoldable pub put_literal : List ℕ → Output → Option Output
put_literal s o = do u ← uart_puts (literal s) 0 o.uart; some (record o { uart = u })

-- `uart_puts(itoa(value, 16))`
unfoldable pub put_hex : (value : ℕ) → Output → Option Output
unfolding as_int
put_hex value o = do
  buf ← itoa (as_int value) 16 o.intbuf
  u ← uart_puts buf 0 o.uart
  some (record o { intbuf = buf; uart = u })

-- A label, a value and the end of the line.
unfoldable pub report : (label : List ℕ) → (value : ℕ) → Output → Option Output
unfolding put_literal put_hex
report label value o = put_literal label o >>= put_hex value >>= put_literal crlf

-- What `framebuffer_init` works on.
pub record Video : Type 0 where
  pub system : System
  pub out : Output
  pub info : FramebufferInfo

-- The array on the stack. The words that the code does not set are `junk`.
unfoldable pub framebuffer_tags : (junk : ℕ → ℕ) → List MessageTag
framebuffer_tags junk =
    record { proptag = PropertyTag.fb_set_physical_dimensions; first = 656; second = 416 }
    ∷ record { proptag = PropertyTag.fb_set_virtual_dimensions; first = 656; second = 416 }
    ∷ record { proptag = PropertyTag.fb_set_bits_per_pixel; first = colordepth; second = junk 0 }
    ∷ record { proptag = PropertyTag.fb_allocate_buffer; first = 16; second = junk 1 }
    ∷ record { proptag = PropertyTag.null_tag; first = junk 2; second = junk 3 }
    ∷ []

-- `tags[i]`, within the array.
abbrev pub tag_at : List MessageTag → ℕ → MessageTag
tag_at tags i = get_or tags i (record { proptag = PropertyTag.null_tag; first = 0; second = 0 })

-- The size of the screen, in pixels and characters.
unfoldable pub set_size : List MessageTag → FramebufferInfo → FramebufferInfo
unfolding times_bytes_per_pixel
set_size tags info =
    let w = (tag_at tags 0).first in
    let h = (tag_at tags 0).second in
    record info {
      width = w;
      height = h;
      chars_width = w / 8;
      chars_height = h / 8;
      chars_x = 0;
      chars_y = 0;
      pitch = times_bytes_per_pixel w;
    }

-- The buffer, mapped from the bus to a physical address.
unfoldable pub set_buffer : List MessageTag → FramebufferInfo → FramebufferInfo
set_buffer tags info = record info {
  buf = bit_and (tag_at tags 3).first 0x3FFFFFFF;
  buf_size = (tag_at tags 3).second;
}

-- The lines that are printed, for the screen and for the buffer.
unfoldable pub print_size : FramebufferInfo → Output → Option Output
unfolding report
print_size info o =
    report (codes "framebuffer width: ") info.width o
    >>= report (codes "framebuffer height: ") info.height

unfoldable pub print_buffer : FramebufferInfo → Output → Option Output
unfolding report
print_buffer info o =
    report (codes "framebuffer buffer: ") info.buf o
    >>= report (codes "framebuffer size: ") info.buf_size

-- The part behind a successful answer.
unfoldable pub accept : List MessageTag → Video → Option (ℕ × Video)
unfolding set_size set_buffer print_size print_buffer
accept tags v =
    let sized = set_size tags v.info in
    let info = set_buffer tags sized in
    do
      o ← print_size sized v.out
      o' ← print_buffer info o
      some (0, record v { out = o'; info = info })

module _ (device : ℕ → Words → Words) where
  -- `none` stands for a call that does not return, and 2 ^ 32 - 1 for -1 as a `uint32_t`.
  pub framebuffer_init : (junk : ℕ → ℕ) → Video → Option (ℕ × Video)
  unfolding framebuffer_tags accept
  framebuffer_init junk v = do
    (res, tags, system) ← send_messages device (framebuffer_tags junk) v.system
    if is_zero res
        then accept tags (record v { system = system })
        else some (2 ^ 32 - 1, record v { system = system })
