-- ===== src/Framebuffer/Success.antt =====
-- What every successful call of `framebuffer_init` leaves, whatever the video core answered.
use rpiosv.Base.{
  ℕ, ◌*◌, ◌/◌, ◌^◌, ◌<◌, ◌≡◌, refl, subst, some, List, arith, Bool-cases, Option-cases, inl, inr,
}
use rpiosv.Base.Int.{is_zero}
use rpiosv.Mailbox.{MessageTag, Words, send_messages}
use rpiosv.Framebuffer.{
  FramebufferInfo, Video, framebuffer_tags, set_size, set_buffer, accept, framebuffer_init,
  print_size, print_buffer, times_bytes_per_pixel,
}
use rpiosv.Framebuffer.Info.{info_of}

-- The sizes that follow from the width and the height, and a cursor in the first place.
pub record Sized (info : FramebufferInfo) : Type 0 where
  pub pitch : info.width * 24 < 2 ^ 32 → info.pitch ≡ info.width * 3
  pub chars_width : info.chars_width ≡ info.width / 8
  pub chars_height : info.chars_height ≡ info.height / 8
  pub chars_x : info.chars_x ≡ 0
  pub chars_y : info.chars_y ≡ 0

info_of-Sized : (tags : List MessageTag) (info : FramebufferInfo) → Sized (info_of tags info)
unfolding set_size set_buffer times_bytes_per_pixel
info_of-Sized tags info = record {
  pitch = λ h. omega (arith, h);
  chars_width = refl;
  chars_height = refl;
  chars_x = refl;
  chars_y = refl;
}

accept-Sized :
    (tags : List MessageTag) (v v' : Video) (r : ℕ) → accept tags v ≡ some (r, v') → Sized v'.info
unfolding accept
accept-Sized tags v v' r e = elim (Option-cases (print_size (set_size tags v.info) v.out)) [
  | inl f ↦ absurd (ground (arith, rw (accept, f) at e))
  | inr (o, f) ↦ elim (Option-cases (print_buffer (info_of tags v.info) o)) [
    | inl g ↦ absurd (ground (arith, rw (accept, f, g) at e))
    | inr (o', g) ↦
        let same : info_of tags v.info ≡ v'.info = ground (arith, rw (accept, f, g) at e) in
        subst Sized same (info_of-Sized tags v.info)
  ]
]

pub framebuffer_init-Sized :
    (device : ℕ → Words → Words) (junk : ℕ → ℕ) (v v' : Video)
    → framebuffer_init device junk v ≡ some (0, v')
    → Sized v'.info
unfolding framebuffer_init
framebuffer_init-Sized device junk v v' e =
    elim (Option-cases (send_messages device (framebuffer_tags junk) v.system)) [
      | inl f ↦ absurd (ground (arith, rw (framebuffer_init, f) at e))
      | inr (out, f) ↦ elim (Bool-cases (is_zero out.0)) [
        | inl z ↦
            accept-Sized out.1 (record v { system = out.2 }) v' 0 (rw (framebuffer_init, f, z) at e)
        | inr nz ↦ absurd (ground (arith, rw (framebuffer_init, f, nz) at e))
      ]
    ]
