-- ===== src/Mailbox/Layout.antt =====
-- The words of a property message, against the loops of `send_messages` that size and write it.
use rpiosv.Base.{
  ℕ, ◌+◌, ◌-◌, ◌*◌, ◌/◌, ◌^◌, ◌≤◌, ◌<◌, ◌≡◌, ◌⊎◌, ◌∙◌, refl, ap, sym, inl, inr, Bool, true, false,
  ◌||◌, some, List, [], ◌∷◌, ◌++◌, ◌==◌, if◌then◌else◌, Addr, update, arith, length, length-append,
  Bool-cases,
}
use rpiosv.Memory.{u32}
use rpiosv.Mailbox.{
  PropertyTag, code, MessageTag, Words, get_value_buffer_len, is_null_tag, size_loop, pad_size,
  copy_in, write_loop, write_message, request,
}

-- The words of a value buffer that a message holds.
abbrev pub value_words : (len : ℕ) → MessageTag → List ℕ
value_words len t =
    if len == 0 then [] else if len == 4 then t.first ∷ [] else t.first ∷ t.second ∷ []

-- The tags before the null tag, each behind its number, its length and a zero, and the end tag.
unfoldable pub encode : List MessageTag → List ℕ
encode [] = []
encode (t ∷ tags) =
    let len = get_value_buffer_len t.proptag in
    if is_null_tag t.proptag
    then 0 ∷ []
    else code t.proptag ∷ len ∷ 0 ∷ (value_words len t ++ encode tags)

-- The array has a null tag.
unfoldable pub ends : List MessageTag → Bool
ends [] = false
ends (t ∷ tags) = is_null_tag t.proptag || ends tags

-- The bytes of the message, without the padding.
unfoldable pub message_bytes : List MessageTag → ℕ
message_bytes tags = 8 + 4 * length (encode tags)

pub get_value_buffer_len-cases :
    (t : PropertyTag)
    → (get_value_buffer_len t ≡ 0) ⊎ (get_value_buffer_len t ≡ 4) ⊎ (get_value_buffer_len t ≡ 8)
unfolding get_value_buffer_len
get_value_buffer_len-cases PropertyTag.null_tag = inl refl
get_value_buffer_len-cases t = ground arith

-- Words written one behind another.
abbrev pub store : Addr → List ℕ → Words → Words
store p [] m = m
store p (w ∷ ws) m = store (p + 4) ws (update m p w)

-- Words found one behind another.
abbrev pub Holds : Addr → List ℕ → Words → Type 0
Holds p [] m = Unit
Holds p (w ∷ ws) m = (m p ≡ w) × Holds (p + 4) ws m

pub store-below : (p a : Addr) (ws : List ℕ) (m : Words) → a < p → store p ws m a ≡ m a
store-below p a [] m h = refl
store-below p a (w ∷ ws) m h = ground (arith, store-below (p + 4) a ws (update m p w))

pub store-above :
    (p a : Addr) (ws : List ℕ) (m : Words) → p + 4 * length ws ≤ a → store p ws m a ≡ m a
store-above p a [] m h = refl
store-above p a (w ∷ ws) m h = ground (arith, store-above (p + 4) a ws (update m p w))

pub store-Holds : (p : Addr) (ws : List ℕ) (m : Words) → Holds p ws (store p ws m)
store-Holds p [] m = tt
store-Holds p (w ∷ ws) m =
    (ground (arith, store-below (p + 4) p ws (update m p w)), store-Holds (p + 4) ws (update m p w))

-- The words of one tag, written as `write_loop` writes them.
store_tag :
    (len p c : ℕ) (t : MessageTag) (ws : List ℕ) (m : Words)
    → (len ≡ 0) ⊎ (len ≡ 4) ⊎ (len ≡ 8)
    → store p (c ∷ len ∷ 0 ∷ (value_words len t ++ ws)) m
      ≡ store
          (p + 12 + len)
          ws
          (copy_in len (p + 12) t (update (update (update m p c) (p + 4) len) (p + 8) 0))
unfolding copy_in
store_tag len p c t ws m h =
    let e8 : p + 4 + 4 ≡ p + 8 = omega arith in
    let e12 : p + 8 + 4 ≡ p + 12 = omega arith in
    let e16 : p + 12 + 0 ≡ p + 12 = omega arith in
    let e20 : p + 12 + 4 + 4 ≡ p + 12 + 8 = omega arith in
    elim h [
      | inl z ↦ rw (z, e8, e12, e16)
      | inr (inl z) ↦ rw (z, e8, e12)
      | inr (inr z) ↦ rw (z, e8, e12, e20)
    ]

pub write_loop-store :
    (tags : List MessageTag) (p : Addr) (m : Words)
    → ends tags ≡ true
    → write_loop tags p m ≡ some (store p (encode tags) m)
unfolding write_loop encode ends
write_loop-store [] p m e = cc
write_loop-store (t ∷ tags) p m e =
    let len = get_value_buffer_len t.proptag in
    elim (Bool-cases (is_null_tag t.proptag)) [
      | inl null ↦ rw null
      | inr more ↦ rw more (
          write_loop-store tags (p + 12 + len) _ (ground arith)
          ∙ ap some (
              sym (
                store_tag len p (code t.proptag) t (encode tags) m
                  (get_value_buffer_len-cases t.proptag))))
    ]

-- The sizes add up to the length of the words, less the end tag.
pub length-value_words :
    (len : ℕ) (t : MessageTag)
    → (len ≡ 0) ⊎ (len ≡ 4) ⊎ (len ≡ 8)
    → 4 * length (value_words len t) ≡ len
length-value_words len t h = elim h [ inl z ↦ rw z | inr (inl z) ↦ rw z | inr (inr z) ↦ rw z ]

length-encode :
    (t : MessageTag) (tags : List MessageTag)
    → is_null_tag t.proptag ≡ false
    → 4 * length (encode (t ∷ tags))
      ≡ 12 + get_value_buffer_len t.proptag + 4 * length (encode tags)
unfolding encode
length-encode t tags more =
    let len = get_value_buffer_len t.proptag in
    let parts = length-append (value_words len t) (encode tags) in
    let value = length-value_words len t (get_value_buffer_len-cases t.proptag) in
    rw more (omega (arith, parts, value))

encode-pos : (tags : List MessageTag) → ends tags ≡ true → 0 < length (encode tags)
unfolding encode ends
encode-pos [] e = cc
encode-pos (t ∷ tags) e = ground arith

pub size_loop-encode :
    (tags : List MessageTag) (bufsize : ℕ)
    → ends tags ≡ true
    → bufsize + 4 * length (encode tags) < 2 ^ 32 + 4
    → size_loop tags bufsize ≡ some (bufsize + 4 * length (encode tags) - 4)
unfolding size_loop ends
size_loop-encode [] bufsize e h = cc
size_loop-encode (t ∷ tags) bufsize e h =
    let len = get_value_buffer_len t.proptag in
    elim (Bool-cases (is_null_tag t.proptag)) [
      | inl null ↦ unfold encode in rw null (ap some {x = bufsize} (omega arith))
      | inr more ↦
          let e' : ends tags ≡ true = ground arith in
          let whole = length-encode t tags more in
          let some_words = encode-pos tags e' in
          let next : u32 (bufsize + (len + 12)) ≡ bufsize + len + 12 =
            omega (arith, whole, some_words, h) in
          rw (more, next)
            (size_loop-encode tags (bufsize + len + 12) e' (omega (arith, whole))
              ∙ ap some (omega (arith, whole)))
    ]

-- The bytes of the message, rounded up to a multiple of 16.
unfoldable pub buffer_bytes : List MessageTag → ℕ
unfolding message_bytes
buffer_bytes tags = (message_bytes tags + 15) / 16 * 16

pad_size-rounds : (n : ℕ) → n + 28 < 2 ^ 32 → pad_size n ≡ (n + 27) / 16 * 16
unfolding pad_size
pad_size-rounds n h = ground arith

-- For an array with a null tag, and a message that stays 16 bytes below 2 ^ 32, the size that is
-- computed is that of the message in words, rounded up to a multiple of 16.
pub pad_size-buffer_bytes :
    (tags : List MessageTag)
    → ends tags ≡ true
    → message_bytes tags + 16 < 2 ^ 32
    → (n : ℕ) × (size_loop tags 0 ≡ some n) × (pad_size n ≡ buffer_bytes tags)
unfolding buffer_bytes message_bytes
pad_size-buffer_bytes tags e h =
    let n = 4 * length (encode tags) - 4 in
    let pos = encode-pos tags e in
    (
      n,
      size_loop-encode tags 0 e (omega arith) ∙ ap some (omega arith),
      omega (arith, pos, pad_size-rounds n),
    )

-- What the message is: its size, the request code and the words of the tags.
abbrev pub message : (bufsize : ℕ) → List MessageTag → List ℕ
message bufsize tags = bufsize ∷ request ∷ encode tags

pub write_message-store :
    (msg bufsize : ℕ) (tags : List MessageTag) (m : Words)
    → ends tags ≡ true
    → write_message msg bufsize tags m ≡ some (store msg (message bufsize tags) m)
unfolding write_message
write_message-store msg bufsize tags m e =
    let e8 : msg + 4 + 4 ≡ msg + 8 = omega arith in
    rw (e8, store) (write_loop-store tags (msg + 8) _ e)
