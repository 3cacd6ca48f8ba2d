-- ===== src/Mailbox/Response.antt =====
-- What the loop that copies the tags back finds in a message.
use rpiosv.Base.{
  ℕ, ◌+◌, ◌≡◌, ◌⊎◌, sym, subst, inl, inr, true, false, some, List, [], ◌∷◌, ◌==◌, if◌then◌else◌,
  Addr, arith, Bool-cases,
}
use rpiosv.Mailbox.{code, MessageTag, Words, get_value_buffer_len, is_null_tag, copy_out, read_back}
use rpiosv.Mailbox.Layout.{value_words, ends, Holds, get_value_buffer_len-cases}

-- The tag with the words of a reply that its message carries.
abbrev pub overlay : (len : ℕ) → (reply t : MessageTag) → MessageTag
overlay len reply t =
    if len == 0
    then t
    else if len == 4
    then record t { first = reply.first }
    else record t { first = reply.first; second = reply.second }

-- The array with the replies in the place of the values, up to the null tag.
unfoldable pub overlay_all : (replies tags : List MessageTag) → List MessageTag
overlay_all (r ∷ replies) (t ∷ tags) =
    if is_null_tag t.proptag
    then t ∷ tags
    else overlay (get_value_buffer_len t.proptag) r t ∷ overlay_all replies tags
overlay_all replies tags = tags

-- Two arrays ask for the same properties, in the same order.
abbrev pub SameTags : List MessageTag → List MessageTag → Type 0
SameTags [] [] = Unit
SameTags (x ∷ xs) (y ∷ ys) = (x.proptag ≡ y.proptag) × SameTags xs ys
SameTags _ _ = ⊥

copy_out-overlay :
    (len p : ℕ) (m : Words) (r t : MessageTag)
    → (len ≡ 0) ⊎ (len ≡ 4) ⊎ (len ≡ 8)
    → Holds p (value_words len r) m
    → copy_out len p m t ≡ overlay len r t
unfolding copy_out
copy_out-overlay len p m r t h held = elim h [
  | inl z ↦ rw z
  | inr (inl z) ↦
      let one : Holds p (r.first ∷ []) m = subst (λ n. Holds p (value_words n r) m) z held in
      rw (z, one.0)
  | inr (inr z) ↦
      let two : Holds p (r.first ∷ r.second ∷ []) m =
        subst (λ n. Holds p (value_words n r) m) z held in
      rw (z, two.0, two.1.0)
]

-- Behind one another from `p` on stand the tags before the null tag, each with its number, the
-- length of its buffer, a response word of any value, and the value of the reply.
unfoldable pub Replied : Addr → List MessageTag → Words → Type 0
Replied p [] m = Unit
Replied p (t ∷ tags) m =
    let len = get_value_buffer_len t.proptag in
    let rest = Replied (p + 12 + len) tags m in
    if is_null_tag t.proptag
    then Unit
    else ((m p ≡ code t.proptag) × (m (p + 4) ≡ len) × Holds (p + 12) (value_words len t) m × rest)

-- Where the message has the values of `replies`, to the same properties, the loop ends, and each tag
-- before the null tag gets the value of its reply.
pub read_back-overlay :
    (tags replies : List MessageTag) (p : Addr) (m : Words)
    → ends tags ≡ true
    → SameTags tags replies
    → Replied p replies m
    → read_back tags p m ≡ some (overlay_all replies tags)
unfolding read_back Replied ends overlay_all
read_back-overlay [] replies p m e same held = cc
read_back-overlay (t ∷ tags) [] p m e same held = elim same [ ]
read_back-overlay (t ∷ tags) (r ∷ replies) p m e same held =
    let len = get_value_buffer_len t.proptag in
    elim (Bool-cases (is_null_tag t.proptag)) [
      | inl null ↦ rw null
      | inr more ↦
          let more' : is_null_tag r.proptag ≡ false =
            subst (λ x. is_null_tag x ≡ false) same.0 more in
          let (_, _, values, others) = rw more' at held in
          let here = copy_out-overlay len (p + 12) m r t (get_value_buffer_len-cases t.proptag) (
            subst (λ x. Holds (p + 12) (value_words (get_value_buffer_len x) r) m) (sym same.0)
              values) in
          let later = read_back-overlay tags replies (p + 12 + len) m (ground arith) same.1 (
            subst (λ x. Replied (p + 12 + get_value_buffer_len x) replies m) (sym same.0) others) in
          rw (more, later, here)
    ]

-- The loop ends on every array with a null tag.
pub read_back-ends :
    (tags : List MessageTag) (p : Addr) (m : Words)
    → ends tags ≡ true
    → (tags' : List MessageTag) × (read_back tags p m ≡ some tags')
unfolding read_back ends
read_back-ends [] p m e = cc
read_back-ends (t ∷ tags) p m e = elim (Bool-cases (is_null_tag t.proptag)) [
  | inl null ↦ (t ∷ tags, rw null)
  | inr more ↦
      let (rest, later) =
        read_back-ends tags (p + 12 + get_value_buffer_len t.proptag) m (ground arith) in
      (copy_out (get_value_buffer_len t.proptag) (p + 12) m t ∷ rest, rw (more, later))
]
