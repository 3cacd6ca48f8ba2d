-- ===== src/Queue/State.antt =====
-- What a queue holds, and what an operation on one queue leaves alone.
use rpiosv.Base.{◌≡◌, ◌≢◌, sym, ◌∙◌, true, false, List, ◌∷◌, Addr, null, length, has, Distinct}
use rpiosv.Base.Int.{pos}
use rpiosv.Queue.{Store}
use rpiosv.Queue.Ring.{Ring, Ring-frame}

-- The queue `q` with the sentinel node `sen` holds the nodes `xs`, in order.
pub record IsQueue (s : Store) (q sen : Addr) (xs : List Addr) : Type 0 where
  pub live : q ≢ null
  pub at : s.sentinal q ≡ sen
  pub count : s.length q ≡ pos (length xs)
  pub ring : Ring s.next s.prev sen xs sen
  pub distinct : Distinct (sen ∷ xs)
  pub real : has null (sen ∷ xs) ≡ false

-- Between `s` and `t` only the nodes `ns` and the length of `q` have changed.
pub record Frame (ns : List Addr) (q : Addr) (s t : Store) : Type 0 where
  pub same_next : (p : Addr) → has p ns ≡ false → t.next p ≡ s.next p
  pub same_prev : (p : Addr) → has p ns ≡ false → t.prev p ≡ s.prev p
  pub same_sentinal : (p : Addr) → t.sentinal p ≡ s.sentinal p
  pub same_length : (p : Addr) → p ≢ q → t.length p ≡ s.length p

-- No node of `xs` is among `ns`.
abbrev pub Away : List Addr → List Addr → Type 0
Away ns xs = (p : Addr) → has p xs ≡ true → has p ns ≡ false

-- A queue keeps what it holds across an operation on another queue with other nodes.
pub IsQueue-Frame :
    {ns : List Addr} {q r sen : Addr} {s t : Store} {xs : List Addr}
    → Frame ns q s t
    → q ≢ r
    → Away ns (sen ∷ xs)
    → IsQueue s r sen xs
    → IsQueue t r sen xs
IsQueue-Frame {r} {sen} {s} {t} {xs} f ne away is = record {
  live = is.live;
  at = f.same_sentinal r ∙ is.at;
  count = f.same_length r (λ e. ne (sym e)) ∙ is.count;
  ring =
      Ring-frame s.next s.prev t.next t.prev sen sen xs is.ring (λ p h. f.same_next p (away p h))
        (λ p h. f.same_prev p (away p h));
  distinct = is.distinct;
  real = is.real;
}

pub Frame-trans :
    {ns : List Addr} {q : Addr} {s t u : Store} → Frame ns q s t → Frame ns q t u → Frame ns q s u
Frame-trans f g = record {
  same_next = λ p h. g.same_next p h ∙ f.same_next p h;
  same_prev = λ p h. g.same_prev p h ∙ f.same_prev p h;
  same_sentinal = λ p. g.same_sentinal p ∙ f.same_sentinal p;
  same_length = λ p h. g.same_length p h ∙ f.same_length p h;
}
