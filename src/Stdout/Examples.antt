-- ===== src/Stdout/Examples.antt =====
-- The theorems on `prntf` at two formats.
use rpiosv.Base.{
  ℕ, ◌-◌, ◌≡◌, refl, some, List, [], ◌∷◌, ◌++◌, get_or, ltb, if◌then◌else◌, Addr, arith,
}
use rpiosv.Base.Int.{pos}
use rpiosv.Interrupts.Level.{enabled}
use rpiosv.Mmio.{ready}
use rpiosv.Stdlib.{is_zero_int, magnitude}
use rpiosv.Stdlib.Shown.{shown, numeral}
use rpiosv.Stdout.{Output, prntf}
use rpiosv.Stdout.Pieces.{
  Piece, plain, percent, decimal, chars, unknown, format, arguments, printed,
}
use rpiosv.Stdout.Printing.{prntf-printed}

-- "n%d%%%s%q" with 7 and the text "ok" at 200.
abbrev pieces : List Piece
pieces = plain 110 ∷ decimal (pos 7) ∷ percent ∷ chars 200 (111 ∷ 107 ∷ []) ∷ unknown 113 ∷ []

abbrev text : Addr → ℕ
text a =
    if ltb a 200
    then get_or (110 ∷ 37 ∷ 100 ∷ 37 ∷ 37 ∷ 37 ∷ 115 ∷ 37 ∷ 113 ∷ []) (a - 100) 0
    else get_or (111 ∷ 107 ∷ []) (a - 200) 0

abbrev out : Output
out = record {
  intbuf = λ k. 0;
  uart = record { flags = 0 ∷ 0 ∷ 0x20 ∷ 0 ∷ 0 ∷ 0 ∷ 0 ∷ []; received = []; written = [] };
}

prntf-printed_example :
    (o : Output) × (prntf 9 text 100 (arguments pieces) (enabled, out) ≡ some (enabled, o))
    × (o.uart.written ≡ [] ++ printed pieces)
unfolding format ready printed shown numeral is_zero_int magnitude
prntf-printed_example =
    prntf-printed 9 pieces text 100 enabled out (ground arith) (ground arith) (omega arith)
      (omega arith)

-- What the pieces say.
what_is_printed : printed pieces ≡ 110 ∷ 55 ∷ 37 ∷ 111 ∷ 107 ∷ []
unfolding printed shown numeral is_zero_int magnitude
what_is_printed = refl

-- A percent sign and the terminator, and "ok" behind them.
abbrev lone : Addr → ℕ
lone a = get_or (37 ∷ 0 ∷ 111 ∷ 107 ∷ []) (a - 100) 0
