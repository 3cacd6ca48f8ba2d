-- ===== src/Stdout/Pieces.antt =====
-- Formats as lists of pieces, and what `prntf` is to print for them.
use rpiosv.Base.{ℕ, ◌≢◌, List, [], ◌∷◌, ◌++◌, Addr}
use rpiosv.Base.Int.{ℤ}
use rpiosv.Stdlib.Itoa.{InInt}
use rpiosv.Stdlib.Shown.{IsText, shown}
use rpiosv.Stdout.{Arg, number, string}

-- A character, a doubled percent sign, numbers, texts with their characters, and a directive that `prntf`
-- does not know.
pub data Piece : Type 0 where
  plain : ℕ → Piece
  percent : Piece
  decimal : ℤ → Piece
  hexadecimal : ℤ → Piece
  chars : Addr → List ℕ → Piece
  unknown : ℕ → Piece

unfoldable pub format : List Piece → List ℕ
format [] = []
format (plain c ∷ ps) = c ∷ format ps
format (percent ∷ ps) = 37 ∷ 37 ∷ format ps
format (decimal n ∷ ps) = 37 ∷ 100 ∷ format ps
format (hexadecimal n ∷ ps) = 37 ∷ 120 ∷ format ps
format (chars p s ∷ ps) = 37 ∷ 115 ∷ format ps
format (unknown c ∷ ps) = 37 ∷ c ∷ format ps

unfoldable pub arguments : List Piece → List Arg
arguments [] = []
arguments (decimal n ∷ ps) = number n ∷ arguments ps
arguments (hexadecimal n ∷ ps) = number n ∷ arguments ps
arguments (chars p s ∷ ps) = string p ∷ arguments ps
arguments (_ ∷ ps) = arguments ps

unfoldable pub printed : List Piece → List ℕ
printed [] = []
printed (plain c ∷ ps) = c ∷ printed ps
printed (percent ∷ ps) = 37 ∷ printed ps
printed (decimal n ∷ ps) = shown n 10 ++ printed ps
printed (hexadecimal n ∷ ps) = shown n 16 ++ printed ps
printed (chars p s ∷ ps) = s ++ printed ps
printed (unknown c ∷ ps) = printed ps

-- The piece is what it says: no plain percent sign or terminator, an `int`, and a text with the
-- characters that are found.
abbrev pub Fits : (Addr → ℕ) → Piece → Type 0
Fits text (plain c) = (c ≢ 0) × (c ≢ 37)
Fits text percent = Unit
Fits text (decimal n) = InInt n
Fits text (hexadecimal n) = InInt n
Fits text (chars p s) = IsText p s text
Fits text (unknown c) = (c ≢ 0) × (c ≢ 37) × (c ≢ 100) × (c ≢ 120) × (c ≢ 115)

abbrev pub AllFit : (Addr → ℕ) → List Piece → Type 0
AllFit text [] = Unit
AllFit text (p ∷ ps) = Fits text p × AllFit text ps
