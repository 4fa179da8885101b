-- ===== src/Tui/Examples.antt =====
-- Runs of the text windows, and their theorems at concrete drawings.
use aura_os.Base.{◌≡◌, refl, ℕ, List, [], ◌∷◌, ◌++◌, arith, false, some, replicate, codes, length}
use aura_os.Varargs.{number, text}
use aura_os.Digits.{do_digits}
use aura_os.Tui.{Screen, format, print_unsigned}
use aura_os.Tui.Format.{format_overflow}

abbrev black : Screen
black = replicate 2000 0

formats :
    format
      (codes "%d of %u%%: %s")
      (number 0xffff_fff9 ∷ number 100 ∷ text (some (codes "ok")) ∷ [])
      []
    ≡ (codes "-7 of 100%: ok", false)
unfolding format print_unsigned do_digits
formats = refl

abbrev long_text : List ℕ
long_text = replicate 79 b'x'

format_overflow_example : length (format (long_text ++ b'%' ∷ b'x' ∷ []) [] []).0 ≡ 81
format_overflow_example = format_overflow long_text b'x' [] [] [] refl refl (omega arith)
