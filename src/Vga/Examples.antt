-- ===== src/Vga/Examples.antt =====
-- Runs of the console, and its theorems at concrete texts.
use aura_os.Base.{◌^◌, ◌≡◌, refl, true, false, none, [], ◌∷◌, get_or, replicate, codes}
use aura_os.Varargs.{text, number}
use aura_os.Digits.{do_digits}
use aura_os.Serial
use aura_os.Vga.{Vga, entry, puts, format}
use aura_os.Vga.Paper.{Paper}
use aura_os.Vga.Format.{common}

abbrev off : Vga
off = record { memory = replicate 2000 0; row = 3; col = 9; color = 7 }

-- The end of a line goes on in the next one.
abbrev near_end : Vga
near_end = record { memory = replicate 2000 0; row = 1; col = 79; color = 7 }

wrapped : get_or (puts near_end (codes "ab")).memory 160 0 ≡ entry b'b' 7
unfolding puts
wrapped = refl

formats : format (codes "%d%% of %s") (number 42 ∷ text none ∷ []) ≡ (codes "42% of (null)", false)
unfolding format do_digits
formats = refl

-- For the least `int` the characters before '0' are written.
least : format (codes "%d") (number (2 ^ 31) ∷ []) ≡ (codes "-./,),(-*,(", false)
unfolding format do_digits
least = refl

abbrev blank_paper : Paper
blank_paper = record { cell = λ _. entry b' ' 7; pos = 0 }

three : common (codes "100") ≡ true
unfolding common
three = refl
