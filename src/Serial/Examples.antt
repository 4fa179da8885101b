-- ===== src/Serial/Examples.antt =====
-- Runs of the serial port's printing, and its theorems at concrete arguments.
use aura_os.Base.{◌≤◌, ◌≡◌, refl, arith, false, none, some, [], ◌∷◌, length, take, drop, codes}
use aura_os.Digits.{while_digits}
use aura_os.Varargs.{text, number}
use aura_os.Serial.{print_number, print_signed, printf, init_writes, getc}
use aura_os.Serial.Number.{value, print_number_lem}

formats :
    printf
      (some (codes "%s=%d 0x%x %p 100%%%"))
      (text none ∷ number 0xffff_fff6 ∷ number 48879 ∷ number 0 ∷ [])
    ≡ codes "(null)=-10 0xbeef 0x0 100%%"
unfolding printf while_digits
formats = refl

init_115200 :
    take 4 (init_writes 0x3f8 115200) ≡ (0x3f9, 0) ∷ (0x3fb, 0x80) ∷ (0x3f8, 1) ∷ (0x3f9, 0) ∷ []
unfolding init_writes
init_115200 = refl

nothing_waits : getc 0x60 65 ≡ 0
unfolding getc
nothing_waits = refl

print_number_lem_example :
    (value 10 (print_number 0x8000_0000 false) ≡ 0x8000_0000)
    × (length (print_number 0x8000_0000 false) ≤ 10)
    × (value 10 (drop 1 (print_signed 0x8000_0000)) ≡ 0x8000_0000)
    × (take 1 (print_signed 0x8000_0000) ≡ b'-' ∷ [])
print_number_lem_example = print_number_lem 0x8000_0000 false (omega arith)
