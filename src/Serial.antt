-- ===== src/Serial.antt =====
-- The serial port, kernel/arch/x86_shared/serial.c. What is sent is the list of its bytes: the wait for the
-- transmitter before each byte is left out. The values that ports are read with are arguments.
pub mod Number
pub mod Printf
mod Examples
use Prim.Native.Nat.{bit_and}
use mathlib.Core.List.{reverse}
use aura_os.Base.{
  ℕ, zero, suc, ◌+◌, ◌-◌, ◌*◌, ◌/◌, ◌%◌, ◌^◌, ◌≤◌, Bool, true, false, not, Option, none, some, List,
  [], ◌∷◌, ◌++◌, ◌==◌, leb, if◌then◌else◌, u8, u16, u32, codes,
}
use aura_os.Varargs.{Arg, as_number, as_text, next_arg}
use aura_os.Digits.{dec_char, hex_char, while_digits}

-- The writes of `serial_init` to ports, in order.
unfoldable pub init_writes : ℕ → ℕ → List (ℕ × ℕ)
init_writes port baud =
    let div = u16 (115200 / (if baud == 0 then 115200 else baud)) in
    (u16 (port + 1), 0)
    ∷ (u16 (port + 3), 0x80)
    ∷ (u16 port, u8 div)
    ∷ (u16 (port + 1), u8 (div / 2 ^ 8))
    ∷ (u16 (port + 3), 3)
    ∷ (u16 (port + 2), 0xc7)
    ∷ (u16 (port + 4), 0x0b)
    ∷ []

-- `serial_has_char` and `serial_getc`, given the line status and the received byte.
pub has_char : ℕ → Bool
has_char line_status = not (bit_and line_status 1 == 0)

unfoldable pub getc : ℕ → ℕ → ℕ
unfolding has_char
getc line_status received = if has_char line_status then received else 0

unfoldable pub print_number : ℕ → Bool → List ℕ
print_number v hex =
    if v == 0
    then b'0' ∷ []
    else reverse (if hex then while_digits hex_char 16 32 v else while_digits dec_char 10 32 v)

-- An `int32_t` is its 32-bit pattern.
unfoldable pub print_signed : ℕ → List ℕ
unfolding print_number
print_signed v =
    if leb (2 ^ 31) v then b'-' ∷ print_number (u32 (2 ^ 32 - v)) false else print_number v false

unfoldable pub print_string : Option (List ℕ) → List ℕ
print_string none = codes "(null)"
print_string (some s) = s

pub print_hex_pointer : ℕ → List ℕ
print_hex_pointer p =
    codes "0x" ++ (if p == 0 then b'0' ∷ [] else reverse (while_digits hex_char 16 64 p))

-- The `switch` on the character behind `%`: what is sent, and the arguments left.
unfoldable pub directive : ℕ → List Arg → List ℕ × List Arg
unfolding print_number print_signed print_string print_hex_pointer
directive c args =
    let (a, rest) = next_arg args in
    if c == b's'
    then (print_string (as_text a), rest)
    else if c == b'd'
    then (print_signed (u32 (as_number a)), rest)
    else if c == b'u'
    then (print_number (u32 (as_number a)) false, rest)
    else if c == b'x'
    then (print_number (u32 (as_number a)) true, rest)
    else if c == b'p'
    then (print_hex_pointer (as_number a), rest)
    else if c == b'c'
    then (u8 (as_number a) ∷ [], rest)
    else if c == b'%'
    then (b'%' ∷ [], args)
    else (b'%' ∷ c ∷ [], args)

-- A lone `%` at the end is sent as it is.
unfoldable pub printf_loop : List ℕ → List Arg → List ℕ
unfolding directive
printf_loop [] args = []
printf_loop (c ∷ []) args = c ∷ []
printf_loop (c ∷ d ∷ fmt) args = elim (c == b'%') [
  | true ↦ (directive d args).0 ++ printf_loop fmt (directive d args).1
  | false ↦ c ∷ printf_loop (d ∷ fmt) args
]

unfoldable pub printf : Option (List ℕ) → List Arg → List ℕ
unfolding printf_loop
printf none args = []
printf (some fmt) args = printf_loop fmt args
