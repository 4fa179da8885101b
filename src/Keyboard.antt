-- ===== src/Keyboard.antt =====
-- The PS/2 keyboard driver, kernel/drivers/keyboard.c: scancodes to characters, and a ring of 32 bytes.
-- The byte read from the data port is an argument of the handler; the installation of the handler and
-- the console message are left out.
pub mod Ring
pub mod Fifo
mod Examples
use Prim.Native.Nat.{bit_and}
use aura_os.Base.{
  ℕ, ◌+◌, ◌%◌, Bool, true, false, not, List, [], ◌∷◌, ltb, ◌==◌, if◌then◌else◌, get_or, set,
}

-- KBD_BUF_SIZE
abbrev pub buf_size : ℕ
buf_size = 32

-- `scancode_ascii`, up to the last entry that is given; the others are 0.
abbrev pub scancode_ascii : List ℕ
scancode_ascii =
    0 ∷ 27 ∷ b'1' ∷ b'2' ∷ b'3' ∷ b'4' ∷ b'5' ∷ b'6' ∷ b'7' ∷ b'8' ∷ b'9' ∷ b'0' ∷ b'-' ∷ b'=' ∷ 8
    ∷ 9 ∷ b'q' ∷ b'w' ∷ b'e' ∷ b'r' ∷ b't' ∷ b'y' ∷ b'u' ∷ b'i' ∷ b'o' ∷ b'p' ∷ b'[' ∷ b']' ∷ 10 ∷ 0
    ∷ b'a' ∷ b's' ∷ b'd' ∷ b'f' ∷ b'g' ∷ b'h' ∷ b'j' ∷ b'k' ∷ b'l' ∷ b';' ∷ 39 ∷ b'`' ∷ 0 ∷ 92
    ∷ b'z' ∷ b'x' ∷ b'c' ∷ b'v' ∷ b'b' ∷ b'n' ∷ b'm' ∷ b',' ∷ b'.' ∷ b'/' ∷ 0 ∷ b'*' ∷ 0 ∷ b' ' ∷ 0
    ∷ []

-- The static variables of the module.
pub record Keyboard : Type 0 where
  pub buf : List ℕ
  pub head : ℕ
  pub tail : ℕ

-- `keyboard_init`; it leaves the buffer as it is.
pub init : Keyboard → Keyboard
init k = record k { head = 0; tail = 0 }

-- The character of a scancode, 0 if it is a break code or has none.
pub translate : ℕ → ℕ
translate scancode =
    if not (bit_and scancode 0x80 == 0)
    then 0
    else if ltb scancode 128
    then get_or scancode_ascii scancode 0
    else 0

-- The ring's part of `keyboard_handler`: a character that is not 0 is put in, unless the ring is full.
pub enqueue : Keyboard → ℕ → Keyboard
enqueue k c =
    let next = (k.head + 1) % buf_size in
    if c == 0
    then k
    else if next == k.tail
    then k
    else record k { buf = set k.buf k.head c; head = next }

-- `keyboard_handler` on the byte that it reads from the port.
pub handle : Keyboard → ℕ → Keyboard
unfolding translate enqueue
handle k scancode = enqueue k (translate scancode)

unfoldable pub getchar : Keyboard → ℕ × Keyboard
getchar k =
    if k.tail == k.head
    then (0, k)
    else (get_or k.buf k.tail 0, record k { tail = (k.tail + 1) % buf_size })

unfoldable pub has_key : Keyboard → Bool
has_key k = not (k.tail == k.head)
