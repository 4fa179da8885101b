-- ===== src/Pagefault.antt =====
-- The page fault handler, kernel/core/pagefault.c: what it makes of the error code and of the address
-- before it calls the panic screen. A C string is the list of the characters before its NUL.
pub mod Hex
pub mod Message
mod Examples
use Prim.Native.Nat.{bit_and}
use aura_os.Base.{
  codes, ℕ, zero, suc, ◌*◌, ◌/◌, ◌%◌, ◌^◌, Bool, not, List, [], ◌∷◌, ◌++◌, ◌==◌, if◌then◌else◌, u32,
  take, get_or,
}

abbrev hex : List ℕ
hex = codes "0123456789abcdef"

pub hex_digit : ℕ → ℕ
hex_digit n = get_or hex n 0

-- The loop of `hex_to_str`: the digits of the lowest `n` nibbles, the highest first.
pub hex_digits : ℕ → ℕ → List ℕ
unfolding hex_digit
hex_digits zero v = []
hex_digits (suc i) v = hex_digit (v / 2 ^ (i * 4) % 16) ∷ hex_digits i v

pub hex_to_str : ℕ → List ℕ
unfolding hex_digits
hex_to_str v = b'0' ∷ b'x' ∷ hex_digits 16 v

-- The bits of the error code.
pub record Fault : Type 0 where
  pub present : Bool
  pub write : Bool
  pub user : Bool
  pub reserved : Bool
  pub instr_fetch : Bool

pub decode : ℕ → Fault
decode err_code =
    let err = u32 err_code in
    record {
      present = not (bit_and err 1 == 0);
      write = not (bit_and err 2 == 0);
      user = not (bit_and err 4 == 0);
      reserved = not (bit_and err 8 == 0);
      instr_fetch = not (bit_and err 16 == 0);
    }

pub describe : Fault → List ℕ
describe f =
    if f.reserved
    then codes "page fault: reserved bit set in page tables"
    else if f.instr_fetch
    then (if f.present
        then codes "page fault: exec on NX present page"
        else codes "page fault: exec on non-present page")
    else if f.user
    then (if f.write
        then (if f.present
            then codes "page fault: user write protection violation"
            else codes "page fault: user write to non-present page")
        else if f.present
        then codes "page fault: user read protection violation"
        else codes "page fault: user read from non-present page")
    else if f.write
    then (if f.present
        then codes "page fault: kernel write protection violation"
        else codes "page fault: kernel write to non-present page")
    else if f.present
    then codes "page fault: kernel read protection violation"
    else codes "page fault: kernel read from non-present page"

-- The text in the buffer `msg`, which `aura_panic_interactive` is called with.
unfoldable pub page_fault_message : ℕ → ℕ → List ℕ
unfolding decode describe hex_to_str
page_fault_message err_code fault_addr =
    take 80 (describe (decode err_code)) ++ (codes " at " ++ hex_to_str fault_addr)
