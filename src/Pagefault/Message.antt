-- ===== src/Pagefault/Message.antt =====
-- The message of a page fault fits its buffer and gives the description and the address whole.
use aura_os.Base.{
  codes, ℕ, zero, suc, ◌+◌, ◌^◌, ◌≤◌, ◌<◌, ◌≡◌, refl, ap, ◌∙◌, true, false, List, [], ◌∷◌, ◌++◌,
  arith, length, take, drop, length-append,
}
use aura_os.Pagefault.{hex_to_str, decode, describe, page_fault_message}
use aura_os.Pagefault.Hex.{hex_value, hex_value-hex_digits, length-hex_digits}

describe-length :
    (p w u r i : _)
    → length (describe (record { present = p; write = w; user = u; reserved = r; instr_fetch = i }))
      ≤ 80
unfolding describe
describe-length p w u true i = omega arith
describe-length true w u false true = omega arith
describe-length false w u false true = omega arith
describe-length true true true false false = omega arith
describe-length false true true false false = omega arith
describe-length true false true false false = omega arith
describe-length false false true false false = omega arith
describe-length true true false false false = omega arith
describe-length false true false false false = omega arith
describe-length true false false false false = omega arith
describe-length false false false false false = omega arith

take_all : (n : ℕ) (xs : List ℕ) → length xs ≤ n → take n xs ≡ xs
take_all zero [] h = refl
take_all zero (x ∷ xs) h = absurd (omega arith)
take_all (suc n) [] h = refl
take_all (suc n) (x ∷ xs) h = ap (λ ys. x ∷ ys) (take_all n xs (omega arith))

-- For any error code and 64-bit address the message is the description of the decoded code, not cut,
-- then " at " and the address; with its NUL it fits the 128 bytes of the buffer; and the text after
-- "0x" has 16 digits, which stand for the address.
pub page_fault_message_lem :
    (err_code fault_addr : ℕ)
    → fault_addr < 2 ^ 64
    → (page_fault_message err_code fault_addr
        ≡ describe (decode err_code) ++ (codes " at " ++ hex_to_str fault_addr))
      × (length (page_fault_message err_code fault_addr) + 1 ≤ 128)
      × (length (hex_to_str fault_addr) ≡ 18)
      × (hex_value 0 (drop 2 (hex_to_str fault_addr)) ≡ fault_addr)
unfolding page_fault_message hex_to_str
page_fault_message_lem err_code fault_addr h =
    let f = decode err_code in
    let desc = describe f in
    let short : length desc ≤ 80 =
      describe-length f.present f.write f.user f.reserved f.instr_fetch in
    let whole = take_all 80 desc short in
    let digits : length (hex_to_str fault_addr) ≡ 18 =
      ap (λ n. suc (suc n)) (length-hex_digits 16 fault_addr) in
    (
      ap (λ d. d ++ (codes " at " ++ hex_to_str fault_addr)) whole,
      omega (
        arith,
        ap length whole,
        length-append (take 80 desc) (codes " at " ++ hex_to_str fault_addr),
        length-append (codes " at ") (hex_to_str fault_addr),
        digits,
      ),
      digits,
      hex_value-hex_digits 16 0 fault_addr (omega arith) ∙ omega arith,
    )
