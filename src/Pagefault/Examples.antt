-- ===== src/Pagefault/Examples.antt =====
-- Runs of the page fault handler, and its theorem at a concrete fault.
use aura_os.Base.{codes, ◌+◌, ◌≤◌, ◌≡◌, refl, ◌++◌, arith, length, drop}
use aura_os.Pagefault.{hex_to_str, decode, describe, page_fault_message}
use aura_os.Pagefault.Hex.{hex_value}
use aura_os.Pagefault.Message.{page_fault_message_lem}

user_write :
    page_fault_message 7 0xdeadb000
    ≡ codes "page fault: user write protection violation at 0x00000000deadb000"
unfolding page_fault_message
user_write = refl

nx_absent :
    page_fault_message 0x14 0x10
    ≡ codes "page fault: exec on non-present page at 0x0000000000000010"
unfolding page_fault_message
nx_absent = refl

page_fault_message_lem_example :
    (page_fault_message 7 0xdeadb000
      ≡ describe (decode 7) ++ (codes " at " ++ hex_to_str 0xdeadb000))
    × (length (page_fault_message 7 0xdeadb000) + 1 ≤ 128)
    × (length (hex_to_str 0xdeadb000) ≡ 18)
    × (hex_value 0 (drop 2 (hex_to_str 0xdeadb000)) ≡ 0xdeadb000)
page_fault_message_lem_example = page_fault_message_lem 7 0xdeadb000 (omega arith)
