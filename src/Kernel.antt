-- ===== src/Kernel.antt =====
-- The entry of the kernel, kernel/main.c: the frames that it keeps for itself, and the loop that hands
-- what is typed to the shell. The messages, the waits for the timer and the drawing are left out.
pub mod Reserve
pub mod Keys
pub mod Memory
mod Examples
use Prim.Native.Nat.{bit_and}
use aura_os.Base.{
  ℕ, zero, suc, ◌+◌, ◌-◌, ◌*◌, ◌/◌, ◌^◌, Bool, true, false, leb, ◌==◌, if◌then◌else◌, u64,
}
use aura_os.Pmm
use aura_os.Pmm.{Pmm, page_size, mark_used}
use aura_os.Heap
use aura_os.Heap.{Heap}
use aura_os.Keyboard.{Keyboard, has_key, getchar}
use aura_os.Menu.{Menu, Outcome, returned, halted, invalid_opcode, page_fault, handle_key}
use aura_os.Serial
use aura_os.Sysmon.{Sysmon, SysmonStats, set_idle}
use aura_os.Zram.Pool.{ZramStats}

-- The first page behind the image, where `end` is the address of `_end`.
pub bitmap_address : ℕ → ℕ
bitmap_address end_ = bit_and (u64 (end_ + 4095)) (2 ^ 64 - 4096)

-- The memory that is managed: 64 MB if the boot loader tells nothing.
pub ram_size : ℕ → ℕ
ram_size total_memory_bytes =
    if total_memory_bytes == 0 then 64 * 1024 * 1024 else total_memory_bytes

pub reserved_frames : ℕ → ℕ → ℕ
reserved_frames ram bitmap =
    let total_frames = ram / page_size in
    let bitmap_size = (total_frames + 7) / 8 in u64 (bitmap + bitmap_size + 4095) / page_size

-- The loop: `left` frames from frame `f` on.
pub reserve : ℕ → ℕ → Pmm → Pmm
reserve zero f s = s
reserve (suc left) f s = reserve left (f + 1) (mark_used s (f * page_size))

pub boot_frames : ℕ → ℕ → Pmm
unfolding ram_size reserved_frames reserve
boot_frames total_memory_bytes bitmap =
    let ram = ram_size total_memory_bytes in reserve (reserved_frames ram bitmap) 0 (Pmm.init ram)

-- The heap on the frames that are left.
pub boot_heap : Heap → ℕ → ℕ → Heap
boot_heap h total_memory_bytes bitmap =
    Heap.init (record h { frames = boot_frames total_memory_bytes bitmap }) 0

-- The variables that the loop works on.
pub record Kernel : Type 0 where
  pub keyboard : Keyboard
  pub menu : Menu
  pub sysmon : Sysmon
  pub last_refresh : ℕ

module _ (stats : SysmonStats) (zstats : ZramStats) where
  -- `if (c) menu_handle_key(c);`
  pub feed : Menu → ℕ → Menu × Outcome
  feed m c = if c == 0 then (m, returned) else handle_key stats zstats m c

  -- The keys that wait, in `fuel` rounds at most, up to a command that does not return.
  pub drain : ℕ → Keyboard → Menu → Keyboard × Menu × Outcome
  unfolding feed
  drain zero k m = (k, m, returned)
  drain (suc fuel) k m =
      let (c, k') = getchar k in
      let (m', outcome) = feed m c in
      elim (has_key k) [
        | false ↦ (k, m, returned)
        | true ↦ elim outcome [ returned ↦ drain fuel k' m' | other ↦ (k', m', other) ]
      ]

  -- The serial port, given its line status and the received byte.
  pub poll_serial : Menu → ℕ → ℕ → Menu × Outcome
  unfolding feed
  poll_serial m line_status received =
      if Serial.has_char line_status
      then (let c = Serial.getc line_status received in feed m (if c == 13 then 10 else c))
      else (m, returned)

  -- A round of the loop at the time `now`.
  pub round : Kernel → ℕ → ℕ → ℕ → Kernel × Outcome
  unfolding drain poll_serial
  round s line_status received now =
      let (k, m, outcome) = drain 32 s.keyboard s.menu in
      let (m', outcome') = poll_serial m line_status received in
      let refreshed = leb 200 (u64 (now + 2 ^ 64 - s.last_refresh)) in
      elim outcome [
        | returned ↦ elim outcome' [
          | returned ↦ (
            record {
              keyboard = k;
              menu = m';
              sysmon = set_idle s.sysmon;
              last_refresh = if refreshed then now else s.last_refresh;
            },
            returned,
          )
          | other ↦ (record s { keyboard = k; menu = m' }, other)
        ]
        | other ↦ (record s { keyboard = k; menu = m }, other)
      ]
