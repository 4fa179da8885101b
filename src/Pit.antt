-- ===== src/Pit.antt =====
-- The interval timer, kernel/arch/x86_shared/pit.c: the tick counter and the callback. The state that
-- the callback changes is a type parameter. Port writes are the list of port and byte.
use Prim.Native.Nat.{bit_and}
use aura_os.Base.{ℕ, ◌+◌, ◌/◌, ◌^◌, Option, none, some, List, [], ◌∷◌, u8, u64}

-- PIT_TICKS_PER_SECOND, PIT_BASE_FREQUENCY
abbrev pub ticks_per_second : ℕ
ticks_per_second = 1000

abbrev pub base_frequency : ℕ
base_frequency = 1193182

-- The static variables of the module.
pub record Pit (S : Type 0) : Type 0 where
  pub ticks : ℕ
  pub callback : Option (S → S)

-- What `pit_init` writes to the ports, in order.
unfoldable pub init_writes : List (ℕ × ℕ)
init_writes =
    let divisor = base_frequency / ticks_per_second in
    (0x43, 0x36)
    ∷ (0x40, u8 (bit_and divisor 0xff))
    ∷ (0x40, u8 (bit_and (divisor / 2 ^ 8) 0xff))
    ∷ []

module _ {S : Type 0} where
  unfoldable pub irq_handler : Pit S → S → Pit S × S
  irq_handler p s = (
    record p { ticks = u64 (p.ticks + 1) },
    elim p.callback [ none ↦ s | some callback ↦ callback s ],
  )

  unfoldable pub set_callback : Pit S → Option (S → S) → Pit S
  set_callback p callback = record p { callback = callback }

  unfoldable pub get_ticks : Pit S → ℕ
  get_ticks p = p.ticks
