-- ===== src/Panic/Dump.antt =====
-- What of the registers is on the panic screen.
use aura_os.Base.{ℕ, ◌≡◌, refl, List, Option, some}
use aura_os.Tui.{Screen, printf_at, format}
use aura_os.Panic.{Registers, draw_registers, draw_panic}

-- The conversions with widths and `%x` are not known to `tui_printf_at`.
draw_registers_blind :
    (r r' : Registers) (m : Screen) → draw_registers (some r) m ≡ draw_registers (some r') m
unfolding draw_registers printf_at format
draw_registers_blind r r' m = refl

-- The panic screen is the same for any two sets of register values: none of them is shown.
pub draw_panic_blind :
    (msg file : Option (List ℕ)) (line : ℕ) (r r' : Registers) (m : Screen)
    → draw_panic msg file line (some r) m ≡ draw_panic msg file line (some r') m
unfolding draw_panic
draw_panic_blind msg file line r r' m = simp (draw_registers_blind r r') refl
