-- ===== src/Pmm/Mark.antt =====
-- What `pmm_mark_used` does to each bit, and `pmm_init` before it.
use native.Mathlib.Decide.{ℕ_discrete}
use aura_os.Base.{
  ℕ, ◌+◌, ◌*◌, ◌/◌, ◌<◌, ◌≡◌, refl, true, false, arith, if◌then◌else◌, get_or-set_self,
  get_or-set_ne, get_or-replicate, length, ◌==◌, ==_iff, ==_false, lt→ltb,
}
use aura_os.Pmm.{Pmm, page_size, is_used, init, mark_used}
use aura_os.Pmm.Invariant.{IsValid}

pub total-mark_used : (s : Pmm) (paddr : ℕ) → (mark_used s paddr).total_frames ≡ s.total_frames
unfolding mark_used
total-mark_used s paddr = ground arith

pub is_used-mark_used :
    (s : Pmm) (f g : ℕ)
    → IsValid s
    → g < s.total_frames
    → is_used (mark_used s (f * page_size)).bitmap g ≡ (if f == g then true else is_used s.bitmap g)
unfolding mark_used
is_used-mark_used s f g v h =
    let page : f * page_size / page_size ≡ f = omega arith in
    let inside : g < length s.bitmap = omega (arith, v.covered) in
    elim (ℕ_discrete f g) [
      | yes e ↦
          rw (page, e, (==_iff g g).1 refl, lt→ltb g s.total_frames h)
            (ground (arith, get_or-set_self s.bitmap g true true inside))
      | no ne ↦ rw (page, ==_false f g ne) (ground (arith, get_or-set_ne s.bitmap f g true true ne))
    ]

pub is_used-init :
    (mem_size f : ℕ) → f < mem_size / page_size → is_used (init mem_size).bitmap f ≡ false
unfolding init
is_used-init mem_size f h =
    get_or-replicate ((mem_size / page_size + 7) / 8 * 8) f false true (omega arith)

pub total-init : (mem_size : ℕ) → (init mem_size).total_frames ≡ mem_size / page_size
unfolding init
total-init mem_size = refl
