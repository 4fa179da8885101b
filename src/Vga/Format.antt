-- ===== src/Vga/Format.antt =====
-- `vga_printf` writes what `serial_printf` sends.
use aura_os.Base.{
  ℕ, ◌≡◌, ◌≢◌, inl, inr, refl, Bool, true, false, not, ◌&&◌, List, [], ◌∷◌, ◌++◌, arith, ◌==◌,
  Bool-cases, u32, ◌^◌,
}
use aura_os.Varargs.{Arg, text, number}
use aura_os.Serial
use aura_os.Vga.{directive, format}

-- No number is the least `int`.
abbrev pub Negatable : Arg → Type 0
Negatable (text s) = Unit
Negatable (number n) = u32 n ≢ 2 ^ 31

abbrev pub AllNegatable : List Arg → Type 0
AllNegatable [] = Unit
AllNegatable (a ∷ args) = Negatable a × AllNegatable args

-- Each `%` has a character behind it, which is not `p`.
unfoldable pub common : List ℕ → Bool
common [] = true
common (c ∷ []) = not (c == b'%')
common (c ∷ d ∷ fmt) = elim (c == b'%') [
  | true ↦ not (d == b'p') && common fmt
  | false ↦ common (d ∷ fmt)
]

not_p : (d : ℕ) (b : Bool) → (not (d == b'p') && b) ≡ true → (d ≢ b'p') × (b ≡ true)
not_p d b h = (λ e. ground (arith, h), ground (arith, h))

-- A `%` alone at the end of such a format makes `vga_printf` read behind the format's NUL.
pub format_lone :
    (fmt : List ℕ) (args : List Arg) → common fmt ≡ true → (format (fmt ++ b'%' ∷ []) args).1 ≡ true
unfolding format common
format_lone [] args h = refl
format_lone (c ∷ []) args h = elim (Bool-cases (c == b'%')) [
  | inl e ↦ absurd (cc)
  | inr e ↦ rw (e, format) refl
]
format_lone (c ∷ d ∷ fmt) args h = elim (Bool-cases (c == b'%')) [
  | inl e ↦
      let (ne, h') = not_p d (common fmt) (rw (e, common) at h) in
      rw (e, format) (format_lone fmt (directive d args).1 h')
  | inr e ↦ rw (e, format) (format_lone (d ∷ fmt) args (rw (e, common) at h))
]
