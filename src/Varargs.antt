-- ===== src/Varargs.antt =====
-- The variable arguments of the three printing functions (`va_list`): a list, from which `va_arg` takes
-- the next; where it is too short or the kind is another, a number is 0 and a string NULL.
use aura_os.Base.{ℕ, Option, none, List, [], ◌∷◌}

-- An argument: a string, which may be NULL, or a number.
pub data Arg : Type 0 where
  text : Option (List ℕ) → Arg
  number : ℕ → Arg

abbrev pub as_number : Arg → ℕ
as_number (text s) = 0
as_number (number n) = n

abbrev pub as_text : Arg → Option (List ℕ)
as_text (text s) = s
as_text (number n) = none

abbrev pub next_arg : List Arg → Arg × List Arg
next_arg [] = (number 0, [])
next_arg (a ∷ args) = (a, args)
