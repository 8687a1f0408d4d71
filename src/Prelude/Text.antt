-- ===== src/Prelude/Text.antt =====
-- Texts walked by character.
use Prim.Native.Nat.{ℕ, suc}
use Prim.Native.Char.{Char, code}
use Prim.Native.String.{String}
use mathlib.Core.Path.{◌≡◌, refl, ap}
use mathlib.Core.Bool.{Bool, true, false, ◌||◌, ◌&&◌}
use native.Mathlib.Omega.{arith}
use package.walnats.Prelude.Tests.{nat_beq, if◌then◌else◌}

-- `len(s)`
abbrev pub str_len : String → ℕ
str_len String.[] = 0
str_len (String.◌∷◌ c s) = suc (str_len s)

-- Some character, given by its code point, passes the test.
abbrev pub any_char : (ℕ → Bool) → String → Bool
any_char p String.[] = false
any_char p (String.◌∷◌ c s) = p (code c) || any_char p s

abbrev pub all_chars : (ℕ → Bool) → String → Bool
all_chars p String.[] = true
all_chars p (String.◌∷◌ c s) = p (code c) && all_chars p s

-- `s.replace(a, b)` for two characters.
abbrev pub replace_char : ℕ → Char → String → String
replace_char a b String.[] = String.[]
replace_char a b (String.◌∷◌ c s) =
    String.◌∷◌ (if nat_beq (code c) a then b else c) (replace_char a b s)

module _ (a : ℕ) (b : Char) where
  pub str_len-replace_char : (s : String) → str_len (replace_char a b s) ≡ str_len s
  str_len-replace_char String.[] = refl
  str_len-replace_char (String.◌∷◌ c s) = ap suc (str_len-replace_char s)

  -- A text without the character stays as it is.
  pub replace_char_absent :
      (s : String) → any_char (λ x. nat_beq x a) s ≡ false → replace_char a b s ≡ s
  replace_char_absent String.[] h = refl
  replace_char_absent (String.◌∷◌ c s) h = ground (arith, replace_char_absent s)
