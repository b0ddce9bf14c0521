-- ===== src/Prelude/Text.antt =====
-- The methods of Python texts that the program calls.
use Prim.Native.Nat.{ℕ}
use Prim.Native.Char.{code}
use Prim.Native.String.{String}
use mathlib.Core.Bool.{Bool, true, false, ◌&&◌, ◌||◌}
use mathlib.Core.Option.{Option, none, some}
use acr_framework.Prelude.Tests.{leb, eqb, if◌then◌else◌}

-- `s.startswith(t)`
pub starts_with : String → String → Bool
starts_with String.[] s = true
starts_with (String.◌∷◌ c t) String.[] = false
starts_with (String.◌∷◌ c t) (String.◌∷◌ d s) = eqb (code c) (code d) && starts_with t s

-- `s.removeprefix(t)` of a text that starts with `t`.
unfoldable pub after_prefix : String → String → Option String
after_prefix String.[] s = some s
after_prefix (String.◌∷◌ c t) String.[] = none
after_prefix (String.◌∷◌ c t) (String.◌∷◌ d s) =
    let rest = after_prefix t s in if eqb (code c) (code d) then rest else none

-- `t in s`
unfoldable pub includes : String → String → Bool
unfolding starts_with
includes t String.[] = starts_with t String.[]
includes t (String.◌∷◌ c s) = starts_with t (String.◌∷◌ c s) || includes t s

-- `str.isspace` of one character.
abbrev pub is_space : ℕ → Bool
is_space c =
    leb 9 c && leb c 13
    || leb 28 c && leb c 32
    || eqb c 133
    || eqb c 160
    || eqb c 5760
    || leb 8192 c && leb c 8202
    || eqb c 8232
    || eqb c 8233
    || eqb c 8239
    || eqb c 8287
    || eqb c 12288

-- `s.isascii()`
unfoldable pub is_ascii : String → Bool
is_ascii String.[] = true
is_ascii (String.◌∷◌ c s) = leb (code c) 127 && is_ascii s

-- `not s.strip()`
unfoldable pub is_blank : String → Bool
is_blank String.[] = true
is_blank (String.◌∷◌ c s) = is_space (code c) && is_blank s

abbrev is_nothing : String → Bool
is_nothing String.[] = true
is_nothing _ = false

-- `s.lstrip()` and `s.rstrip()` for a set of characters.
unfoldable pub strip_left : (ℕ → Bool) → String → String
strip_left p String.[] = String.[]
strip_left p (String.◌∷◌ c s) =
    let rest = strip_left p s in if p (code c) then rest else String.◌∷◌ c s

unfoldable pub strip_right : (ℕ → Bool) → String → String
strip_right p String.[] = String.[]
strip_right p (String.◌∷◌ c s) =
    let rest = strip_right p s in
    if p (code c) && is_nothing rest then String.[] else String.◌∷◌ c rest

-- `s.strip()`
unfoldable pub strip : String → String
unfolding strip_left strip_right
strip s = strip_right is_space (strip_left is_space s)
