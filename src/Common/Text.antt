-- ===== src/Common/Text.antt =====
-- `String.prototype.trim`, over the code points that JavaScript counts as white space.
use Prim.Native.Nat.{ℕ, zero, suc}
use Prim.Native.Char.{code}
use Prim.Native.String.{String, [], ◌∷◌}
use mathlib.Core.Bool.{Bool, ◌&&◌, ◌||◌, true, false}
use mathlib.Core.Option.{Option, none, some}
use nola_hq_backend.Common.Tests.{leb, ◌==◌, nat_eq, if◌then◌else◌}

is_space : ℕ → Bool
is_space c =
    (leb 9 c && leb c 13)
    || c == 32
    || c == 160
    || c == 5760
    || (leb 8192 c && leb c 8202)
    || c == 8232
    || c == 8233
    || c == 8239
    || c == 8287
    || c == 12288
    || c == 65279

trim_start : String → String
unfolding is_space
trim_start [] = []
trim_start (c ∷ s) = let rest = trim_start s in if is_space (code c) then rest else c ∷ s

is_empty : String → Bool
is_empty [] = true
is_empty (c ∷ s) = false

trim_end : String → String
unfolding is_space is_empty
trim_end [] = []
trim_end (c ∷ s) =
    let rest = trim_end s in if is_empty rest && is_space (code c) then [] else c ∷ rest

unfoldable pub trim : String → String
unfolding trim_start trim_end
trim s = trim_end (trim_start s)

-- `s || null`, and `s?.trim() || null`
abbrev pub or_null : String → Option String
or_null [] = none
or_null (c ∷ s) = some (c ∷ s)

abbrev pub trim_or_null : Option String → Option String
trim_or_null none = none
trim_or_null (some s) = or_null (trim s)

-- `s.startsWith(prefix)`, with `s.slice(prefix.length)`
abbrev pub after_prefix : (prefix s : String) → Option String
after_prefix [] s = some s
after_prefix (c ∷ prefix) [] = none
after_prefix (c ∷ prefix) (d ∷ s) =
    let rest = after_prefix prefix s in if code c == code d then rest else none

-- `s.slice(0, n)`, by code points
abbrev pub slice_to : ℕ → String → String
slice_to n [] = []
slice_to zero (c ∷ s) = []
slice_to (suc n) (c ∷ s) = c ∷ slice_to n s
