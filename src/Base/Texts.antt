-- ===== src/Base/Texts.antt =====
-- Texts: what the source uses of `str` beyond the library's operations.
use Prim.Native.Char.{Char, code}
use Prim.Native.String.{String, [], ◌∷◌}
use Prim.Native.Nat.{ℕ}
use mathlib.Core.List as Lists
use mathlib.Core.List.{List}
use mathlib.Core.Bool.{Bool, true, ◌&&◌, ◌||◌}
use qscheduler.Base.Tests.{nat_eq, leb}

-- `char::is_whitespace`: the property White_Space of Unicode.
unfoldable pub is_white_space : Char → Bool
is_white_space c =
    let n = code c in
    (leb 9 n && leb n 13)
    || nat_eq n 32
    || nat_eq n 133
    || nat_eq n 160
    || nat_eq n 5760
    || (leb 8192 n && leb n 8202)
    || nat_eq n 8232
    || nat_eq n 8233
    || nat_eq n 8239
    || nat_eq n 8287
    || nat_eq n 12288

-- `trim().is_empty()`.
unfoldable pub is_blank : String → Bool
is_blank [] = true
is_blank (c ∷ s) = is_white_space c && is_blank s

-- The characters of a text, as numbers.
abbrev pub codes : String → List ℕ
codes [] = Lists.[]
codes (c ∷ s) = Lists.◌∷◌ (code c) (codes s)
