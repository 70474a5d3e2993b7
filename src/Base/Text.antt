-- ===== src/Base/Text.antt =====
-- The standard library's `str` methods that the program calls: `is_empty`, `trim` and `lines`.
use Prim.Native.Nat.{ℕ}
use Prim.Native.Char.{Char, code}
use Prim.Native.String.{String}
use mathlib.Core.Bool.{Bool, true, false, ◌&&◌, ◌||◌}
use mathlib.Core.List.{List, [], ◌∷◌, map}
use rbackup.Base.Tests.{leb, if◌then◌else◌}

abbrev pub is_empty : String → Bool
is_empty String.[] = true
is_empty (String.◌∷◌ c s) = false

abbrev equal : ℕ → ℕ → Bool
equal a b = leb a b && leb b a

-- `char::is_whitespace`: the code points with the Unicode property White_Space.
unfoldable pub is_whitespace : Char → Bool
is_whitespace c =
    leb 9 (code c) && leb (code c) 13
    || equal (code c) 32
    || equal (code c) 0x85
    || equal (code c) 0xa0
    || equal (code c) 0x1680
    || leb 0x2000 (code c) && leb (code c) 0x200a
    || equal (code c) 0x2028
    || equal (code c) 0x2029
    || equal (code c) 0x202f
    || equal (code c) 0x205f
    || equal (code c) 0x3000

unfoldable pub trim_start : String → String
unfolding is_whitespace
trim_start String.[] = String.[]
trim_start (String.◌∷◌ c s) =
    let rest = trim_start s in if is_whitespace c then rest else String.◌∷◌ c s

unfoldable pub trim_end : String → String
unfolding is_whitespace
trim_end String.[] = String.[]
trim_end (String.◌∷◌ c s) =
    let rest = trim_end s in
    if is_whitespace c && is_empty rest then String.[] else String.◌∷◌ c rest

-- `str::trim`
unfoldable pub trim : String → String
unfolding trim_start trim_end
trim s = trim_start (trim_end s)

-- A character put in front of the first line.
abbrev push : Char → List String → List String
push c [] = String.◌∷◌ c String.[] ∷ []
push c (line ∷ rest) = String.◌∷◌ c line ∷ rest

-- `split_inclusive('\n')`: each line with its line feed.
unfoldable pub split_inclusive : String → List String
split_inclusive String.[] = []
split_inclusive (String.◌∷◌ c s) =
    let rest = split_inclusive s in
    if equal (code c) 10 then String.◌∷◌ c String.[] ∷ rest else push c rest

is_line_feed : String → Bool
is_line_feed String.[] = false
is_line_feed (String.◌∷◌ c s) = equal (code c) 10 && is_empty s

-- A line without its line feed, and without a carriage return in front of that.
unfoldable pub strip_line_end : String → String
unfolding is_line_feed
strip_line_end String.[] = String.[]
strip_line_end (String.◌∷◌ c s) =
    let rest = strip_line_end s in
    if is_line_feed (String.◌∷◌ c s) || equal (code c) 13 && is_line_feed s
    then String.[]
    else String.◌∷◌ c rest

-- `str::lines`
unfoldable pub lines : String → List String
unfolding split_inclusive strip_line_end
lines s = map strip_line_end (split_inclusive s)
