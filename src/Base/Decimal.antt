-- ===== src/Base/Decimal.antt =====
-- Decimal text of machine integers: `u64::from_str`, and the `Display` of the integer types.
mod Tests
use Prim.Native.Nat.{ℕ, zero, suc, ◌+◌, ◌-◌, ◌*◌, ◌/◌, ◌%◌, ◌^◌, ◌≤◌, ◌<◌}
use Prim.Native.Char.{Char, code}
use Prim.Native.String.{String}
use mathlib.Core.Path.{◌≡◌, refl}
use mathlib.Core.Bool.{Bool, ◌&&◌}
use mathlib.Core.Option.{Option, none, some}
use native.Mathlib.Omega.{arith}
use rbackup.Base.Tests.{ltb, leb, if◌then◌else◌}
use rbackup.Base.Text.{is_empty}
use rbackup.Base.Int.{ℤ, pos, negsuc}

abbrev pub u64_limit : ℕ
u64_limit = 2 ^ 64

digit : ℕ → Char
digit zero = "0"
digit (suc zero) = "1"
digit (suc (suc zero)) = "2"
digit (suc (suc (suc zero))) = "3"
digit (suc (suc (suc (suc zero)))) = "4"
digit (suc (suc (suc (suc (suc zero))))) = "5"
digit (suc (suc (suc (suc (suc (suc zero)))))) = "6"
digit (suc (suc (suc (suc (suc (suc (suc zero))))))) = "7"
digit (suc (suc (suc (suc (suc (suc (suc (suc zero)))))))) = "8"
digit _ = "9"

-- The digits of `n` in front of `out`; each round divides by ten, so fuel above `n` is enough.
print_onto : ℕ → ℕ → String → String
print_onto zero n out = out
print_onto (suc fuel) n out =
    let longer = print_onto fuel (n / 10) (String.◌∷◌ (digit (n % 10)) out) in
    if ltb n 10 then String.◌∷◌ (digit n) out else longer

-- `{}` of an unsigned integer.
unfoldable pub print : ℕ → String
unfolding print_onto digit
print n = print_onto (suc n) n String.[]

-- `{}` of a signed integer.
unfoldable pub print_ℤ : ℤ → String
unfolding print
print_ℤ (pos n) = print n
print_ℤ (negsuc n) = String.◌∷◌ "-" (print (suc n))

abbrev is_digit : Char → Bool
is_digit c = leb 48 (code c) && leb (code c) 57

-- The digits of `s` read behind the value so far; an overflow of `u64` is an error.
scan : String → ℕ → Option ℕ
scan String.[] value = some value
scan (String.◌∷◌ c s) value =
    let rest = scan s (value * 10 + (code c - 48)) in
    if is_digit c && ltb (value * 10 + (code c - 48)) u64_limit then rest else none

abbrev is_plus : Char → Bool
is_plus c = leb 43 (code c) && leb (code c) 43

-- `s.parse::<u64>().ok()`, and `usize` where that has 64 bits: digits behind an optional `+`.
unfoldable pub parse_u64 : String → Option ℕ
unfolding scan
parse_u64 String.[] = none
parse_u64 (String.◌∷◌ c s) =
    if is_plus c then (if is_empty s then none else scan s 0) else scan (String.◌∷◌ c s) 0

code-digit : (d : ℕ) → d < 10 → code (digit d) ≡ 48 + d
unfolding digit
code-digit zero h = refl
code-digit (suc zero) h = refl
code-digit (suc (suc zero)) h = refl
code-digit (suc (suc (suc zero))) h = refl
code-digit (suc (suc (suc (suc zero)))) h = refl
code-digit (suc (suc (suc (suc (suc zero))))) h = refl
code-digit (suc (suc (suc (suc (suc (suc zero)))))) h = refl
code-digit (suc (suc (suc (suc (suc (suc (suc zero))))))) h = refl
code-digit (suc (suc (suc (suc (suc (suc (suc (suc zero)))))))) h = refl
code-digit (suc (suc (suc (suc (suc (suc (suc (suc (suc zero))))))))) h = refl
code-digit (suc (suc (suc (suc (suc (suc (suc (suc (suc (suc n)))))))))) h = absurd (omega arith)

-- Reading the last digit of `n` after the digits before it gives `n`.
scan-last :
    (n : ℕ) (out : String)
    → n < u64_limit
    → scan (String.◌∷◌ (digit (n % 10)) out) (n / 10) ≡ scan out n
unfolding scan
scan-last n out h = ground (arith, code-digit (n % 10) (omega arith))

scan-digit : (n : ℕ) (out : String) → n < 10 → scan (String.◌∷◌ (digit n) out) 0 ≡ scan out n
unfolding scan
scan-digit n out h = ground (arith, code-digit n h)

scan-print_onto :
    (fuel n : ℕ) (out : String)
    → n < fuel
    → n < u64_limit
    → scan (print_onto fuel n out) 0 ≡ scan out n
unfolding print_onto
scan-print_onto zero n out h fits = elim h [ ]
scan-print_onto (suc fuel) n out h fits = ground (
  arith,
  scan-digit n out,
  scan-last n out fits,
  scan-print_onto fuel (n / 10) (String.◌∷◌ (digit (n % 10)) out),
)

-- The first character is a digit, whatever stands behind.
abbrev StartsDigit : String → Type 0
StartsDigit String.[] = ⊥
StartsDigit (String.◌∷◌ c s) = (48 ≤ code c) × (code c ≤ 57)

print_onto-StartsDigit :
    (fuel n : ℕ) (out : String) → n < fuel → StartsDigit (print_onto fuel n out)
unfolding print_onto
print_onto-StartsDigit zero n out h = elim h [ ]
print_onto-StartsDigit (suc fuel) n out h =
    ground
      (arith, code-digit n, print_onto-StartsDigit fuel (n / 10) (String.◌∷◌ (digit (n % 10)) out))

parse_u64-scan : (s : String) → StartsDigit s → parse_u64 s ≡ scan s 0
unfolding parse_u64
parse_u64-scan String.[] h = absurd h
parse_u64-scan (String.◌∷◌ c s) h = ground arith

pub parse_u64-print : (n : ℕ) → n < u64_limit → parse_u64 (print n) ≡ some n
unfolding print scan
parse_u64-print n fits =
    rw (parse_u64-scan (print n) (print_onto-StartsDigit (suc n) n String.[] (omega arith)))
      (scan-print_onto (suc n) n String.[] (omega arith) fits)

scan-lt :
    (s : String) (value : ℕ) {r : ℕ} → value < u64_limit → scan s value ≡ some r → r < u64_limit
unfolding scan
scan-lt String.[] value fits h = ground arith
scan-lt (String.◌∷◌ c s) value {r} fits h =
    ground (arith, scan-lt s (value * 10 + (code c - 48)) {r = r})

pub parse_u64-lt : (s : String) {r : ℕ} → parse_u64 s ≡ some r → r < u64_limit
unfolding parse_u64
parse_u64-lt String.[] h = cc
parse_u64-lt (String.◌∷◌ c s) {r} h =
    ground (arith, scan-lt s 0 {r = r}, scan-lt (String.◌∷◌ c s) 0 {r = r})
