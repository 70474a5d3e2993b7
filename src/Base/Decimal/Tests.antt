-- ===== src/Base/Decimal/Tests.antt =====
-- Numbers read at the limits of `u64`.
use rbackup.Base.{◌≡◌, refl, none, some}
use rbackup.Base.Decimal.{parse_u64}

too_large : parse_u64 "18446744073709551616" ≡ none
unfolding parse_u64
too_large = refl

signed : parse_u64 "+600" ≡ some 600
unfolding parse_u64
signed = refl

empty : parse_u64 "" ≡ none
unfolding parse_u64
empty = refl
