-- ===== src/Base/Decimals.antt =====
-- The decimal digits of a uint64, as json.Marshal and gateway/internal/pending write them, the
-- latter with the loop of `strconvUint` over an array of twenty bytes.
use Prim.Native.Nat.{ℕ, zero, suc, ◌+◌, ◌-◌, ◌*◌, ◌/◌, ◌%◌, ◌<◌}
use mathlib.Core.Path.{◌≡◌, sym, ap, ◌∙◌}
use mathlib.Core.List.{[], ◌∷◌}
use native.Mathlib.Omega.{arith}
use codex_runtime.Base.Tests.{◌==◌, if◌then◌else◌}
use codex_runtime.Base.Texts.{Text}

-- The first argument is `index`, how many bytes of the array are free.
unfoldable pub digits_from : ℕ → ℕ → Text → Text
digits_from zero value digits = digits
digits_from (suc index) value digits =
    let rest = digits_from index (value / 10) ((48 + value % 10) ∷ digits) in
    if value == 0 then digits else rest

unfoldable pub strconv_uint : ℕ → Text
strconv_uint value = if value == 0 then 48 ∷ [] else digits_from 20 value []

-- The number that digits stand for, after those that stand for the first argument.
unfoldable pub number_from : ℕ → Text → ℕ
number_from n [] = n
number_from n (d ∷ ds) = number_from (n * 10 + (d - 48)) ds

abbrev pub power_of_ten : ℕ → ℕ
power_of_ten zero = 1
power_of_ten (suc n) = 10 * power_of_ten n

number-digits_from :
    (index value : ℕ) (digits : Text)
    → value < power_of_ten index
    → number_from 0 (digits_from index value digits) ≡ number_from value digits
unfolding digits_from number_from
number-digits_from zero value digits h = ground arith
number-digits_from (suc index) value digits h =
    ground (arith, number-digits_from index (value / 10) ((48 + value % 10) ∷ digits))

-- The digits that `strconvUint` writes for a number below 2^64, in its twenty bytes, stand for that
-- number.
pub number-strconv_uint :
    (value : ℕ) → value < 18446744073709551616 → number_from 0 (strconv_uint value) ≡ value
unfolding strconv_uint number_from
number-strconv_uint value h = ground (arith, number-digits_from 20 value [])

pub strconv_uint-injective :
    (m n : ℕ)
    → m < 18446744073709551616
    → n < 18446744073709551616
    → strconv_uint m ≡ strconv_uint n
    → m ≡ n
strconv_uint-injective m n hm hn p =
    sym (number-strconv_uint m hm) ∙ ap (number_from 0) p ∙ number-strconv_uint n hn
