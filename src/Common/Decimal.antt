-- ===== src/Common/Decimal.antt =====
-- std::to_string of an unsigned number, and its reading back.
use Prim.Native.Nat.{ℕ, zero, suc, ◌+◌, ◌-◌, ◌*◌, ◌/◌, ◌%◌, ◌<◌}
use mathlib.Core.Path.{◌≡◌, refl}
use mathlib.Core.Logic.{inl, inr}
use mathlib.Core.List.{[], ◌∷◌, ◌++◌}
use native.Mathlib.Omega.{arith}
use yoru_speech.Common.Tests.{ltb, if◌then◌else◌, Bool-cases}
use yoru_speech.Common.Bytes.{Text}

digits : ℕ → ℕ → Text
digits zero n = []
digits (suc fuel) n =
    let front = digits fuel (n / 10) in
    if ltb n 10 then (48 + n) ∷ [] else front ++ (48 + n % 10) ∷ []

-- As many turns as the number are more than it has digits.
unfoldable pub to_string : ℕ → Text
unfolding digits
to_string n = digits (suc n) n

read_on : ℕ → Text → ℕ
read_on n [] = n
read_on n (c ∷ cs) = read_on (n * 10 + (c - 48)) cs

unfoldable pub number_of : Text → ℕ
unfolding read_on
number_of text = read_on 0 text

read_on-append :
    (n : ℕ) (text : Text) (c : ℕ) → read_on n (text ++ c ∷ []) ≡ read_on n text * 10 + (c - 48)
unfolding read_on
read_on-append n [] c = refl
read_on-append n (d ∷ text) c = read_on-append (n * 10 + (d - 48)) text c

digits_lem : (fuel n : ℕ) → n < fuel → read_on 0 (digits fuel n) ≡ n
unfolding digits read_on
digits_lem zero n h = elim h [ ]
digits_lem (suc fuel) n h = elim (Bool-cases (ltb n 10)) [
  | inl small ↦ ground (arith, small)
  | inr large ↦ ground (
    arith,
    large,
    read_on-append 0 (digits fuel (n / 10)) (48 + n % 10),
    digits_lem fuel (n / 10),
  )
]

pub number_of-to_string : (n : ℕ) → number_of (to_string n) ≡ n
unfolding number_of to_string
number_of-to_string n = digits_lem (suc n) n (omega arith)
