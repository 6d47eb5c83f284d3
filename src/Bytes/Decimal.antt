-- ===== src/Bytes/Decimal.antt =====
-- `std::to_string` of a size.
use f.Prelude.{
  ℕ, zero, suc, ◌+◌, ◌-◌, ◌*◌, ◌/◌, ◌%◌, ◌<◌, ◌≤◌, ◌≡◌, refl, List, [], ◌∷◌, ◌++◌, ltb, true, false,
  if◌then◌else◌, All, All-concat, arith,
}

-- The fuel bounds the number of digits.
unfoldable pub decimal : ℕ → ℕ → List ℕ
decimal zero n = []
decimal (suc fuel) n =
    let front = decimal fuel (n / 10) in
    if ltb n 10 then (b'0' + n) ∷ [] else front ++ (b'0' + n % 10) ∷ []

-- A number is above the count of its digits less one, so this fuel is enough.
unfoldable pub to_string : ℕ → List ℕ
unfolding decimal
to_string n = decimal (suc n) n

pub decimal_small : (fuel n : ℕ) → ltb n 10 ≡ true → decimal (suc fuel) n ≡ (b'0' + n) ∷ []
unfolding decimal
decimal_small fuel n h = rw h

pub decimal_large :
    (fuel n : ℕ)
    → ltb n 10 ≡ false
    → decimal (suc fuel) n ≡ decimal fuel (n / 10) ++ (b'0' + n % 10) ∷ []
unfolding decimal
decimal_large fuel n h = rw h

-- The value of a run of digits behind the value `acc`.
unfoldable pub read_decimal : ℕ → List ℕ → ℕ
read_decimal acc [] = acc
read_decimal acc (c ∷ cs) = read_decimal (acc * 10 + c - b'0') cs

pub read_decimal-concat :
    (acc : ℕ) (cs : List ℕ) (c : ℕ)
    → read_decimal acc (cs ++ c ∷ []) ≡ read_decimal acc cs * 10 + c - b'0'
unfolding read_decimal
read_decimal-concat acc [] c = refl
read_decimal-concat acc (x ∷ cs) c = read_decimal-concat (acc * 10 + x - b'0') cs c

read_decimal-decimal : (fuel n : ℕ) → n < fuel → read_decimal 0 (decimal fuel n) ≡ n
unfolding decimal read_decimal
read_decimal-decimal zero n h = elim h [ ]
read_decimal-decimal (suc fuel) n h = ground (
  arith,
  read_decimal-concat 0 (decimal fuel (n / 10)) (b'0' + n % 10),
  read_decimal-decimal fuel (n / 10),
)

pub read_decimal-to_string : (n : ℕ) → read_decimal 0 (to_string n) ≡ n
unfolding to_string
read_decimal-to_string n = read_decimal-decimal (suc n) n (omega arith)

abbrev pub IsDigit : ℕ → Type 0
IsDigit c = (b'0' ≤ c) × (c ≤ b'9')

pub decimal-IsDigit : (fuel n : ℕ) → All IsDigit (decimal fuel n)
unfolding decimal
decimal-IsDigit zero n = tt
decimal-IsDigit (suc fuel) n = ground (
  arith,
  All-concat IsDigit (decimal fuel (n / 10)) (b'0' + n % 10) (decimal-IsDigit fuel (n / 10)),
)
