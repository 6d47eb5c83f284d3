-- ===== src/Parser/Versions.antt =====
-- The version numbers: the parser over the decimal digits of a number.
use f.Prelude.{
  ℕ, zero, suc, ◌+◌, ◌*◌, ◌/◌, ◌%◌, ◌<◌, ◌≡◌, ◌∙◌, ◌∷◌, ◌++◌, leb, ltb, if◌then◌else◌, arith,
  append_assoc, Bool-cases, inl, inr, ltb→lt,
}
use f.Bytes.{Bytes}
use f.Bytes.Decimal.{decimal, decimal_small, decimal_large, to_string}
use f.Http.{HttpRequest}
use f.Parser.{
  http_version_major_start, http_version_major, http_version_minor_start, http_version_minor,
  Parsed, fault, int_overflow, int_max, is_digit, append_digit, consume, parse,
}

-- What is left of the run behind a version: the last sum, with its `'0'`, has to fit an `int`.
abbrev pub within_int : ℕ → Parsed → Parsed
within_int n p = if leb (n + b'0') int_max then p else fault int_overflow

start_major :
    (n : ℕ) (req : HttpRequest) (rest : Bytes)
    → n < 10
    → req.http_version_major ≡ 0
    → parse http_version_major_start req ((b'0' + n) ∷ rest)
      ≡ within_int n (parse http_version_major (record req { http_version_major = n }) rest)
unfolding parse consume is_digit append_digit
start_major n req rest h z = ground arith

step_major :
    (v d : ℕ) (req : HttpRequest) (rest : Bytes)
    → d < 10
    → parse http_version_major (record req { http_version_major = v }) ((b'0' + d) ∷ rest)
      ≡ within_int
          (v * 10 + d)
          (parse http_version_major (record req { http_version_major = v * 10 + d }) rest)
unfolding parse consume is_digit append_digit
step_major v d req rest h = ground arith

run_major_decimal :
    (fuel n : ℕ) (req : HttpRequest) (rest : Bytes)
    → n < fuel
    → req.http_version_major ≡ 0
    → parse http_version_major_start req (decimal fuel n ++ rest)
      ≡ within_int n (parse http_version_major (record req { http_version_major = n }) rest)
run_major_decimal zero n req rest h z = elim h [ ]
run_major_decimal (suc fuel) n req rest h z = elim (Bool-cases (ltb n 10)) [
  | inl small ↦ rw (decimal_small fuel n small) (start_major n req rest (ltb→lt n 10 small) z)
  | inr large ↦
      rw (decimal_large fuel n large, append_assoc)
        (run_major_decimal fuel (n / 10) req ((b'0' + n % 10) ∷ rest) (ground arith) z
          ∙ ground (arith, step_major (n / 10) (n % 10) req rest))
]

start_minor :
    (n : ℕ) (req : HttpRequest) (rest : Bytes)
    → n < 10
    → req.http_version_minor ≡ 0
    → parse http_version_minor_start req ((b'0' + n) ∷ rest)
      ≡ within_int n (parse http_version_minor (record req { http_version_minor = n }) rest)
unfolding parse consume is_digit append_digit
start_minor n req rest h z = ground arith

step_minor :
    (v d : ℕ) (req : HttpRequest) (rest : Bytes)
    → d < 10
    → parse http_version_minor (record req { http_version_minor = v }) ((b'0' + d) ∷ rest)
      ≡ within_int
          (v * 10 + d)
          (parse http_version_minor (record req { http_version_minor = v * 10 + d }) rest)
unfolding parse consume is_digit append_digit
step_minor v d req rest h = ground arith

run_minor_decimal :
    (fuel n : ℕ) (req : HttpRequest) (rest : Bytes)
    → n < fuel
    → req.http_version_minor ≡ 0
    → parse http_version_minor_start req (decimal fuel n ++ rest)
      ≡ within_int n (parse http_version_minor (record req { http_version_minor = n }) rest)
run_minor_decimal zero n req rest h z = elim h [ ]
run_minor_decimal (suc fuel) n req rest h z = elim (Bool-cases (ltb n 10)) [
  | inl small ↦ rw (decimal_small fuel n small) (start_minor n req rest (ltb→lt n 10 small) z)
  | inr large ↦
      rw (decimal_large fuel n large, append_assoc)
        (run_minor_decimal fuel (n / 10) req ((b'0' + n % 10) ∷ rest) (ground arith) z
          ∙ ground (arith, step_minor (n / 10) (n % 10) req rest))
]

pub run_major :
    (n : ℕ) (req : HttpRequest) (rest : Bytes)
    → req.http_version_major ≡ 0
    → parse http_version_major_start req (to_string n ++ rest)
      ≡ within_int n (parse http_version_major (record req { http_version_major = n }) rest)
unfolding to_string
run_major n req rest z = run_major_decimal (suc n) n req rest (omega arith) z

pub run_minor :
    (n : ℕ) (req : HttpRequest) (rest : Bytes)
    → req.http_version_minor ≡ 0
    → parse http_version_minor_start req (to_string n ++ rest)
      ≡ within_int n (parse http_version_minor (record req { http_version_minor = n }) rest)
unfolding to_string
run_minor n req rest z = run_minor_decimal (suc n) n req rest (omega arith) z
