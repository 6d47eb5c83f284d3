-- ===== src/Url/RoundTrip.antt =====
-- Percent-encoding, and that `url_decode` undoes it.
use f.Prelude.{
  ℕ, ◌+◌, ◌-◌, ◌/◌, ◌%◌, ◌<◌, ◌≡◌, refl, Bool, true, false, [], ◌∷◌, ltb, All, if◌then◌else◌,
  Bool-cases, inl, inr, arith,
}
use f.Bytes.{Bytes}
use f.Url.{isxdigit, hex_digit, url_decode}
use f.Url.Decodes.{Decodes, done, escape, plain, url_decode_iff}

abbrev pub hex_upper : ℕ → ℕ
hex_upper d = if ltb d 10 then b'0' + d else b'A' + d - 10

hex_upper_digit : (d : ℕ) → d < 16 → (isxdigit (hex_upper d) ≡ true) × (hex_digit (hex_upper d) ≡ d)
unfolding isxdigit hex_digit
hex_upper_digit d h = ground arith

-- `safe` says which bytes the encoder leaves as they are.
module _ (safe : ℕ → Bool) where
  abbrev pub url_encode : Bytes → Bytes
  url_encode [] = []
  url_encode (c ∷ s) =
      if safe c
      then c ∷ url_encode s
      else b'%' ∷ hex_upper (c / 16) ∷ hex_upper (c % 16) ∷ url_encode s

module _ (safe : ℕ → Bool) (percent : safe b'%' ≡ false) (plus : safe b'+' ≡ false) where
  Decodes-url_encode : (s : Bytes) → All (λ c. c < 256) s → Decodes (url_encode safe s) s
  Decodes-url_encode [] h = done
  Decodes-url_encode (c ∷ s) (b, h) =
      let rest = Decodes-url_encode s h in
      elim (Bool-cases (safe c)) [
        | inl kept ↦ rw kept (plain (λ e. cc) (λ e. cc) rest)
        | inr encoded ↦
            let hi = hex_upper_digit (c / 16) (omega arith) in
            let lo = hex_upper_digit (c % 16) (omega arith) in
            rw encoded (escape refl hi.0 lo.0 (omega (arith, hi.1, lo.1)) rest)
      ]

  -- Whatever bytes an encoder leaves as they are, `%` and `+` excepted, decoding what it writes for
  -- a text of bytes succeeds and gives the text.
  pub url_decode-url_encode :
      (s : Bytes) → All (λ c. c < 256) s → url_decode (url_encode safe s) ≡ (true, s)
  url_decode-url_encode s h = (url_decode_iff (url_encode safe s) s).1 (Decodes-url_encode s h)
