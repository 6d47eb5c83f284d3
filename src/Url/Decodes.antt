-- ===== src/Url/Decodes.antt =====
-- What a percent-encoded text stands for, as a relation, and that `url_decode` decides it.
use f.Prelude.{
  ℕ, ◌+◌, ◌*◌, ◌<◌, ◌≡◌, ◌≢◌, ◌↔◌, refl, sym, ◌∙◌, true, false, [], ◌∷◌, ◌++◌, ◌==◌, if◌then◌else◌,
  Bool-cases, inl, inr, arith, append-nil, append_assoc, ==_iff,
}
use f.Bytes.{Bytes}
use f.Url.{isxdigit, hex_digit, read_hex, decode_from, url_decode}

-- `Decodes i o`: the text `i` stands for the bytes `o`.
pub data Decodes : Bytes → Bytes → Type 0 where
  done : Decodes [] []
  escape :
      {p a b v : ℕ} {i o : Bytes}
      → p ≡ b'%'
      → isxdigit a ≡ true
      → isxdigit b ≡ true
      → v ≡ hex_digit a * 16 + hex_digit b
      → Decodes i o
      → Decodes (p ∷ a ∷ b ∷ i) (v ∷ o)
  plus : {p v : ℕ} {i o : Bytes} → p ≡ b'+' → v ≡ b' ' → Decodes i o → Decodes (p ∷ i) (v ∷ o)
  plain : {c : ℕ} {i o : Bytes} → c ≢ b'%' → c ≢ b'+' → Decodes i o → Decodes (c ∷ i) (c ∷ o)

pub Decodes-append : {i o i' o' : Bytes} → Decodes i o → Decodes i' o' → Decodes (i ++ i') (o ++ o')
Decodes-append done k = k
Decodes-append (escape e ha hb hv d) k = escape e ha hb hv (Decodes-append d k)
Decodes-append (plus e hv d) k = plus e hv (Decodes-append d k)
Decodes-append (plain hp hq d) k = plain hp hq (Decodes-append d k)

pub hex_digit-lt : (c : ℕ) → isxdigit c ≡ true → hex_digit c < 16
unfolding isxdigit hex_digit
hex_digit-lt c h = ground arith

abbrev unplus : ℕ → ℕ
unplus c = if c == b'+' then b' ' else c

decode_from_plain :
    (out : Bytes) (c : ℕ) (i : Bytes)
    → (c == b'%') ≡ false
    → decode_from out (c ∷ i) ≡ decode_from (out ++ unplus c ∷ []) i
unfolding decode_from
decode_from_plain out c [] h = rw h
decode_from_plain out c (a ∷ []) h = rw h
decode_from_plain out c (a ∷ b ∷ i) h = rw h

decode_from_escape :
    (out : Bytes) (p a b : ℕ) (i : Bytes)
    → p ≡ b'%'
    → isxdigit a ≡ true
    → isxdigit b ≡ true
    → decode_from out (p ∷ a ∷ b ∷ i) ≡ decode_from (out ++ (hex_digit a * 16 + hex_digit b) ∷ []) i
unfolding decode_from read_hex
decode_from_escape out p a b i e ha hb = ground (arith, hex_digit-lt a ha, hex_digit-lt b hb)

decode_from_complete :
    {i o : Bytes} (out : Bytes) → Decodes i o → decode_from out i ≡ (true, out ++ o)
decode_from_complete out done = rw append-nil (unfold decode_from in refl)
decode_from_complete out (escape {p} {a} {b} {v} {i} {o} e ha hb hv d) =
    decode_from_escape out p a b i e ha hb
    ∙ decode_from_complete (out ++ (hex_digit a * 16 + hex_digit b) ∷ []) d
    ∙ rw (append_assoc, ← hv)
decode_from_complete out (plus {p} {v} {i} {o} e hv d) =
    decode_from_plain out p i (ground arith)
    ∙ decode_from_complete (out ++ unplus p ∷ []) d
    ∙ ground (arith, append_assoc out (b' ' ∷ []) o)
decode_from_complete out (plain {c} {i} {o} hp hq d) =
    decode_from_plain out c i (ground arith)
    ∙ decode_from_complete (out ++ unplus c ∷ []) d
    ∙ ground (arith, append_assoc out (c ∷ []) o)

-- A result of a loop that has already put `out` there.
abbrev Extends : Bytes → Bytes → Bytes → Type 0
Extends out i o = (more : Bytes) × (o ≡ out ++ more) × Decodes i more

Extends-plain :
    (out : Bytes) (c : ℕ) {i o : Bytes}
    → (c == b'%') ≡ false
    → Extends (out ++ unplus c ∷ []) i o
    → Extends out (c ∷ i) o
Extends-plain out c h (more, e, d) = elim (Bool-cases (c == b'+')) [
  | inl is_plus ↦
      (b' ' ∷ more, ground (arith, append_assoc out (b' ' ∷ []) more), plus (ground arith) refl d)
  | inr other ↦ (
    c ∷ more,
    ground (arith, append_assoc out (c ∷ []) more),
    plain (ground arith) (ground arith) d,
  )
]

decode_from_sound : (out i : Bytes) {o : Bytes} → decode_from out i ≡ (true, o) → Extends out i o
unfolding decode_from
decode_from_sound out [] e = ([], ground (arith, append-nil out), done)
decode_from_sound out (c ∷ []) e = elim (Bool-cases (c == b'%')) [
  | inl percent ↦ ground arith
  | inr other ↦
      Extends-plain out c other (decode_from_sound (out ++ unplus c ∷ []) [] (rw other at e))
]
decode_from_sound out (c ∷ a ∷ []) e = elim (Bool-cases (c == b'%')) [
  | inl percent ↦ ground arith
  | inr other ↦
      Extends-plain out c other (decode_from_sound (out ++ unplus c ∷ []) (a ∷ []) (rw other at e))
]
decode_from_sound out (c ∷ a ∷ b ∷ i) e = elim (Bool-cases (c == b'%')) [
  | inl percent ↦
      let digits : (isxdigit a ≡ true) × (isxdigit b ≡ true) = ground arith in
      let p = (==_iff c b'%').0 percent in
      let (more, e', d) =
        decode_from_sound (out ++ (hex_digit a * 16 + hex_digit b) ∷ []) i
          (sym (decode_from_escape out c a b i p digits.0 digits.1) ∙ e) in
      (
        (hex_digit a * 16 + hex_digit b) ∷ more,
        e' ∙ append_assoc _ _ more,
        escape p digits.0 digits.1 refl d,
      )
  | inr other ↦
      Extends-plain out c other
        (decode_from_sound (out ++ unplus c ∷ []) (a ∷ b ∷ i) (rw other at e))
]

-- `url_decode` returns true with `o` exactly when the input stands for `o`: each `%` is followed by
-- two hexadecimal digits and gives their value, each `+` gives a space, and all else is kept.
pub url_decode_iff : (i o : Bytes) → (url_decode i ≡ (true, o)) ↔ Decodes i o
unfolding url_decode
url_decode_iff i o =
    (λ e. let (more, same, d) = decode_from_sound [] i e in rw same d, decode_from_complete [])

-- A slash behind a text that decodes stands for itself.
pub url_decode-slash :
    (i o : Bytes) → url_decode i ≡ (true, o) → url_decode (i ++ b'/' ∷ []) ≡ (true, o ++ b'/' ∷ [])
url_decode-slash i o e =
    (url_decode_iff (i ++ b'/' ∷ []) (o ++ b'/' ∷ [])).1
      (Decodes-append ((url_decode_iff i o).0 e) (plain (λ p. omega arith) (λ p. omega arith) done))
