-- ===== src/Mime/Types.antt =====
-- What holds of all the media types of the table, and of the default one.
use f.Prelude.{◌≡◌, refl, Bool, true, ◌&&◌, List, [], ◌∷◌, All, Option-cases, inl, inr, arith}
use f.Bytes.{Bytes, codes}
use f.Map.{lookup, lookup-All}
use f.Mime.{mappings, extension_to_type}
use f.Parser.{is_ctl}
use f.Parser.Runs.{IsValueChar, value_test, value_test_sound}

unfoldable pub all_values : (Bytes → Bool) → List (Bytes × Bytes) → Bool
all_values test [] = true
all_values test ((k, v) ∷ m) = test v && all_values test m

all_values_sound :
    (test : Bytes → Bool) (m : List (Bytes × Bytes))
    → all_values test m ≡ true
    → All (λ e. test e.1 ≡ true) m
unfolding all_values
all_values_sound test [] h = tt
all_values_sound test ((k, v) ∷ m) h = ground (arith, all_values_sound test m)

-- A test that the default type and those of the table pass is one that every type passes.
pub extension_to_type-test :
    (test : Bytes → Bool) (e : Bytes)
    → test (codes "text/plain") && all_values test mappings ≡ true
    → test (extension_to_type e) ≡ true
unfolding extension_to_type
extension_to_type-test test e h = elim (Option-cases (lookup e mappings)) [
  | inl missing ↦ rw (missing, extension_to_type) (ground (arith, h))
  | inr (t, found) ↦
      let passed : all_values test mappings ≡ true = ground (arith, h) in
      rw (found, extension_to_type)
        (lookup-All (λ k v. test v ≡ true) e mappings (all_values_sound test mappings passed) found)
]

-- Every media type can stand in a header's value.
pub extension_to_type-IsValueChar : (e : Bytes) → All IsValueChar (extension_to_type e)
unfolding value_test is_ctl all_values
extension_to_type-IsValueChar e =
    value_test_sound (extension_to_type e) (extension_to_type-test value_test e refl)
