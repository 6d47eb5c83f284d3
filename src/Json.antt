-- ===== src/Json.antt =====
-- What src/server/main.cpp uses of nlohmann::json, with what it throws.
use f.Prelude.{◌≡◌, refl, ap, ◌∙◌, Bool, List}
use f.Bytes.{Bytes}
use f.Tls.{ℤ}

-- The exceptions that end the program: an error of the JSON library, a status, a protocol or a
-- file that is not known, and an error of the network or of TLS.
pub data Failure : Type 0 where
  json_error system_error file_not_found : Failure
  unknown_status unknown_protocol : Bytes → Failure

pub data Result {ℓ} (A : Type ℓ) : Type ℓ where
  ok : A → Result A
  throw : Failure → Result A

infixl 5 ◌>>=◌
abbrev pub ◌>>=◌ {ℓ κ} : {A : Type ℓ} {B : Type κ} → Result A → (A → Result B) → Result B
ok a >>= f = f a
throw e >>= f = throw e

module _ {ℓ κ} {A : Type ℓ} {B : Type κ} where
  -- Where the chain gives a value, its first part does, and the rest with it.
  pub bind_ok :
      (m : Result A) (k : A → Result B) {b : B}
      → (m >>= k) ≡ ok b
      → (a : A) × (m ≡ ok a) × (k a ≡ ok b)
  bind_ok (ok a) k e = (a, refl, e)
  bind_ok (throw f) k e = cc e

  pub ok_bind :
      {m : Result A} (k : A → Result B) {a : A} {r : Result B} → m ≡ ok a → k a ≡ r → (m >>= k) ≡ r
  ok_bind k e q = ap (λ m. m >>= k) e ∙ q

pub ok_injective {ℓ} : {A : Type ℓ} {a b : A} → ok a ≡ ok b → a ≡ b
ok_injective e = cc e

-- The library: a type of values, and its functions. `value_string j key default` is
-- `j.value(key, default)`, and the same for the other types; `get_string` is the conversion to
-- `std::string`; `elements` is what a loop over a value goes through, and `items` what one over its
-- `items()` does.
pub record JsonApi : Type 1 where
  pub Json : Type 0
  pub contains : Json → Bytes → Bool
  pub at : Json → Bytes → Result Json
  pub get_string : Json → Result Bytes
  pub value_string : Json → Bytes → Bytes → Result Bytes
  pub value_bool : Json → Bytes → Bool → Result Bool
  pub value_long : Json → Bytes → ℤ → Result ℤ
  pub value_array : Json → Bytes → Result Json
  pub elements : Json → List Json
  pub items : Json → List (Bytes × Json)
