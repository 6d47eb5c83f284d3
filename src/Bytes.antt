-- ===== src/Bytes.antt =====
-- `std::string` as a list of bytes, and what the program uses of it. A `char` is its value read as
-- an unsigned byte, 0 to 255.
pub mod Decimal
pub mod Spans
use Prim.Native.Char.{code}
use Prim.Native.String.{String}
use mathlib.Core.Option
use f.Prelude.{
  ℕ, suc, Bool, true, false, ◌&&◌, ◌||◌, ◌≡◌, ◌↔◌, Option, none, some, List, [], ◌∷◌, ◌==◌,
  if◌then◌else◌, arith,
}

abbrev pub Bytes : Type 0
Bytes = List ℕ

-- The bytes of a literal; every literal here is ASCII.
abbrev pub codes : String → Bytes
codes String.[] = []
codes (String.◌∷◌ c s) = code c ∷ codes s

-- `s == t`
unfoldable pub equal : Bytes → Bytes → Bool
equal [] [] = true
equal [] (_ ∷ _) = false
equal (_ ∷ _) [] = false
equal (c ∷ s) (d ∷ t) = c == d && equal s t

pub equal_iff : (s t : Bytes) → (equal s t ≡ true) ↔ (s ≡ t)
unfolding equal
equal_iff [] [] = ground arith
equal_iff [] (d ∷ t) = ground arith
equal_iff (c ∷ s) [] = ground arith
equal_iff (c ∷ s) (d ∷ t) = ground (arith, equal_iff s t)

pub equal_self : (a : Bytes) → equal a a ≡ true
equal_self a = (equal_iff a a).1 f.Prelude.refl

-- `s.find(c)`; `none` is `npos`
unfoldable pub find : ℕ → Bytes → Option ℕ
find c [] = none
find c (x ∷ xs) = if x == c then some 0 else Option.map suc (find c xs)

-- `s.rfind(prefix, 0) == 0`
unfoldable pub starts_with : Bytes → Bytes → Bool
starts_with [] s = true
starts_with (_ ∷ _) [] = false
starts_with (x ∷ p) (y ∷ s) = x == y && starts_with p s

-- The bytes before the first `c`, and the bytes from it on: `s.substr(0, s.find(c))` and the rest.
unfoldable pub before : ℕ → Bytes → Bytes
before c [] = []
before c (x ∷ xs) = if x == c then [] else x ∷ before c xs

unfoldable pub from : ℕ → Bytes → Bytes
from c [] = []
from c (x ∷ xs) = if x == c then x ∷ xs else from c xs

-- `s.find("..") != npos`
unfoldable pub has_dotdot : Bytes → Bool
has_dotdot [] = false
has_dotdot (x ∷ []) = false
has_dotdot (x ∷ y ∷ s) = x == b'.' && y == b'.' || has_dotdot (y ∷ s)
