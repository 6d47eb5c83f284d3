-- ===== src/Parser/Runs.antt =====
-- The parser over one piece of a request, with any `rest` behind it.
use f.Prelude.{
  ℕ, Bool, not, ◌&&◌, ◌≡◌, refl, ◌∙◌, true, false, List, [], ◌∷◌, ◌++◌, ◌==◌, All, arith,
  append-nil, append_assoc,
}
use f.Bytes.{Bytes}
use f.Http.{Header, HttpRequest}
use f.Parser.{
  method, uri, header_name, header_value, ok, is_not_token, is_ctl, update_back, consume, parse,
}

-- What stands in a method or a header's name, in a URI, and in a header's value.
abbrev pub IsToken : ℕ → Type 0
IsToken c = is_not_token c ≡ false

abbrev pub IsUriChar : ℕ → Type 0
IsUriChar c = ((c == b' ') ≡ false) × (is_ctl c ≡ false)

abbrev pub IsValueChar : ℕ → Type 0
IsValueChar c = is_ctl c ≡ false

-- Tests of a whole text, for the texts that the program itself writes.
unfoldable pub token_test : Bytes → Bool
token_test [] = true
token_test (c ∷ s) = not (is_not_token c) && token_test s

pub token_test_sound : (s : Bytes) → token_test s ≡ true → All IsToken s
unfolding token_test
token_test_sound [] h = tt
token_test_sound (c ∷ s) h = ground (arith, token_test_sound s)

unfoldable pub value_test : Bytes → Bool
value_test [] = true
value_test (c ∷ s) = not (is_ctl c) && value_test s

pub value_test_sound : (s : Bytes) → value_test s ≡ true → All IsValueChar s
unfolding value_test
value_test_sound [] h = tt
value_test_sound (c ∷ s) h = ground (arith, value_test_sound s)

pub IsToken-ne : (k c : ℕ) → is_not_token k ≡ true → IsToken c → (c == k) ≡ false
IsToken-ne k c special h = ground arith

pub IsValueChar-ne : (k c : ℕ) → is_ctl k ≡ true → IsValueChar c → (c == k) ≡ false
IsValueChar-ne k c special h = ground arith

pub space-not_token : is_not_token b' ' ≡ true
unfolding is_not_token
space-not_token = refl

pub tab-not_token : is_not_token b'\t' ≡ true
unfolding is_not_token
tab-not_token = refl

pub colon-not_token : is_not_token b':' ≡ true
unfolding is_not_token
colon-not_token = refl

pub return-not_token : is_not_token b'\r' ≡ true
unfolding is_not_token
return-not_token = refl

pub return-ctl : is_ctl b'\r' ≡ true
unfolding is_ctl
return-ctl = refl

pub update_back-concat :
    (change : Header → Header) (hs : List Header) (h : Header)
    → update_back change (hs ++ h ∷ []) ≡ ok (hs ++ change h ∷ [])
unfolding update_back
update_back-concat change [] h = refl
update_back-concat change (x ∷ []) h = refl
update_back-concat change (x ∷ y ∷ hs) h = rw (update_back-concat change (y ∷ hs) h)

step_method :
    (c : ℕ) (req : HttpRequest) (rest : Bytes)
    → IsToken c
    → parse method req (c ∷ rest) ≡ parse method (record req { method = req.method ++ c ∷ [] }) rest
unfolding parse consume
step_method c req rest t = ground (arith, IsToken-ne b' ' c space-not_token)

pub run_method :
    (m : Bytes) (req : HttpRequest) (rest : Bytes)
    → All IsToken m
    → parse method req (m ++ rest) ≡ parse method (record req { method = req.method ++ m }) rest
run_method [] req rest h = rw append-nil
run_method (c ∷ m) req rest (t, h) =
    step_method c req (m ++ rest) t
    ∙ run_method m (record req { method = req.method ++ c ∷ [] }) rest h
    ∙ rw append_assoc

step_uri :
    (c : ℕ) (req : HttpRequest) (rest : Bytes)
    → IsUriChar c
    → parse uri req (c ∷ rest) ≡ parse uri (record req { uri = req.uri ++ c ∷ [] }) rest
unfolding parse consume
step_uri c req rest t = ground arith

pub run_uri :
    (u : Bytes) (req : HttpRequest) (rest : Bytes)
    → All IsUriChar u
    → parse uri req (u ++ rest) ≡ parse uri (record req { uri = req.uri ++ u }) rest
run_uri [] req rest h = rw append-nil
run_uri (c ∷ u) req rest (t, h) =
    step_uri c req (u ++ rest) t
    ∙ run_uri u (record req { uri = req.uri ++ c ∷ [] }) rest h
    ∙ rw append_assoc

-- A request whose last header is `n` with the value `v`.
abbrev pub with_back : HttpRequest → Bytes → Bytes → HttpRequest
with_back req n v = record req { headers = req.headers ++ (record { name = n; value = v }) ∷ [] }

step_name :
    (c : ℕ) (n : Bytes) (req : HttpRequest) (rest : Bytes)
    → IsToken c
    → parse header_name (with_back req n []) (c ∷ rest)
      ≡ parse header_name (with_back req (n ++ c ∷ []) []) rest
unfolding parse consume
step_name c n req rest t = rw (IsToken-ne b':' c colon-not_token t, t, update_back-concat) refl

pub run_name :
    (m n : Bytes) (req : HttpRequest) (rest : Bytes)
    → All IsToken m
    → parse header_name (with_back req n []) (m ++ rest)
      ≡ parse header_name (with_back req (n ++ m) []) rest
run_name [] n req rest h = rw append-nil
run_name (c ∷ m) n req rest (t, h) =
    step_name c n req (m ++ rest) t ∙ run_name m (n ++ c ∷ []) req rest h ∙ rw append_assoc

step_value :
    (c : ℕ) (n v : Bytes) (req : HttpRequest) (rest : Bytes)
    → IsValueChar c
    → parse header_value (with_back req n v) (c ∷ rest)
      ≡ parse header_value (with_back req n (v ++ c ∷ [])) rest
unfolding parse consume
step_value c n v req rest t = rw (IsValueChar-ne b'\r' c return-ctl t, t, update_back-concat) refl

pub run_value :
    (m n v : Bytes) (req : HttpRequest) (rest : Bytes)
    → All IsValueChar m
    → parse header_value (with_back req n v) (m ++ rest)
      ≡ parse header_value (with_back req n (v ++ m)) rest
run_value [] n v req rest h = rw append-nil
run_value (c ∷ m) n v req rest (t, h) =
    step_value c n v req (m ++ rest) t ∙ run_value m n (v ++ c ∷ []) req rest h ∙ rw append_assoc
