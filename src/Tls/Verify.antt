-- ===== src/Tls/Verify.antt =====
-- Whether clients are asked for a certificate.
use f.Prelude.{Bool, true, false, ◌||◌, List, [], ◌∷◌, ◌++◌, arith, ◌≡◌, refl, ℕ, ltb, not}
use f.Bytes.{Bytes}
use f.Tls.{
  ℤ, pos, negsuc, SslProto, SslSettings, ContextCall, is_empty, when, option_calls, positive_call,
  verify_calls, context_calls,
}
use f.Tls

abbrev pub is_verify : ContextCall → Bool
is_verify ContextCall.set_verify_peer = true
is_verify _ = false

-- Some call asks the client for its certificate.
unfoldable pub verifies : List ContextCall → Bool
verifies [] = false
verifies (c ∷ cs) = is_verify c || verifies cs

or_false : (a : Bool) → (a || false) ≡ a
or_false true = refl
or_false false = refl

verifies-append : (a b : List ContextCall) → verifies (a ++ b) ≡ (verifies a || verifies b)
unfolding verifies
verifies-append [] b = refl
verifies-append (c ∷ a) b = ground (arith, verifies-append a b)

verifies-option_calls : (ps : List SslProto) → verifies (option_calls ps) ≡ false
unfolding verifies option_calls
verifies-option_calls [] = refl
verifies-option_calls (p ∷ ps) = verifies-option_calls ps

verifies-when :
    (test : Bool) (call : ContextCall) → is_verify call ≡ false → verifies (when test call) ≡ false
unfolding verifies
verifies-when true call h = rw h
verifies-when false call h = refl

verifies-positive_call :
    (call : ℕ → ContextCall) (v : ℤ)
    → ((n : ℕ) → is_verify (call n) ≡ false)
    → verifies (positive_call call v) ≡ false
verifies-positive_call call (pos n) h = verifies-when (ltb 0 n) (call n) (h n)
verifies-positive_call call (negsuc n) h = unfold verifies in refl

verifies-verify_calls : (file : Bytes) → verifies (verify_calls file) ≡ not (is_empty file)
unfolding verifies verify_calls
verifies-verify_calls [] = refl
verifies-verify_calls (c ∷ file) = refl

-- The context asks clients for a certificate exactly where the settings name the file to check it
-- with.
pub verifies-context_calls :
    (s : SslSettings) → verifies (context_calls s) ≡ not (is_empty s.client_certificate)
unfolding context_calls verifies
verifies-context_calls s = simp (
  verifies-append,
  or_false,
  verifies-option_calls s.protocols,
  verifies-when (not (is_empty s.ciphers)) (Tls.set_cipher_list s.ciphers) refl,
  verifies-when s.prefer_server_ciphers Tls.set_server_preference refl,
  verifies-when (not (is_empty s.password)) (Tls.set_password s.password) refl,
  verifies-verify_calls s.client_certificate,
  verifies-when s.session_cache Tls.set_session_cache refl,
  verifies-positive_call Tls.set_session_cache_size s.session_cache_size (λ n. refl),
  verifies-positive_call Tls.set_session_timeout s.session_timeout_secs (λ n. refl),
)
