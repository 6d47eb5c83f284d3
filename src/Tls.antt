-- ===== src/Tls.antt =====
-- lib/https_server.hpp and lib/https_server.cpp: the settings of TLS, and the calls that they make
-- of Asio's TLS context and of OpenSSL.
pub mod Verify
use f.Prelude.{
  not, ℕ, Bool, true, false, ◌||◌, List, [], ◌∷◌, ◌++◌, if◌then◌else◌, ltb, ◌==◌, arith, ◌≡◌, ◌↔◌,
}
use f.Bytes.{Bytes}

-- A `long`; `negsuc n` is -(n + 1).
pub data ℤ : Type 0 where
  pos : ℕ → ℤ
  negsuc : ℕ → ℤ

-- `enum ssl_proto`
pub data SslProto : Type 0 where
  sslv2 sslv3 tlsv1 tlsv11 tlsv12 tlsv13 : SslProto

-- The order of the enumerators, by which they are told apart.
abbrev pub rank : SslProto → ℕ
rank sslv2 = 0
rank sslv3 = 1
rank tlsv1 = 2
rank tlsv11 = 3
rank tlsv12 = 4
rank tlsv13 = 5

-- `std::unordered_set<ssl_proto>`, in the order of insertion.
unfoldable pub has_proto : SslProto → List SslProto → Bool
has_proto p [] = false
has_proto p (q ∷ qs) = rank q == rank p || has_proto p qs

unfoldable pub insert_proto : SslProto → List SslProto → List SslProto
insert_proto p qs = if has_proto p qs then qs else qs ++ p ∷ []

-- `struct ssl_settings`
pub record SslSettings : Type 0 where
  pub certificate : Bytes
  pub certificate_key : Bytes
  pub dhparam : Bytes
  pub password : Bytes
  pub protocols : List SslProto
  pub ciphers : Bytes
  pub prefer_server_ciphers : Bool
  pub client_certificate : Bytes
  pub session_timeout_secs : ℤ
  pub session_cache : Bool
  pub session_cache_size : ℤ

abbrev pub default_protocols : List SslProto
default_protocols = tlsv1 ∷ tlsv11 ∷ tlsv12 ∷ tlsv13 ∷ []

-- `ssl_settings{}`
abbrev pub default_settings : SslSettings
default_settings = record {
  certificate = [];
  certificate_key = [];
  dhparam = [];
  password = [];
  protocols = default_protocols;
  ciphers = [];
  prefer_server_ciphers = false;
  client_certificate = [];
  session_timeout_secs = negsuc 0;
  session_cache = false;
  session_cache_size = negsuc 0;
}

-- A call of the context, or of OpenSSL with its handle.
pub data ContextCall : Type 0 where
  set_default_workarounds : ContextCall
  set_options : SslProto → ContextCall
  set_cipher_list : Bytes → ContextCall
  set_server_preference : ContextCall
  set_password : Bytes → ContextCall
  use_certificate_chain_file : Bytes → ContextCall
  use_private_key_file : Bytes → ContextCall
  use_tmp_dh_file : Bytes → ContextCall
  set_verify_peer : ContextCall
  load_verify_file : Bytes → ContextCall
  set_session_cache : ContextCall
  set_session_cache_size : ℕ → ContextCall
  set_session_timeout : ℕ → ContextCall

-- `s.empty()`
abbrev pub is_empty : Bytes → Bool
is_empty [] = true
is_empty (_ ∷ _) = false

-- `if (test) call;`
abbrev pub when : Bool → ContextCall → List ContextCall
when test call = if test then call ∷ [] else []

-- The loop over the protocols.
unfoldable pub option_calls : List SslProto → List ContextCall
option_calls [] = []
option_calls (p ∷ ps) = set_options p ∷ option_calls ps

-- A call with a value that is greater than 0.
abbrev pub positive_call : (ℕ → ContextCall) → ℤ → List ContextCall
positive_call call (pos n) = when (ltb 0 n) (call n)
positive_call call (negsuc n) = []

-- The calls for the client's certificate.
unfoldable pub verify_calls : Bytes → List ContextCall
verify_calls [] = []
verify_calls (c ∷ file) = set_verify_peer ∷ load_verify_file (c ∷ file) ∷ []

-- The calls that the constructor of `https_server` makes, in order, where none of them throws.
unfoldable pub context_calls : SslSettings → List ContextCall
unfolding option_calls verify_calls
context_calls s =
    set_default_workarounds
    ∷ (option_calls s.protocols
        ++ (when (not (is_empty s.ciphers)) (set_cipher_list s.ciphers)
            ++ (when s.prefer_server_ciphers set_server_preference
                ++ (when (not (is_empty s.password)) (set_password s.password)
                    ++ (use_certificate_chain_file s.certificate
                        ∷ use_private_key_file s.certificate_key
                        ∷ use_tmp_dh_file s.dhparam
                        ∷ (verify_calls s.client_certificate
                            ++ (when s.session_cache set_session_cache
                                ++ (positive_call set_session_cache_size s.session_cache_size
                                    ++ positive_call set_session_timeout
                                        s.session_timeout_secs))))))))
