-- ===== src/Config.antt =====
-- src/server/main.cpp: what `build_advanced_server` reads of the configuration.
use f.Prelude.{false, Option, none, some, List, [], ◌∷◌, if◌then◌else◌}
use f.Bytes.{Bytes, codes, equal}
use f.Json.{unknown_status, unknown_protocol, Result, ok, throw, ◌>>=◌, JsonApi}
use f.Reply.{Status, status_from_string}
use f.Router.{ResourceEntry, PathRouter, static, add}
use f.Tls.{
  negsuc, SslProto, sslv2, sslv3, tlsv1, tlsv11, tlsv12, tlsv13, insert_proto, SslSettings,
  default_protocols,
}

unfoldable pub protocol_from_string : Bytes → Result SslProto
unfolding equal
protocol_from_string s =
    if equal s (codes "SSLv2")
    then ok sslv2
    else if equal s (codes "SSLv3")
    then ok sslv3
    else if equal s (codes "TLSv1")
    then ok tlsv1
    else if equal s (codes "TLSv1.1")
    then ok tlsv11
    else if equal s (codes "TLSv1.2")
    then ok tlsv12
    else if equal s (codes "TLSv1.3")
    then ok tlsv13
    else throw (unknown_protocol s)

-- `reply::status_from_string`, with its exception.
abbrev pub status_or_throw : Bytes → Option Status → Result Status
status_or_throw s none = throw (unknown_status s)
status_or_throw s (some status) = ok status

-- What is given to `set`: a `return` with its `headers`, a router, or nothing.
pub data Source (J : Type 0) : Type 0 where
  returns : Status → J → Source J
  routes : PathRouter → Source J
  unset : Source J

module _ (api : JsonApi) where
  open api use {
    Json, contains, at, get_string, value_string, value_bool, value_long, value_array, elements,
  }

  -- A conversion of `j.at(key)` to a text.
  abbrev pub at_string : Json → Bytes → Result Bytes
  at_string j key = at j key >>= get_string

  -- The loop over `protocols`.
  unfoldable pub read_protocols : List Json → List SslProto → Result (List SslProto)
  read_protocols [] protocols = ok protocols
  read_protocols (j ∷ js) protocols = do
    s ← get_string j
    p ← protocol_from_string s
    read_protocols js (insert_proto p protocols)

  unfoldable pub protocols_of : Json → Result (List SslProto)
  unfolding read_protocols
  protocols_of section =
      if contains section (codes "protocols")
      then (at section (codes "protocols") >>= λ j. read_protocols (elements j) default_protocols)
      else ok default_protocols

  unfoldable pub client_certificate_of : Json → Result Bytes
  client_certificate_of section = do
    verify ← value_bool section (codes "verify_client") false
    if verify then value_string section (codes "client_certificate") [] else ok []

  -- The settings of an `ssl` section.
  unfoldable pub read_ssl : Json → Result SslSettings
  read_ssl section = do
    certificate ← value_string section (codes "certificate") []
    certificate_key ← value_string section (codes "certificate_key") []
    dhparam ← value_string section (codes "dhparam") []
    password ← value_string section (codes "password") []
    protocols ← protocols_of section
    ciphers ← value_string section (codes "ciphers") []
    prefer ← value_bool section (codes "prefer_server_ciphers") false
    client_certificate ← client_certificate_of section
    timeout ← value_long section (codes "session_timeout_secs") (negsuc 0)
    cache ← value_bool section (codes "session_cache") false
    cache_size ← value_long section (codes "session_cache_size") (negsuc 0)
    ok (record {
      certificate = certificate;
      certificate_key = certificate_key;
      dhparam = dhparam;
      password = password;
      protocols = protocols;
      ciphers = ciphers;
      prefer_server_ciphers = prefer;
      client_certificate = client_certificate;
      session_timeout_secs = timeout;
      session_cache = cache;
      session_cache_size = cache_size;
    })

  -- `if (has_ssl)`, up to the construction of the server.
  unfoldable pub settings_of : Json → Result (Option SslSettings)
  settings_of entry =
      if contains entry (codes "ssl")
      then (do section ← at entry (codes "ssl"); settings ← read_ssl section; ok (some settings))
      else ok none

  unfoldable pub return_of : Json → Result (Source Json)
  return_of entry = do
    section ← at entry (codes "return")
    s ← value_string section (codes "status") (codes "ok")
    status ← status_or_throw s (status_from_string s)
    headers ← value_array section (codes "headers")
    ok (returns status headers)

  module _ (sort : List ResourceEntry → List ResourceEntry) where
    -- The loop over `locations`.
    unfoldable pub add_locations : List Json → PathRouter → Result PathRouter
    add_locations [] router = ok router
    add_locations (j ∷ js) router = do
      root_doc ← at_string j (codes "root")
      path ← at_string j (codes "location")
      add_locations js (add sort path (static (record { doc_root = root_doc })) router)

    unfoldable pub locations_of : Json → Result (Source Json)
    locations_of entry = do
      locations ← at entry (codes "locations")
      router ← add_locations (elements locations) []
      ok (routes router)

    -- The three branches behind the construction of the server.
    unfoldable pub source_of : Json → Result (Source Json)
    source_of entry =
        if contains entry (codes "return")
        then return_of entry
        else if contains entry (codes "locations")
        then locations_of entry
        else ok unset
