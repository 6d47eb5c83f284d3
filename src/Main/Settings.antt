-- ===== src/Main/Settings.antt =====
-- What the configuration's settings come to.
use f.Prelude.{
  ℕ, subst, if◌then◌else◌, ◌==◌, ==_iff, ◌≡◌, ◌≢◌, ◌↔◌, ◌⊎◌, refl, sym, ap, ◌∙◌, true, false, not,
  ◌||◌, List, [], ◌∷◌, ◌++◌, arith, Bool-cases, inl, inr,
}
use f.Bytes.{Bytes, codes, equal, equal_iff}
use f.Config.{read_protocols, protocols_of, client_certificate_of, read_ssl, protocol_from_string}
use f.Json.{Result, ok, bind_ok, ok_injective, JsonApi}
use f.Tls.{
  SslProto, rank, sslv2, sslv3, tlsv1, tlsv11, tlsv12, tlsv13, SslSettings, is_empty, has_proto,
  insert_proto, default_protocols, context_calls,
}
use f.Tls.Verify.{verifies, verifies-context_calls}

-- The protocol is among these.
abbrev pub Has : List SslProto → SslProto → Type 0
Has ps p = has_proto p ps ≡ true

has_proto-append :
    (p : SslProto) (ps qs : List SslProto)
    → has_proto p (ps ++ qs) ≡ (has_proto p ps || has_proto p qs)
unfolding has_proto
has_proto-append p [] qs = refl
has_proto-append p (x ∷ ps) qs = ground (arith, has_proto-append p ps qs)

-- The name of a protocol in a configuration.
abbrev pub proto_name : SslProto → Bytes
proto_name sslv2 = codes "SSLv2"
proto_name sslv3 = codes "SSLv3"
proto_name tlsv1 = codes "TLSv1"
proto_name tlsv11 = codes "TLSv1.1"
proto_name tlsv12 = codes "TLSv1.2"
proto_name tlsv13 = codes "TLSv1.3"

abbrev of_rank : ℕ → SslProto
of_rank n =
    if n == 0
    then sslv2
    else if n == 1
    then sslv3
    else if n == 2
    then tlsv1
    else if n == 3
    then tlsv11
    else if n == 4
    then tlsv12
    else tlsv13

of_rank-rank : (p : SslProto) → of_rank (rank p) ≡ p
of_rank-rank sslv2 = refl
of_rank-rank sslv3 = refl
of_rank-rank tlsv1 = refl
of_rank-rank tlsv11 = refl
of_rank-rank tlsv12 = refl
of_rank-rank tlsv13 = refl

rank_iff : (p q : SslProto) → (rank q == rank p ≡ true) ↔ (q ≡ p)
rank_iff p q = (
  λ e. sym (of_rank-rank q) ∙ ap of_rank ((==_iff (rank q) (rank p)).0 e) ∙ of_rank-rank p,
  λ e. (==_iff (rank q) (rank p)).1 (ap rank e),
)

-- A protocol that has been inserted is there, and nothing else has come or gone.
Has-insert_proto :
    (p q : SslProto) (ps : List SslProto) → Has (insert_proto q ps) p ↔ (Has ps p ⊎ (q ≡ p))
unfolding insert_proto has_proto
Has-insert_proto p q ps = elim (Bool-cases (has_proto q ps)) [
  | inl there ↦ rw there (inl, λ h. elim h [ inl old ↦ old | inr same ↦ subst (Has ps) same there ])
  | inr new ↦ rw new (ground (arith, has_proto-append p ps (q ∷ []), rank_iff p q))
]

protocol_from_string-proto_name : (p : SslProto) → protocol_from_string (proto_name p) ≡ ok p
unfolding protocol_from_string equal
protocol_from_string-proto_name sslv2 = refl
protocol_from_string-proto_name sslv3 = refl
protocol_from_string-proto_name tlsv1 = refl
protocol_from_string-proto_name tlsv11 = refl
protocol_from_string-proto_name tlsv12 = refl
protocol_from_string-proto_name tlsv13 = refl

protocol_named : (s : Bytes) {q : SslProto} → protocol_from_string s ≡ ok q → s ≡ proto_name q
unfolding protocol_from_string
protocol_named s {q} =
    named sslv2 (named sslv3 (named tlsv1 (named tlsv11 (named tlsv12 (named tlsv13 (λ e. cc e))))))
  where
    named :
        (p : SslProto) {others : Result SslProto}
        → (others ≡ ok q → s ≡ proto_name q)
        → (if equal s (proto_name p) then ok p else others) ≡ ok q
        → s ≡ proto_name q
    named p {others} more = elim (Bool-cases (equal s (proto_name p))) [
      | inl same ↦
          λ e. (equal_iff s (proto_name p)).0 same ∙ ap proto_name (ok_injective (rw same at e))
      | inr other ↦ λ e. more (rw other at e)
    ]

module _ (api : JsonApi) where
  open api use {Json, contains, at, value_string, value_bool, elements, get_string}

  read_ssl-client_certificate :
      (section : Json) {s : SslSettings}
      → read_ssl api section ≡ ok s
      → client_certificate_of api section ≡ ok s.client_certificate
  unfolding read_ssl
  read_ssl-client_certificate section e = ground arith

  read_ssl-protocols_of :
      (section : Json) {s : SslSettings}
      → read_ssl api section ≡ ok s
      → protocols_of api section ≡ ok s.protocols
  unfolding read_ssl
  read_ssl-protocols_of section e = ground arith

  verify_cases :
      (section : Json) (file : Bytes)
      → client_certificate_of api section ≡ ok file
      → (not (is_empty file) ≡ true) ↔ (
          (value_bool section (codes "verify_client") false ≡ ok true)
          × (value_string section (codes "client_certificate") [] ≢ ok []))
  unfolding client_certificate_of
  verify_cases section [] e = ground arith
  verify_cases section (c ∷ file) e = ground arith

  -- For a section that can be read, clients are asked for a certificate exactly where it has
  -- `verify_client` and names a `client_certificate` that is not empty: `verify_client` alone asks
  -- for nothing.
  pub read_ssl-verifies :
      (section : Json) {s : SslSettings}
      → read_ssl api section ≡ ok s
      → (verifies (context_calls s) ≡ true) ↔ (
          (value_bool section (codes "verify_client") false ≡ ok true)
          × (value_string section (codes "client_certificate") [] ≢ ok []))
  read_ssl-verifies section {s} e =
      rw (verifies-context_calls s)
        (verify_cases section s.client_certificate (read_ssl-client_certificate section e))

  -- The first protocol of a list, behind those that are there.
  one_more : {X A B C D E : Type 0} → X ↔ (A ⊎ C) → A ↔ (B ⊎ D) → D ↔ E → X ↔ (B ⊎ (E ⊎ C))
  one_more (to, from) (to', from') (to'', from'') = (
    λ x. elim (to x) [
      | inr c ↦ inr (inr c)
      | inl a ↦ elim (to' a) [ inl b ↦ inl b | inr d ↦ inr (inl (to'' d)) ]
    ],
    λ h. elim h [
      | inl b ↦ from (inl (from' (inl b)))
      | inr (inl e) ↦ from (inl (from' (inr (from'' e))))
      | inr (inr c) ↦ from (inr c)
    ],
  )

  -- One of these values names the protocol.
  abbrev pub Names : List Json → SslProto → Type 0
  Names [] p = ⊥
  Names (j ∷ js) p = (get_string j ≡ ok (proto_name p)) ⊎ Names js p

  read_protocols-Has :
      (p : SslProto) (js : List Json) (ps : List SslProto) {qs : List SslProto}
      → read_protocols api js ps ≡ ok qs
      → Has qs p ↔ (Has ps p ⊎ Names js p)
  unfolding read_protocols
  read_protocols-Has p [] ps {qs} e =
      let same = ok_injective e in
      (
        λ h. inl (subst (λ r. Has r p) (sym same) h),
        λ h. elim h [ inl old ↦ subst (λ r. Has r p) same old | inr none ↦ elim none [ ] ],
      )
  read_protocols-Has p (j ∷ js) ps {qs} e =
      let (s, read, k) = bind_ok (get_string j) _ e in
      let (q, known, more) = bind_ok (protocol_from_string s) _ k in
      let ih = read_protocols-Has p js (insert_proto q ps) more in
      let inserted = Has-insert_proto p q ps in
      let named : (q ≡ p) ↔ (get_string j ≡ ok (proto_name p)) = (
        λ same. read ∙ ap ok (protocol_named s known ∙ ap proto_name same),
        λ names. ok_injective (
            sym known
            ∙ ap protocol_from_string (ok_injective (sym read ∙ names))
            ∙ protocol_from_string-proto_name p),
      ) in
      one_more ih (Has-insert_proto p q ps) named

  -- The section has a list of protocols, and this one is in it.
  abbrev pub IsListed : Json → SslProto → Type 0
  IsListed section p =
      (list : Json) × (contains section (codes "protocols") ≡ true)
      × (at section (codes "protocols") ≡ ok list)
      × Names (elements list) p

  protocols_of-Has :
      (p : SslProto) (section : Json) {qs : List SslProto}
      → protocols_of api section ≡ ok qs
      → Has qs p ↔ (Has default_protocols p ⊎ IsListed section p)
  unfolding protocols_of
  protocols_of-Has p section {qs} e = elim (Bool-cases (contains section (codes "protocols"))) [
    | inl present ↦
        let (list, found, read) = bind_ok (at section (codes "protocols")) _ (rw present at e) in
        let (to, from) = read_protocols-Has p (elements list) default_protocols read in
        (
          λ h. elim (to h) [
            | inl default ↦ inl default
            | inr names ↦ inr (list, present, found, names)
          ],
          λ h. from (elim h [
            | inl default ↦ inl default
            | inr (other, _, found', names) ↦
                inr (subst (λ j. Names (elements j) p) (ok_injective (sym found' ∙ found)) names)
          ]),
        )
    | inr missing ↦
        let same = ok_injective (rw missing at e) in
        (
          λ h. inl (subst (λ r. Has r p) (sym same) h),
          λ h. elim h [
            | inl default ↦ subst (λ r. Has r p) same default
            | inr (_, present, _, _) ↦ cc (present, missing)
          ],
        )
  ]

  -- For a section that can be read, a protocol is among the settings exactly where it is one of the
  -- four defaults or the section's `protocols` list it by its name: the list adds to the defaults,
  -- and takes none away.
  pub read_ssl-Has :
      (section : Json) {s : SslSettings} (p : SslProto)
      → read_ssl api section ≡ ok s
      → Has s.protocols p ↔ (Has default_protocols p ⊎ IsListed section p)
  read_ssl-Has section p e = protocols_of-Has p section (read_ssl-protocols_of section e)
