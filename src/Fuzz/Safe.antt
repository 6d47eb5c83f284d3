-- ===== src/Fuzz/Safe.antt =====
-- What the fuzz targets can find.
use f.Prelude.{
  ℕ, ◌≡◌, ◌≢◌, ◌⊎◌, ◌∙◌, inl, inr, refl, ap, true, false, some, List, [], ◌∷◌, All, Bool-cases,
  Bool, true, false, Option, none, if◌then◌else◌, arith, not,
}
use f.Bytes.{Bytes}
use f.Dynamic
use f.Dynamic.{DynamicContent, ResponseStream, written, empty_stream, handler_request, get}
use f.FileSystem.{FileSystem}
use f.Fuzz.{
  fuzz_mime_types, fuzz_request_parser, silent_handler, fuzz_resources, fuzz_request, fuzz_paths,
  fuzz_router,
}
use f.Http.{HttpRequest, empty_request}
use f.Map.{lookup, lookup-All}
use f.Mime.Types.{all_values, extension_to_type-test}
use f.Parser.{Checked, Parsed, ok, fault, int_overflow, back_of_empty, method_start, parse, ◌>>=◌}
use f.Parser.Sound.{parse-ne-back_of_empty}
use f.Reply.{Reply, Handled, replied, raised, passed, taken, stock_reply, not_found, bad_request}
use f.Request.{Request}
use f.Router.{
  Resource, ResourceEntry, static, dynamic, PathRouter, serve_if_match, serve_resource, serve_first,
  serve_found, is_refused, lookup_method, route_path, route,
}
use f.Router.Dispatch.{serve_first_refused, serve_first_served}
use f.Router.Each.{add_each, add_each-All}
use f.Router.Sorted.{IsSort}
use f.Text.{split_string, match_pattern}
use f.Tls.{is_empty}
use f.Url.{url_decode}

-- The trap of the fuzz target for media types is never reached, whatever the extension.
pub fuzz_mime_types-returns : (input : Bytes) → fuzz_mime_types input ≡ some 0
unfolding fuzz_mime_types all_values
fuzz_mime_types-returns input =
    let full = extension_to_type-test (λ t. not (is_empty t)) input refl in ground (arith, full)

-- The fuzz target for the parser returns, or an `int` overflows: no input makes it take `back()` of
-- an empty vector.
fuzz_request_parser-cases :
    (input : Bytes)
    → (fuzz_request_parser input ≡ ok 0) ⊎ (fuzz_request_parser input ≡ fault int_overflow)
unfolding fuzz_request_parser
fuzz_request_parser-cases input =
    cases (parse method_start empty_request input) (parse-ne-back_of_empty input)
  where
    cases :
        (p : Parsed)
        → p ≢ fault back_of_empty
        → ◌≡◌ {A = Checked ℕ} (p >>= λ _. ok 0) (ok 0)
          ⊎ ◌≡◌ {A = Checked ℕ} (p >>= λ _. ok 0) (fault int_overflow)
    cases (ok r) ne = inl refl
    cases (fault int_overflow) ne = inr refl
    cases (fault back_of_empty) ne = absurd (ne refl)

-- A dynamic content whose handler returns.
abbrev IsReturning : Resource → Type 0
IsReturning (static s) = ⊥
IsReturning (dynamic d) =
    (r : Request) → (ss : ResponseStream) × (d.handler r empty_stream ≡ written ss)

-- Whatever reply is there before, this one is there afterwards.
abbrev Settles : (Reply → Handled) → Type 0
Settles run = (r : Reply) × ((rep : Reply) → run rep ≡ replied r)

settled-if :
    (test : Bool) (run : Reply → Handled) (r : Reply)
    → Settles run
    → Settles (λ rep. if test then run rep else replied r)
settled-if true run r h = h
settled-if false run r h = (r, λ rep. refl)

module _ (fs : FileSystem) (path : Bytes) (req : HttpRequest) where
  -- The resource refuses the path or replies, whatever reply it is given.
  abbrev Fresh : ResourceEntry → Type 0
  Fresh e =
      ((rep : Reply) → serve_if_match fs e path req rep ≡ passed rep)
      ⊎ ((r : Reply) × ((rep : Reply) → serve_if_match fs e path req rep ≡ taken (replied r)))

  dynamic-Fresh :
      (location : Bytes) (d : DynamicContent)
      → IsReturning (dynamic d)
      → Fresh (record { location = location; handler = dynamic d })
  unfolding serve_if_match serve_resource Dynamic.serve_if_match
  dynamic-Fresh location d returns =
      let parts = split_string path b'?' in
      let (ss, e) = returns (handler_request req (match_pattern location parts.0).1 parts.1) in
      elim (Bool-cases (match_pattern location (split_string path b'?').0).0) [
        | inl matches ↦ inr (Dynamic.reply_of ss, λ rep. rw (matches, e) refl)
        | inr refused ↦ inl (λ rep. rw refused refl)
      ]

  IsReturning-Fresh : (e : ResourceEntry) → IsReturning e.handler → Fresh e
  IsReturning-Fresh e h = go e.handler h
    where
      go : (r : Resource) → IsReturning r → Fresh (record { location = e.location; handler = r })
      go (static s) h = absurd h
      go (dynamic d) h = dynamic-Fresh e.location d h

  serve_first-Settles :
      (es : List ResourceEntry)
      → All (λ e. IsReturning e.handler) es
      → Settles (serve_first fs es path req)
  serve_first-Settles [] h = (stock_reply not_found, λ rep. unfold serve_first in refl)
  serve_first-Settles (e ∷ es) (p, h) = cases (IsReturning-Fresh e p) (serve_first-Settles es h)
    where
      cases :
          Fresh e
          → Settles (serve_first fs es path req)
          → Settles (serve_first fs (e ∷ es) path req)
      cases (inl refuses) (r, ih) =
          (r, λ rep. serve_first_refused fs path req rep e es (refuses rep) ∙ ih rep)
      cases (inr (r, serves)) ih = (r, λ rep. serve_first_served fs path req rep e es (serves rep))

  serve_found-Settles :
      (resources : PathRouter)
      → All (λ m. All (λ e. IsReturning e.handler) m.1) resources
      → Settles (serve_found fs (lookup (lookup_method req.method) resources) path req)
  unfolding serve_found
  serve_found-Settles resources h = cases (lookup (lookup_method req.method) resources) refl
    where
      cases :
          (o : Option (List ResourceEntry))
          → lookup (lookup_method req.method) resources ≡ o
          → Settles (serve_found fs o path req)
      cases none e = (stock_reply not_found, λ rep. refl)
      cases (some es) e = serve_first-Settles es (
          lookup-All (λ k v. All (λ e. IsReturning e.handler) v) (lookup_method req.method)
            resources h e)

-- A router of dynamic contents that return makes the same reply of a request, whatever reply it is
-- given.
route-Settles :
    (fs : FileSystem) (resources : PathRouter) (req : HttpRequest)
    → All (λ m. All (λ e. IsReturning e.handler) m.1) resources
    → Settles (route fs resources req)
unfolding route route_path
route-Settles fs resources req h =
    let (decoded, path) = url_decode req.uri in
    settled-if decoded (route_path fs resources path req) (stock_reply bad_request)
      (accepted path (is_refused path) refl)
  where
    accepted :
        (path : Bytes) (test : Bool)
        → is_refused path ≡ test
        → Settles (route_path fs resources path req)
    accepted path true e = (stock_reply bad_request, λ rep. rw e refl)
    accepted path false e =
        let (r, found) = serve_found-Settles fs path req resources h in (r, λ rep. rw e (found rep))

silent-IsReturning : IsReturning (dynamic (get silent_handler))
silent-IsReturning r = (empty_stream, refl)

-- With a sort that does what the standard says, the fuzz target for the router always returns: no
-- exception leaves it. What it does with an input does not depend on the inputs before it, though it
-- keeps one reply for all of them.
pub fuzz_router-returns :
    {sort : List ResourceEntry → List ResourceEntry} (fs : FileSystem) (input : Bytes)
    → IsSort sort
    → (r : Reply) × ((rep : Reply) → fuzz_router sort fs input rep ≡ some (0, r))
unfolding fuzz_router fuzz_paths
fuzz_router-returns {sort} fs input valid =
    let s = silent-IsReturning in
    let (r, settles) = route-Settles fs (add_each sort fuzz_resources []) (fuzz_request input) (
      add_each-All valid (λ e. IsReturning e.handler) fuzz_resources []
        (s, (s, (s, (s, (s, (s, (s, tt))))))) tt) in
    (r, λ rep. ap (λ h. elim h [ replied rep' ↦ some (0, rep') | raised _ ↦ none ]) (settles rep))
