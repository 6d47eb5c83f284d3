-- ===== src/Static/Replies.antt =====
-- The replies of a static content.
use f.Prelude.{
  suc, ◌≡◌, ◌≢◌, refl, Bool, true, false, not, Option, none, some, List, [], ◌∷◌, ◌++◌, length,
  drop, All, All-append, if◌then◌else◌, Bool-cases, inl, inr,
}
use f.Bytes.{Bytes, codes, equal, equal_iff, starts_with}
use f.FileSystem.{
  FileSystem, Entry, exists, is_directory, is_regular_file, open_file, iterate, join, relative_path,
  extension,
}
use f.Http.{HttpRequest, tolower, find_header}
use f.Bytes.Decimal.{read_decimal-to_string}
use f.Mime.Types.{extension_to_type-IsValueChar}
use f.Parser.{is_ctl, is_not_token}
use f.Parser.Runs.{IsValueChar, token_test, token_test_sound}
use f.Parser.RoundTrip.{IsHeader}
use f.Reply.Outcomes.{IfReplied-if, IfReplied-decided}
use f.Reply.{
  Handled, replied, raised, IfReplied, Tried, passed, taken, Reply, ok, moved_permanently,
  not_found, forbidden, stock_reply, stock_content,
}
use f.Reply.Wire.{
  IsDelimited, Served, framing-IsDelimited, framing-IsHeader, stock_reply-IsDelimited,
  parse-to_buffers, html-IsValueChar,
}
use f.Static.{
  StaticContent, read_loop, send_file, serve_file, list_directory, listing, ends_in_slash,
  send_opened, moved, cleared, serve_path, serve_if_match,
}

send_file-IsDelimited :
    (full_path file : Bytes) (rep : Reply) → IsDelimited (send_file full_path file rep)
unfolding send_file
send_file-IsDelimited full_path file rep =
    framing-IsDelimited ok (read_loop (suc (length file)) file rep.content) _
      (extension_to_type-IsValueChar (extension full_path))

send_opened-IsDelimited :
    (full_path : Bytes) (o : Option Bytes) (rep : Reply) → IsDelimited (send_opened full_path o rep)
unfolding send_opened
send_opened-IsDelimited full_path none rep = stock_reply-IsDelimited not_found
send_opened-IsDelimited full_path (some file) rep = send_file-IsDelimited full_path file rep

serve_file-IsDelimited :
    (fs : FileSystem) (full_path : Bytes) (rep : Reply)
    → IfReplied IsDelimited (serve_file fs full_path rep)
unfolding serve_file
serve_file-IsDelimited fs full_path rep =
    IfReplied-decided IsDelimited rep (exists (fs full_path)) _ _
      (IfReplied-decided IsDelimited rep (is_regular_file (fs full_path)) _ _
        (send_opened-IsDelimited full_path (open_file (fs full_path)) rep)
        (stock_reply-IsDelimited forbidden))
      (stock_reply-IsDelimited not_found)

list_directory-IsDelimited : (o : Option (List Entry)) → IsDelimited (list_directory o)
unfolding list_directory
list_directory-IsDelimited none = stock_reply-IsDelimited not_found
list_directory-IsDelimited (some entries) =
    framing-IsDelimited ok (listing entries).content _
      (extension_to_type-IsValueChar (codes ".html"))

location-IsHeader :
    (uri : Bytes)
    → All IsValueChar uri
    → IsHeader (record { name = codes "Location"; value = uri ++ b'/' ∷ [] })
unfolding is_not_token is_ctl token_test
location-IsHeader uri h = record {
  name_ne_nil = λ e. cc;
  name_tokens = token_test_sound (codes "Location") refl;
  value_chars = All-append IsValueChar uri (b'/' ∷ []) h (refl, tt);
}

moved-IsDelimited : (req : HttpRequest) → All IsValueChar req.uri → IsDelimited (moved req)
unfolding stock_reply find_header tolower equal
moved-IsDelimited req h = (
  parse-to_buffers (moved req) (
      All-append IsHeader (stock_reply moved_permanently).headers
        ((record { name = codes "Location"; value = req.uri ++ b'/' ∷ [] }) ∷ [])
        (framing-IsHeader (stock_content moved_permanently) (codes "text/html") html-IsValueChar)
        (location-IsHeader req.uri h, tt)),
  read_decimal-to_string (length (stock_content moved_permanently)),
)

-- Whatever stands at the path in the file system, the reply can be read back and its stated length
-- is that of its content, for a URI with no control character.
serve_path-IsDelimited :
    (fs : FileSystem) (full_path : Bytes) (req : HttpRequest) (rep : Reply)
    → All IsValueChar req.uri
    → IfReplied IsDelimited (serve_path fs full_path req rep)
unfolding serve_path
serve_path-IsDelimited fs full_path req rep h =
    let index_path = join full_path (codes "index.html") in
    IfReplied-decided IsDelimited rep (is_directory (fs full_path)) _ _
      (IfReplied-decided IsDelimited rep (exists (fs index_path)) _ _
        (serve_file-IsDelimited fs index_path rep)
        (IfReplied-if IsDelimited (ends_in_slash req.uri) _ _
          (list_directory-IsDelimited (iterate (fs full_path))) (moved-IsDelimited req h)))
      (serve_file-IsDelimited fs full_path rep)

-- The reply to a request with its content taken out, where there is one.
abbrev pub without_content : Tried → Tried
without_content (taken (replied r)) = taken (replied (record r { content = [] }))
without_content (taken (raised r)) = taken (raised r)
without_content (passed r) = passed r

cleared-head :
    (test : Bool) (req : HttpRequest) (rep : Reply) (h : Handled)
    → ◌≡◌ {A = Tried}
        (if test then passed rep else taken (cleared (record req { method = codes "HEAD" }) h))
        (without_content
          (if test then passed rep else taken (cleared (record req { method = codes "GET" }) h)))
unfolding equal
cleared-head true req rep h = refl
cleared-head false req rep (replied r) = refl
cleared-head false req rep (raised r) = refl

-- A HEAD request has the reply to the same request with the method GET, status and headers
-- included, with no content.
serve_if_match-head :
    (fs : FileSystem) (s : StaticContent) (place request_path : Bytes) (req : HttpRequest)
    (rep : Reply)
    → serve_if_match fs s place request_path (record req { method = codes "HEAD" }) rep
      ≡ without_content
          (serve_if_match fs s place request_path (record req { method = codes "GET" }) rep)
unfolding serve_if_match equal serve_path
serve_if_match-head fs s place request_path req rep =
    cleared-head (not (starts_with place request_path)) req rep _

not_head : (m : Bytes) → m ≢ codes "HEAD" → equal m (codes "HEAD") ≡ false
not_head m ne = elim (Bool-cases (equal m (codes "HEAD"))) [
  | inl same ↦ absurd (ne ((equal_iff m (codes "HEAD")).0 same))
  | inr other ↦ other
]

Served-unless :
    (test : Bool) (rep : Reply) (h : Handled)
    → IfReplied IsDelimited h
    → Served rep (if test then passed rep else taken h)
Served-unless true rep r h = refl
Served-unless false rep r h = h

pub cleared-not_head :
    (req : HttpRequest) (h : Handled) → equal req.method (codes "HEAD") ≡ false → cleared req h ≡ h
cleared-not_head req (replied r) e = rw e refl
cleared-not_head req (raised r) e = refl

-- A location that is no prefix of the path leaves the reply as it was; else, for any method but
-- HEAD and a URI with no control character, the reply can be read back and states its length.
pub serve_if_match-Served :
    (fs : FileSystem) (s : StaticContent) (place request_path : Bytes) (req : HttpRequest)
    (rep : Reply)
    → req.method ≢ codes "HEAD"
    → All IsValueChar req.uri
    → Served rep (serve_if_match fs s place request_path req rep)
unfolding serve_if_match
serve_if_match-Served fs s place request_path req rep ne h =
    let full_path = join s.doc_root (relative_path (drop (length place) request_path)) in
    Served-unless (not (starts_with place request_path)) rep _ (
      rw (cleared-not_head req (serve_path fs full_path req rep) (not_head req.method ne))
        (serve_path-IsDelimited fs full_path req rep h))
