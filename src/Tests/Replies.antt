-- ===== src/Tests/Replies.antt =====
-- The theorems on replies and on static contents at concrete inputs.
use f.Prelude.{◌≡◌, ◌↔◌, refl, not, some, none, if◌then◌else◌, [], ◌∷◌}
use f.Bytes.{codes, equal}
use f.FileSystem.{FileSystem, regular, directory, barred, join, has_filename}
use f.Http.{HttpRequest, empty_request}
use f.Parser.{parse, header_line_start, expecting_newline_3, good, ok, is_ctl, is_not_token}
use f.Parser.Runs.{token_test, token_test_sound, value_test, value_test_sound}
use f.Parser.RoundTrip.{IsHeader}
use f.Reply.{Reply, not_found, no_content, forbidden, stock_content, status_from_string}
use f.Reply.Tables.{page, is_exception, stock_content-page, name_of, status_from_string_iff}
use f.Reply.Wire.{after_line, with_headers, parse-to_buffers}
use f.Static.{StaticContent}
use f.Static.Containment.{AgreeInside}
use f.Tests.Parsing.{sample}

stock_content-page_example :
    equal (stock_content no_content) (page no_content) ≡ not (is_exception no_content)
stock_content-page_example = stock_content-page no_content

status_from_string_iff_example :
    (status_from_string (codes "not_found") ≡ some not_found)
    ↔ (codes "not_found" ≡ name_of not_found)
status_from_string_iff_example = status_from_string_iff (codes "not_found") not_found

abbrev tagged : Reply
tagged = record {
  status = forbidden;
  headers = (record { name = codes "X-Tag"; value = codes "a: b" }) ∷ [];
  content = codes "body";
}

tag-IsHeader : IsHeader (record { name = codes "X-Tag"; value = codes "a: b" })
unfolding token_test value_test is_not_token is_ctl
tag-IsHeader = record {
  name_ne_nil = λ e. cc;
  name_tokens = token_test_sound (codes "X-Tag") refl;
  value_chars = value_test_sound (codes "a: b") refl;
}

parse-to_buffers_example :
    parse header_line_start empty_request (after_line tagged)
    ≡ ok (expecting_newline_3, with_headers tagged.headers, good, codes "body")
parse-to_buffers_example = parse-to_buffers tagged (tag-IsHeader, tt)

-- A root with one page in it and a path whose status the system refuses to tell, and another file
-- system that differs outside of it.
unfoldable pub site : FileSystem
unfolding equal
site p =
    if equal p (codes "/srv")
    then some (directory (some []))
    else if equal p (codes "/srv/index.html")
    then some (regular (some (codes "hello")))
    else if equal p (codes "/srv/locked")
    then some barred
    else none

abbrev pub docs : StaticContent
docs = record { doc_root = codes "/srv" }

abbrev pub hello_request : HttpRequest
hello_request = record sample { uri = codes "/" }

-- The same, with a file outside of the root.
unfoldable pub leaky : FileSystem
unfolding equal
leaky p = if equal p (codes "/etc/passwd") then some (regular (some (codes "secret"))) else site p

pub leaky-AgreeInside : AgreeInside docs.doc_root site leaky
unfolding leaky join has_filename equal
leaky-AgreeInside p (rest, e, _) = rw e refl
