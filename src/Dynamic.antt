-- ===== src/Dynamic.antt =====
-- lib/dynamic_content.hpp and lib/dynamic_content.cpp. The handler is the library user's function:
-- a parameter of the model, which writes to the stream, and returns or throws.
pub mod Query
pub mod Serve
use f.Prelude.{ℕ, Bool, true, false, List, [], ◌∷◌, ◌++◌, ◌==◌, if◌then◌else◌, length}
use f.Bytes.{Bytes, codes}
use f.Http.{HttpRequest}
use f.Map.{Map}
use f.Reply.{Reply, Status, framing, Handled, replied, raised, Tried, passed, taken}
use f.Reply
use f.Request.{Request, new_request, add_queryvalue}
use f.Text.{split_string, match_pattern}

-- `struct response_stream`; `text` is what has been written.
pub record ResponseStream : Type 0 where
  pub text : Bytes
  pub content_type : Bytes
  pub status : Status

abbrev pub empty_stream : ResponseStream
empty_stream = record { text = []; content_type = codes "text/plain"; status = Status.ok }

-- The manipulators, and the insertion of a text.
abbrev pub json : ResponseStream → ResponseStream
json os = record os { content_type = codes "application/json" }

abbrev pub xml : ResponseStream → ResponseStream
xml os = record os { content_type = codes "application/xml" }

abbrev pub plain : ResponseStream → ResponseStream
plain os = record os { content_type = codes "text/plain" }

abbrev pub ok : ResponseStream → ResponseStream
ok os = record os { status = Status.ok }

abbrev pub bad_request : ResponseStream → ResponseStream
bad_request os = record os { status = Status.bad_request }

abbrev pub write : Bytes → ResponseStream → ResponseStream
write s os = record os { text = os.text ++ s }

-- The stream that a handler leaves, or the exception that leaves the handler.
pub data Outcome : Type 0 where
  written : ResponseStream → Outcome
  thrown : Outcome

abbrev pub Handler : Type 0
Handler = Request → ResponseStream → Outcome

-- `class dynamic_content`; `action` is what `method()` returns.
pub record DynamicContent : Type 0 where
  pub action : Bytes
  pub handler : Handler

abbrev pub get : Handler → DynamicContent
get h = record { action = codes "GET"; handler = h }

abbrev pub post : Handler → DynamicContent
post h = record { action = codes "POST"; handler = h }

abbrev pub put : Handler → DynamicContent
put h = record { action = codes "PUT"; handler = h }

-- `while (getline(s, temp, '&')) params.push_back(temp)`: `line` is what has been read of the next
-- line. At the end of the text a line counts only if a byte was read.
abbrev pub close_line : Bytes → List Bytes
close_line [] = []
close_line (c ∷ line) = (c ∷ line) ∷ []

unfoldable pub get_lines : Bytes → Bytes → List Bytes
get_lines line [] = close_line line
get_lines line (c ∷ s) =
    let closed = line ∷ get_lines [] s in
    let longer = get_lines (line ++ c ∷ []) s in if c == b'&' then closed else longer

-- The loop over the parameters.
unfoldable pub add_params : List Bytes → Request → Request
add_params [] req = req
add_params (param ∷ params) req =
    let (key, value) = split_string param b'=' in add_params params (add_queryvalue key value req)

unfoldable pub handle_query_parameters : Bytes → Request → Request
unfolding get_lines add_params
handle_query_parameters text req = add_params (get_lines [] text) req

-- The request that the handler gets.
abbrev pub handler_request : HttpRequest → Map → Bytes → Request
handler_request http_req params text =
    handle_query_parameters text (record (new_request http_req) { resources = params })

-- The reply made of what the handler has left in its stream.
abbrev pub reply_of : ResponseStream → Reply
reply_of ss = record {
  status = ss.status;
  headers = framing ss.text ss.content_type;
  content = ss.text;
}

-- An exception of the handler leaves the reply as it was.
abbrev pub handled : Reply → Outcome → Handled
handled rep (written ss) = replied (reply_of ss)
handled rep thrown = raised rep

unfoldable pub serve_if_match : DynamicContent → Bytes → Bytes → HttpRequest → Reply → Tried
serve_if_match d location request_path http_req rep =
    let (resources, text) = split_string request_path b'?' in
    let (matches, params) = match_pattern location resources in
    if matches
    then taken (handled rep (d.handler (handler_request http_req params text) empty_stream))
    else passed rep
