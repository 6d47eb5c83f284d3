-- ===== src/Examples/Redirects.antt =====
-- The replies of the handler that sends clients to the server with TLS.
use f.Prelude.{◌≡◌, refl, ◌∷◌, [], All, All-append}
use f.Bytes.{Bytes, codes, before}
use f.Http.{HttpRequest, empty_request, get_header}
use f.Parser.{State, good, ok, parse, method_start, is_ctl, is_not_token}
use f.Parser.Runs.{IsValueChar, token_test, token_test_sound, value_test, value_test_sound}
use f.Parser.RoundTrip.{IsRequest}
use f.Parser.Sound.{parse-good-IsRequest}
use f.Redirect.Headers.{
  All-before, uri-IsValueChar, find_header-IsValueChar, with_extra-IsDelimited,
}
use f.Reply.{IfReplied, Reply, moved_permanently, bad_request, stock_reply}
use f.Reply.Wire.{IsDelimited, stock_reply-IsDelimited}
use f.Examples.{https_location, redirect_host, https_redirect}

https_location-IsValueChar :
    (host : Bytes) (req : HttpRequest)
    → IsRequest req
    → All IsValueChar host
    → All IsValueChar (https_location host req)
unfolding value_test is_ctl
https_location-IsValueChar host req h k =
    All-append IsValueChar (codes "https://") _ (value_test_sound (codes "https://") refl) (
      All-append IsValueChar (before b':' host) _ (All-before IsValueChar b':' host k) (
        All-append IsValueChar (codes ":7000") req.uri (value_test_sound (codes ":7000") refl)
          (uri-IsValueChar req.uri h.uri_chars)))

redirect_host-IsDelimited :
    (host : Bytes) (req : HttpRequest)
    → IsRequest req
    → All IsValueChar host
    → IsDelimited (redirect_host host req)
unfolding stock_reply token_test is_not_token
redirect_host-IsDelimited [] req h k = stock_reply-IsDelimited bad_request
redirect_host-IsDelimited (c ∷ host) req h k = with_extra-IsDelimited moved_permanently _ (
  record {
    name_ne_nil = λ e. cc;
    name_tokens = token_test_sound (codes "Location") refl;
    value_chars = https_location-IsValueChar (c ∷ host) req h k;
  },
  tt,
)

-- Whatever bytes were accepted as the request, the redirection to the server with TLS has header
-- lines that can be read back, and states its length: neither the host nor the URI that a client
-- sends can end the header line that they are put into.
https_redirect-IsDelimited :
    (input : Bytes) (res : Reply) {rest : Bytes} {s : State} {r : HttpRequest}
    → parse method_start empty_request input ≡ ok (s, r, good, rest)
    → IfReplied IsDelimited (https_redirect r res)
unfolding https_redirect get_header
https_redirect-IsDelimited input res {r} e =
    let h = (parse-good-IsRequest input e).0 in
    redirect_host-IsDelimited _ r h
      (find_header-IsValueChar (codes "host") r.headers h.header_lines)
