-- ===== src/Tests/Programs.antt =====
-- The theorems on whole programs and on fuzz targets at concrete inputs.
use mathlib.Core.List.{Memᴰ, Permᴰ}
use f.Prelude.{
  ℕ, ◌≡◌, refl, ap, sym, ◌∙◌, inr, subst, length, true, false, some, List, [], ◌∷◌, arith,
  if◌then◌else◌, ◌||◌,
}
use f.Bytes.{Bytes, codes, equal, has_dotdot}
use f.Reply.{replied, raised}
use f.Dynamic.{get}
use f.Examples
use f.Examples.{
  tls_server, plain_server, directory, https_redirect, books_handler, complete_resources,
  complete_router, start_rest, start_complete, start_static, start_https_static, rest_main,
  complete_main, static_main, https_static_main,
}
use f.Examples.Books.{books_reply, complete_router-books}
use f.Examples.Programs.{Finishes, mains_iff}
use f.Http.{HttpRequest}
use f.Fuzz.{fuzz_mime_types, fuzz_router}
use f.Fuzz.Safe.{fuzz_mime_types-returns, fuzz_router-returns}
use f.Main.{Exit}
use f.Parser
use f.Parser.{fault, int_overflow}
use f.Parser.RoundTrip.{render}
use f.Redirect.{json_handler, return_handler}
use f.Redirect.Values.{readable, lacks_host, json_handler-readable}
use f.Reply.{Reply, moved_permanently, not_found, stock_reply}
use f.Router.{Resource, ResourceEntry, static, dynamic, is_refused, lookup_method, route}
use f.Router.Dispatch.{Serves, Serves-unique}
use f.Router.Each.{entries_of, add_each}
use f.Router.Order.{NoTies, route-perm}
use f.Router.Sorted.{entry, insertion_sort, insertion_sort-IsSort}
use f.Text.{split_string}
use f.Url.{url_decode, decode_from}
use f.Prelude.{◌↔◌}
use f.Tests.Configs.{
  Value, array, object, text, flag, element, no_element, member, no_member, values, network,
  attempt,
}
use f.Tests.Parsing.{sample}
use f.Tests.Redirects.{host_request}
use f.Tests.Replies.{site}

abbrev books_request : HttpRequest
books_request = record sample { uri = codes "/books?x=1" }

books_decodes :
    (url_decode books_request.uri ≡ (true, codes "/books?x=1"))
    × (is_refused (codes "/books?x=1") ≡ false)
    × ((split_string (codes "/books?x=1") b'?').0 ≡ codes "/books")
unfolding url_decode decode_from is_refused has_dotdot split_string
books_decodes = (refl, refl, refl)

complete_router-books_example :
    route site (complete_router insertion_sort) books_request (stock_reply not_found)
    ≡ replied books_reply
unfolding equal
complete_router-books_example =
    complete_router-books site books_request (stock_reply not_found) insertion_sort-IsSort
      books_decodes.0 books_decodes.1 refl books_decodes.2

html_accepted : fuzz_mime_types (codes "html") ≡ some 0
html_accepted = fuzz_mime_types-returns (codes "html")

fuzz_router-returns_example :
    (r : Reply) × ((rep : Reply)
      → fuzz_router insertion_sort site (codes "/foo/bar") rep ≡ some (0, r))
fuzz_router-returns_example = fuzz_router-returns site (codes "/foo/bar") insertion_sort-IsSort

abbrev tries : List Examples.Instance → ℕ → Exit × ℕ
tries servers = attempt

mains_iff_example :
    ((rest_main network site insertion_sort tries 20 3 ≡ some 0)
      ↔ Finishes network site insertion_sort tries (start_rest network site insertion_sort 3) 20)
    × ((complete_main network site insertion_sort tries 20 3 ≡ some 0)
        ↔ Finishes network site insertion_sort tries
            (start_complete network site insertion_sort 3)
            20)
    × ((static_main network site insertion_sort tries 20 3 ≡ some 0)
        ↔ Finishes network site insertion_sort tries
            (start_static network site insertion_sort 3)
            20)
    × ((https_static_main network site insertion_sort tries 20 3 ≡ some 0)
        ↔ Finishes network site insertion_sort tries
            (start_https_static network site insertion_sort 3)
            20)
mains_iff_example = mains_iff network site insertion_sort tries 20 3

-- An entry of three headers, of which the last one has a value that is no text.
abbrev faulty : Value
faulty = array (
    element (object (member (codes "Location") (text (codes "https://$host")) no_member))
      (element (object (member (codes "X-Age") (flag true) no_member)) no_element))

json_handler-readable_example :
    json_handler values moved_permanently faulty host_request (stock_reply not_found) ≡ (
      if (readable values (values.elements faulty)).1
        || lacks_host host_request (readable values (values.elements faulty)).0
      then replied (
          return_handler moved_permanently
            (readable values (values.elements faulty)).0
            host_request
            (stock_reply not_found))
      else raised (
          return_handler moved_permanently
            (readable values (values.elements faulty)).0
            host_request
            (stock_reply not_found)))
json_handler-readable_example =
    json_handler-readable values moved_permanently faulty host_request (stock_reply not_found)

abbrev host_pieces : List Bytes
host_pieces = render host_request [] ∷ []

abbrev https_servers : List Examples.Instance
https_servers =
    tls_server (route site (directory insertion_sort (codes "."))) (codes "7000") (codes "0.0.0.0")
    ∷ plain_server https_redirect (codes "8002") (codes "0.0.0.0")
    ∷ []

-- The resources of complete.cpp in the other order. Their locations have different lengths.
abbrev reversed : List (Bytes × Resource)
reversed =
    (codes "/books", dynamic (get books_handler))
    ∷ (codes "/", static (record { doc_root = codes "." }))
    ∷ []

reversed_perm : Permᴰ complete_resources reversed
reversed_perm = Permᴰ.swap refl refl

pair_cases :
    (a b : ResourceEntry) {e e' : ResourceEntry}
    → (length a.location ≡ length b.location → ⊥)
    → Memᴰ e (a ∷ b ∷ [])
    → Memᴰ e' (a ∷ b ∷ [])
    → length e.location ≡ length e'.location
    → e ≡ e'
pair_cases a b h (Memᴰ.head p) (Memᴰ.head q) same = p ∙ sym q
pair_cases a b h (Memᴰ.head p) (Memᴰ.tail (Memᴰ.head q)) same =
    absurd (h (sym (ap (λ x. length x.location) p) ∙ (same ∙ ap (λ x. length x.location) q)))
pair_cases a b h (Memᴰ.tail (Memᴰ.head p)) (Memᴰ.head q) same =
    absurd (h (sym (ap (λ x. length x.location) q) ∙ (sym same ∙ ap (λ x. length x.location) p)))
pair_cases a b h (Memᴰ.tail (Memᴰ.head p)) (Memᴰ.tail (Memᴰ.head q)) same = p ∙ sym q
pair_cases a b h (Memᴰ.head p) (Memᴰ.tail (Memᴰ.tail m')) same = elim m' [ ]
pair_cases a b h (Memᴰ.tail (Memᴰ.head p)) (Memᴰ.tail (Memᴰ.tail m')) same = elim m' [ ]
pair_cases a b h (Memᴰ.tail (Memᴰ.tail m)) m' same = elim m [ ]

no_ties :
    NoTies site
      (codes "/books?x=1")
      books_request
      (stock_reply not_found)
      (entries_of (lookup_method books_request.method) complete_resources)
unfolding equal
no_ties e e' r r' m m' same s s' = sym (
    Serves-unique site (codes "/books?x=1") books_request (stock_reply not_found) e (inr s) (
      subst (λ x. Serves site (codes "/books?x=1") books_request (stock_reply not_found) r' x)
        (sym (
          pair_cases (entry (codes "/") (static (record { doc_root = codes "." })))
            (entry (codes "/books") (dynamic (get books_handler))) (omega arith) m m' same))
        s'))

route-perm_example :
    route site (add_each insertion_sort complete_resources []) books_request (stock_reply not_found)
    ≡ route site (add_each insertion_sort reversed []) books_request (stock_reply not_found)
route-perm_example =
    route-perm site books_request (stock_reply not_found) insertion_sort-IsSort
      insertion_sort-IsSort reversed_perm books_decodes.0 books_decodes.1 no_ties
