-- ===== src/Tests/Folders.antt =====
-- The theorem on folders at a concrete folder, and a file that is asked for with a query.
use f.Prelude.{◌≡◌, refl, ◌∙◌, true, false, some, none, List, [], ◌∷◌, ◌++◌, ◌||◌, if◌then◌else◌}
use f.Bytes.{Bytes, codes, before, equal, has_dotdot}
use f.Connection.{blank_reply}
use f.FileSystem.{FileSystem, Entry, regular, directory, extension, join, relative_path}
use f.Http.{HttpRequest}
use f.Main.{simple_router}
use f.Main.Files.{file_path, simple_router-route}
use f.Static.Files.{serve_path-file}
use f.Mime.{extension_to_type}
use f.Reply.{ok, framing, Reply, not_found, replied, stock_reply}
use f.Router.{is_refused, route}
use f.Router.Sorted.{insertion_sort, insertion_sort-IsSort}
use f.Static.{serve_path, serve_file}
use f.Tests.Parsing.{sample}
use f.Tests.Replies.{site}
use f.Map.{lookup}
use f.Url.{url_decode, decode_from, isxdigit, read_hex, hex_digit}

abbrev notes : List Entry
notes = (record { filename = codes "a.txt"; is_regular = true }) ∷ []

-- A folder without an index.
unfoldable shelf : FileSystem
unfolding equal
shelf p =
    if equal p (codes "/srv/docs") || equal p (codes "/srv/docs/")
    then some (directory (some notes))
    else none

abbrev folder_request : HttpRequest
folder_request = record sample { method = codes "HEAD"; uri = codes "/docs" }

-- The page of the site, asked for with a query: the query stays a part of the file's name.
abbrev versioned : HttpRequest
versioned = record sample { method = codes "GET"; uri = codes "/index.html?v=1" }

versioned_decodes :
    (url_decode versioned.uri ≡ (true, codes "/index.html?v=1"))
    × (is_refused (codes "/index.html?v=1") ≡ false)
unfolding url_decode decode_from is_refused has_dotdot
versioned_decodes = (refl, refl)

versioned_path :
    serve_path site
      (file_path (codes "/srv") (codes "index.html?v=1"))
      versioned
      (blank_reply not_found)
    ≡ replied (stock_reply not_found)
unfolding site join relative_path serve_path serve_file
versioned_path = refl

versioned_not_found :
    route site (simple_router insertion_sort (codes "/srv")) versioned (blank_reply not_found)
    ≡ replied (stock_reply not_found)
unfolding equal
versioned_not_found =
    simple_router-route site (codes "/srv") (codes "index.html?v=1") versioned not_found
      insertion_sort-IsSort refl versioned_decodes.0 versioned_decodes.1 versioned_path

-- The same page, with a zero byte in the path, at which the system's calls stop reading it: the
-- client chooses the type of the reply.
abbrev zero_site : FileSystem
zero_site p = site (before 0 p)

abbrev disguised : HttpRequest
disguised = record sample { method = codes "GET"; uri = codes "/index.html%00.png" }

abbrev disguised_path : Bytes
disguised_path = codes "index.html" ++ 0 ∷ codes ".png"

disguised_decodes :
    (url_decode disguised.uri ≡ (true, b'/' ∷ disguised_path))
    × (is_refused (b'/' ∷ disguised_path) ≡ false)
unfolding url_decode decode_from isxdigit read_hex hex_digit is_refused has_dotdot
disguised_decodes = (refl, refl)

disguised_file :
    zero_site (file_path (codes "/srv") disguised_path) ≡ some (regular (some (codes "hello")))
unfolding site join relative_path before
disguised_file = refl

disguised_type :
    extension_to_type (extension (file_path (codes "/srv") disguised_path)) ≡ codes "image/png"
unfolding join relative_path extension extension_to_type lookup
disguised_type = refl

disguised_served :
    route zero_site (simple_router insertion_sort (codes "/srv")) disguised (blank_reply not_found)
    ≡ replied (record {
      status = ok;
      headers = framing (codes "hello") (codes "image/png");
      content = codes "hello";
    })
unfolding equal
disguised_served =
    simple_router-route zero_site (codes "/srv") disguised_path disguised not_found
      insertion_sort-IsSort refl disguised_decodes.0 disguised_decodes.1
      (serve_path-file zero_site (file_path (codes "/srv") disguised_path) (codes "hello") disguised
        not_found disguised_file)
    ∙ rw disguised_type refl
