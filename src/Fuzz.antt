-- ===== src/Fuzz.antt =====
-- The fuzz targets of fuzz_test: each is a function of the bytes that the fuzzer makes.
use f.Prelude.{ℕ, Option, none, some, List, [], ◌∷◌, if◌then◌else◌}
use f.Bytes.{Bytes, codes}
use f.Dynamic.{written, Handler, get}
use f.FileSystem.{FileSystem}
use f.Http.{HttpRequest, empty_request}
use f.Mime.{extension_to_type}
use f.Parser.{Checked, ok, ◌>>=◌, reset, parse}
use f.Reply.{Reply, replied, raised}
use f.Router.{Resource, ResourceEntry, PathRouter, dynamic, route}
use f.Router.Each.{add_each}
use f.Tls.{is_empty}
pub mod Safe

-- fuzz_mime_types.cpp. `none` is `__builtin_trap`.
unfoldable pub fuzz_mime_types : Bytes → Option ℕ
fuzz_mime_types input = if is_empty (extension_to_type input) then none else some 0

-- fuzz_request_parser.cpp
unfoldable pub fuzz_request_parser : Bytes → Checked ℕ
fuzz_request_parser input = parse reset empty_request input >>= λ _. ok 0

-- fuzz_router.cpp. Its handlers write nothing.
abbrev pub silent_handler : Handler
silent_handler req os = written os

abbrev pub fuzz_resources : List (Bytes × Resource)
fuzz_resources =
    (codes "/foo", dynamic (get silent_handler))
    ∷ (codes "/foo/bar", dynamic (get silent_handler))
    ∷ (codes "/bar", dynamic (get silent_handler))
    ∷ (codes "/bar/foo/aaa", dynamic (get silent_handler))
    ∷ (codes "/bar/foo/bbb", dynamic (get silent_handler))
    ∷ (codes "/bar/foo/bbb/ccc", dynamic (get silent_handler))
    ∷ (codes "/foo/bar/aaa", dynamic (get silent_handler))
    ∷ []

unfoldable pub fuzz_paths : (List ResourceEntry → List ResourceEntry) → PathRouter
unfolding add_each
fuzz_paths sort = add_each sort fuzz_resources []

-- `req` has all its fields set, and `rep` keeps what the call before has left.
abbrev pub fuzz_request : Bytes → HttpRequest
fuzz_request input = record {
  method = codes "GET";
  uri = input;
  http_version_major = 1;
  http_version_minor = 1;
  headers = [];
}

unfoldable pub fuzz_router :
    (List ResourceEntry → List ResourceEntry) → FileSystem → Bytes → Reply → Option (ℕ × Reply)
unfolding fuzz_paths
fuzz_router sort fs input rep = elim (route fs (fuzz_paths sort) (fuzz_request input) rep) [
  | replied rep' ↦ some (0, rep')
  | raised _ ↦ none
]
