-- ===== src/Static.antt =====
-- lib/static_content.hpp and lib/static_content.cpp.
mod Tests
pub mod Containment
pub mod Files
pub mod Replies
use f.Prelude.{
  ℕ, zero, suc, Bool, true, false, not, ◌&&◌, ◌||◌, Option, none, some, List, [], ◌∷◌, ◌++◌, ◌==◌,
  if◌then◌else◌, length, take, drop,
}
use f.Bytes.{Bytes, codes, equal, starts_with}
use f.FileSystem.{
  FileSystem, Entry, Node, exists, is_directory, is_regular_file, open_file, iterate, relative_path,
  join, extension,
}
use f.Http.{HttpRequest}
use f.Mime.{extension_to_type}
use f.Reply.{
  Handled, replied, raised, Tried, passed, taken, decided, Reply, ok, moved_permanently, forbidden,
  not_found, framing, stock_reply,
}

-- `class static_content`
pub record StaticContent : Type 0 where
  pub doc_root : Bytes

-- `method()`
abbrev pub method : Bytes
method = codes "GET"

-- The loop of `serve_file`: a read of at most 512 bytes of what is left of the file, and their
-- append, until a read gives none. The fuel bounds the rounds.
unfoldable pub read_loop : ℕ → Bytes → Bytes → Bytes
read_loop zero left content = content
read_loop (suc fuel) [] content = content
read_loop (suc fuel) (c ∷ left) content =
    read_loop fuel (drop 512 (c ∷ left)) (content ++ take 512 (c ∷ left))

-- `serve_file`, behind its tests, with what the stream reads.
unfoldable pub send_file : Bytes → Bytes → Reply → Reply
send_file full_path file rep =
    let content = read_loop (suc (length file)) file rep.content in
    record {
      status = ok;
      headers = framing content (extension_to_type (extension full_path));
      content = content;
    }

-- `if (!is) … return`, and the rest of `serve_file`.
unfoldable pub send_opened : Bytes → Option Bytes → Reply → Reply
send_opened full_path none rep = stock_reply not_found
send_opened full_path (some file) rep = send_file full_path file rep

unfoldable pub serve_file : FileSystem → Bytes → Reply → Handled
serve_file fs full_path rep =
    decided rep (exists (fs full_path))
      (decided rep (is_regular_file (fs full_path))
        (replied (send_opened full_path (open_file (fs full_path)) rep))
        (replied (stock_reply forbidden)))
      (replied (stock_reply not_found))

-- The loop of `list_directory`.
unfoldable pub list_entries : List Entry → Bytes
list_entries [] = []
list_entries (e ∷ es) =
    let line =
      codes "<a href=\"" ++ (e.filename ++ (codes "\">" ++ (e.filename ++ codes "</a><br>\r\n"))) in
    if e.is_regular then line ++ list_entries es else list_entries es

-- The reply that lists these entries.
abbrev pub listing : List Entry → Reply
listing entries =
    let content =
      codes
        "<!DOCTYPE html>\r\n<html>\r\n<head><title>Directory listing</title></head>\r\n<body>\r\n"
      ++ (list_entries entries ++ codes "</body>\r\n</html> \r\n") in
    record {
      status = ok;
      headers = framing content (extension_to_type (codes ".html"));
      content = content;
    }

-- What the iterator gives, or the handler of its exception.
unfoldable pub list_directory : Option (List Entry) → Reply
list_directory none = stock_reply not_found
list_directory (some entries) = listing entries

-- `!uri.empty() && uri.back() == '/'`
unfoldable pub ends_in_slash : Bytes → Bool
ends_in_slash [] = false
ends_in_slash (c ∷ []) = c == b'/'
ends_in_slash (_ ∷ c ∷ s) = ends_in_slash (c ∷ s)

-- The redirection of a directory without its slash.
abbrev pub moved : HttpRequest → Reply
moved req =
    let stock = stock_reply moved_permanently in
    record stock {
      headers =
          stock.headers ++ (record { name = codes "Location"; value = req.uri ++ b'/' ∷ [] }) ∷ [];
    }

-- The branches of `serve_if_match` on the path in the file system.
unfoldable pub serve_path : FileSystem → Bytes → HttpRequest → Reply → Handled
serve_path fs full_path req rep =
    let index_path = join full_path (codes "index.html") in
    decided rep (is_directory (fs full_path))
      (decided rep (exists (fs index_path)) (serve_file fs index_path rep) (
        if ends_in_slash req.uri
        then replied (list_directory (iterate (fs full_path)))
        else replied (moved req)))
      (serve_file fs full_path rep)

-- `if (req.method == "HEAD") rep.content.clear()`
abbrev pub clear_head : HttpRequest → Reply → Reply
clear_head req rep = if equal req.method (codes "HEAD") then record rep { content = [] } else rep

-- The same behind the branches, where none of them has thrown.
abbrev pub cleared : HttpRequest → Handled → Handled
cleared req (replied r) = replied (clear_head req r)
cleared req (raised r) = raised r

unfoldable pub serve_if_match :
    FileSystem → StaticContent → Bytes → Bytes → HttpRequest → Reply → Tried
serve_if_match fs s location request_path req rep =
    if not (starts_with location request_path)
    then passed rep
    else let resource_path = drop (length location) request_path in
      let full_path = join s.doc_root (relative_path resource_path) in
      taken (cleared req (serve_path fs full_path req rep))
