-- ===== src/Examples/Books.antt =====
-- complete.cpp: which of its two resources answers.
use f.Prelude.{◌≡◌, inl, inr, refl, true, false, List, arith}
use f.Bytes.{Bytes, codes, equal}
use f.Dynamic.{get, reply_of, write, empty_stream}
use f.FileSystem.{FileSystem}
use f.Http.{HttpRequest}
use f.Reply.{replied, Reply}
use f.Router.{
  ResourceEntry, dynamic, is_refused, serve_if_match, serve_resource, lookup_method, route,
}
use f.Router.Dispatch.{Serves, IsLongest-longest}
use f.Router.Each.{entries_of, add_each-IsLongest}
use f.Router.Sorted.{IsSort, entry}
use f.Url.{url_decode}
use f.Text.{split_string, match_pattern, match_from}
use f.Dynamic
use mathlib.Core.List.Memᴰ.{head, tail}
use f.Examples.{books_handler, complete_resources, complete_router}

abbrev pub books_reply : Reply
books_reply = reply_of (write (codes "Hello, get api!\n") empty_stream)

books-Serves :
    (fs : FileSystem) (path : Bytes) (req : HttpRequest) (rep : Reply)
    → (split_string path b'?').0 ≡ codes "/books"
    → Serves fs path req rep
        (replied books_reply)
        (entry (codes "/books") (dynamic (get books_handler)))
unfolding serve_if_match serve_resource Dynamic.serve_if_match match_pattern match_from
books-Serves fs path req rep e = rw e refl

-- In the router of complete.cpp the handler of `/books` comes before the directory, which serves
-- every path, though it was added behind it: a GET or HEAD for `/books`, with any query, is answered
-- by the handler, whatever files there are.
pub complete_router-books :
    (fs : FileSystem) {sort : List ResourceEntry → List ResourceEntry} {path : Bytes}
    (req : HttpRequest) (rep : Reply)
    → IsSort sort
    → url_decode req.uri ≡ (true, path)
    → is_refused path ≡ false
    → lookup_method req.method ≡ codes "GET"
    → (split_string path b'?').0 ≡ codes "/books"
    → route fs (complete_router sort) req rep ≡ replied books_reply
unfolding complete_router equal
complete_router-books fs {path} req rep valid decodes allowed method e =
    IsLongest-longest fs path req rep (entry (codes "/books") (dynamic (get books_handler)))
      (entries_of (codes "GET") complete_resources) (tail (head refl))
      (books-Serves fs path req rep e)
      (inl (omega arith), (inr (inr (books-Serves fs path req rep e)), tt))
      (add_each-IsLongest fs complete_resources req rep valid decodes allowed method)
