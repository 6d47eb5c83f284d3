-- ===== src/Main/Folders.antt =====
-- A folder below the root of a server that the subcommand `serve` starts.
use f.Prelude.{◌≡◌}
use f.Bytes.{Bytes, codes}
use f.FileSystem.{FileSystem, join}
use f.Http.{HttpRequest, find_header}
use f.Reply.{Reply}

-- The two texts lead to the same folder.
abbrev pub SameFolder : FileSystem → Bytes → Bytes → Type 0
SameFolder fs a b =
    (fs a ≡ fs b) × (fs (join a (codes "index.html")) ≡ fs (join b (codes "index.html")))

-- The request of a client that goes where the reply sends it.
abbrev pub follow : Reply → HttpRequest → HttpRequest
follow r req = record req { uri = find_header (codes "location") r.headers }
