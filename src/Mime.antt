-- ===== src/Mime.antt =====
-- lib/mime_types.cpp.
pub mod Types
mod Tests
use f.Prelude.{none, some, List, [], ◌∷◌}
use f.Bytes.{Bytes, codes}
use f.Map.{Map, lookup}

abbrev pub mappings : Map
mappings =
    (codes ".gif", codes "image/gif")
    ∷ (codes ".htm", codes "text/html")
    ∷ (codes ".html", codes "text/html")
    ∷ (codes ".jpg", codes "image/jpeg")
    ∷ (codes ".png", codes "image/png")
    ∷ (codes ".txt", codes "text/plain")
    ∷ (codes ".css", codes "text/css")
    ∷ (codes ".js", codes "application/javascript")
    ∷ (codes ".json", codes "application/json")
    ∷ (codes ".xml", codes "application/xml")
    ∷ (codes ".pdf", codes "application/pdf")
    ∷ (codes ".zip", codes "application/zip")
    ∷ (codes ".tar", codes "application/x-tar")
    ∷ (codes ".gz", codes "application/gzip")
    ∷ (codes ".mp3", codes "audio/mpeg")
    ∷ (codes ".mp4", codes "video/mp4")
    ∷ (codes ".webm", codes "video/webm")
    ∷ []

unfoldable pub extension_to_type : Bytes → Bytes
extension_to_type extension = elim (lookup extension mappings) [
  | some type ↦ type
  | none ↦ codes "text/plain"
]
