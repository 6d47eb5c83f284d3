-- ===== src/Static/Tests.antt =====
-- The paths of std::filesystem, as FileSystem has them, at concrete inputs.
use f.Prelude.{◌≡◌, refl, []}
use f.Bytes.{codes}
use f.FileSystem.{relative_path, join, extension}

paths : join (codes "/srv/www") (relative_path (codes "//a/b.html")) ≡ codes "/srv/www/a/b.html"
unfolding join relative_path
paths = refl

slash : join (codes "www/") (codes "index.html") ≡ codes "www/index.html"
unfolding join
slash = refl

extensions : extension (codes "a.b/c.tar.gz") ≡ codes ".gz"
unfolding extension
extensions = refl

hidden : extension (codes "a.b/.profile") ≡ []
unfolding extension
hidden = refl

no_extension : extension (codes "a.b/file") ≡ []
unfolding extension
no_extension = refl

trailing_dot : extension (codes "file.") ≡ codes "."
unfolding extension
trailing_dot = refl
