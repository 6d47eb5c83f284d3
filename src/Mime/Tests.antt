-- ===== src/Mime/Tests.antt =====
-- Cases of test/tests.cpp.
use f.Prelude.{◌≡◌, refl}
use f.Bytes.{codes, equal}
use f.Map.{lookup}
use f.Mime.{extension_to_type}

jpeg : extension_to_type (codes ".jpg") ≡ codes "image/jpeg"
unfolding extension_to_type lookup equal
jpeg = refl

unknown : extension_to_type (codes ".unk") ≡ codes "text/plain"
unfolding extension_to_type lookup equal
unknown = refl
