-- ===== src/Url/Tests.antt =====
-- The function of lib/url.cpp at concrete inputs.
use f.Prelude.{◌≡◌, refl, true, false}
use f.Bytes.{codes}
use f.Url.{isxdigit, hex_digit, read_hex, decode_from, url_decode}

-- The cases of test/tests.cpp.
decodes : url_decode (codes "%48%65%6C%6C%6F%20+%57") ≡ (true, codes "Hello  W")
unfolding url_decode decode_from isxdigit hex_digit read_hex
decodes = refl

incomplete : (url_decode (codes "Hello%2World")).0 ≡ false
unfolding url_decode decode_from isxdigit hex_digit read_hex
incomplete = refl

cut_off : url_decode (codes "HelloWorld%2") ≡ (false, codes "HelloWorld")
unfolding url_decode decode_from isxdigit hex_digit read_hex
cut_off = refl
