-- ===== src/Text/Tests.antt =====
-- The functions of lib/string.hpp at concrete inputs.
use f.Prelude.{◌≡◌, refl, true, false, [], ◌∷◌}
use f.Bytes.{codes, before, from, equal}
use f.Map.{insert}
use f.Text.{split_string, match_pattern}

-- Cases of test/tests.cpp.
splits : split_string (codes "hello?world?again") b'?' ≡ (codes "hello", codes "world?again")
unfolding split_string
splits = refl

two_parameters :
    match_pattern (codes "/user/:id/post/:postId") (codes "/user/123/post/456")
    ≡ (true, (codes "id", codes "123") ∷ (codes "postId", codes "456") ∷ [])
unfolding match_pattern before from insert equal
two_parameters = refl

trailing_slash :
    match_pattern (codes "/user/:id/profile") (codes "/user/123/profile/")
    ≡ (true, (codes "id", codes "123") ∷ [])
unfolding match_pattern before from insert equal
trailing_slash = refl

empty_pattern : match_pattern [] (codes "/user") ≡ (false, [])
unfolding match_pattern
empty_pattern = refl
