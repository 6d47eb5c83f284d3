-- ===== src/Text/Routes.antt =====
-- Routes built from segments: what the user of the library writes as a location, and the paths that
-- are meant by it.
use f.Prelude.{◌≡◌, ◌≢◌, ◌⊎◌, refl, true, List, [], ◌∷◌, ◌++◌, All, arith, inl, inr}
use f.Bytes.{Bytes}
use f.Bytes.Spans.{Free, EndsAt}
use f.Map.{insert_all}
use f.Text.{match_pattern}
use f.Text.Matches.{Matches, done, slash, literal, capture, match_pattern_iff}

-- A segment of a location with what stands for it in a path: a text for itself, and a value for
-- the parameter that a colon names.
pub data Segment : Type 0 where
  fixed : Bytes → Segment
  param : (name value : Bytes) → Segment

abbrev pub location : List Segment → Bytes
location [] = []
location (fixed text ∷ ss) = b'/' ∷ (text ++ location ss)
location (param name value ∷ ss) = b'/' ∷ b':' ∷ (name ++ location ss)

abbrev pub path : List Segment → Bytes → Bytes
path [] end = end
path (fixed text ∷ ss) end = b'/' ∷ (text ++ path ss end)
path (param name value ∷ ss) end = b'/' ∷ (value ++ path ss end)

abbrev pub bindings : List Segment → List (Bytes × Bytes)
bindings [] = []
bindings (fixed text ∷ ss) = bindings ss
bindings (param name value ∷ ss) = (name, value) ∷ bindings ss

abbrev pub IsSegment : Segment → Type 0
IsSegment (fixed text) = Free b'/' text × Free b':' text
IsSegment (param name value) = Free b'/' name × Free b'/' value × (value ≢ [])

-- A path may end in one more slash.
abbrev pub IsEnd : Bytes → Type 0
IsEnd end = (end ≡ []) ⊎ (end ≡ b'/' ∷ [])

location-EndsAt : (ss : List Segment) → EndsAt b'/' (location ss)
location-EndsAt [] = tt
location-EndsAt (fixed text ∷ ss) = refl
location-EndsAt (param name value ∷ ss) = refl

path-EndsAt : (ss : List Segment) {end : Bytes} → IsEnd end → EndsAt b'/' (path ss end)
path-EndsAt [] (inl e) = rw e tt
path-EndsAt [] (inr e) = rw e refl
path-EndsAt (fixed text ∷ ss) e = refl
path-EndsAt (param name value ∷ ss) e = refl

Matches-text :
    (text : Bytes) {p i : Bytes} {bs : List (Bytes × Bytes)}
    → Free b':' text
    → Matches p i bs
    → Matches (text ++ p) (text ++ i) bs
Matches-text [] h k = k
Matches-text (c ∷ text) (ne, h) k = literal ne (Matches-text text h k)

append-ne-nil : (v i : Bytes) → v ≢ [] → v ++ i ≢ []
append-ne-nil [] i ne = absurd (ne refl)
append-ne-nil (c ∷ v) i ne = λ e. cc

Matches-path :
    (ss : List Segment) {end : Bytes}
    → All IsSegment ss
    → IsEnd end
    → Matches (location ss) (path ss end) (bindings ss)
Matches-path [] h (inl e) = rw e done
Matches-path [] h (inr e) = rw e (slash refl)
Matches-path (fixed text ∷ ss) (k, h) e =
    literal (λ z. omega arith) (Matches-text text k.1 (Matches-path ss h e))
Matches-path (param name value ∷ ss) {end} (k, h) e =
    literal (λ z. omega arith)
      (capture name value (location ss) (path ss end) refl refl refl
        (append-ne-nil value (path ss end) k.2) k.0 k.1 (location-EndsAt ss) (path-EndsAt ss e)
        (Matches-path ss h e))

-- A path that is built for a location from texts with no slash and no colon, and from values that
-- are not empty and have no slash, matches that location, with or without one more slash at the
-- end; the parameters are then those values, the last one for a name that stands twice.
pub match_pattern-path :
    (ss : List Segment) (end : Bytes)
    → All IsSegment ss
    → IsEnd end
    → match_pattern (location ss) (path ss end) ≡ (true, insert_all (bindings ss) [])
match_pattern-path ss end h e =
    (match_pattern_iff (location ss) (path ss end) (insert_all (bindings ss) [])).1
      (bindings ss, Matches-path ss h e, refl)
