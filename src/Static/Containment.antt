-- ===== src/Static/Containment.antt =====
-- What a static content reads of the file system.
use f.Prelude.{
  ℕ, zero, suc, ◌≡◌, ◌≢◌, refl, sym, ap, ◌∙◌, true, false, [], ◌∷◌, ◌++◌, length, drop, arith,
  append-nil, append_assoc, Bool-cases, inl, inr,
}
use f.Bytes.{Bytes, codes, has_dotdot}
use f.FileSystem.{FileSystem, has_filename, join, relative_path}
use f.Http.{HttpRequest}
use f.Reply.{Reply}
use f.Static.{StaticContent, serve_file, serve_path, serve_if_match}

-- The path is that of something below the root, by its text: the root, a slash, and a rest with no
-- `..` in it.
abbrev pub IsInside : Bytes → Bytes → Type 0
IsInside root p = (rest : Bytes) × (p ≡ join root rest) × (has_dotdot rest ≡ false)

-- Two file systems with the same contents below the root.
abbrev pub AgreeInside : Bytes → FileSystem → FileSystem → Type 0
AgreeInside root fs fs' = (p : Bytes) → IsInside root p → fs p ≡ fs' p

has_dotdot-tail : (c : ℕ) (s : Bytes) → has_dotdot (c ∷ s) ≡ false → has_dotdot s ≡ false
unfolding has_dotdot
has_dotdot-tail c [] h = refl
has_dotdot-tail c (x ∷ s) h = ground arith

has_dotdot-drop : (k : ℕ) (s : Bytes) → has_dotdot s ≡ false → has_dotdot (drop k s) ≡ false
has_dotdot-drop zero s h = h
has_dotdot-drop (suc k) [] h = h
has_dotdot-drop (suc k) (c ∷ s) h = has_dotdot-drop k s (has_dotdot-tail c s h)

has_dotdot-relative_path : (s : Bytes) → has_dotdot s ≡ false → has_dotdot (relative_path s) ≡ false
unfolding relative_path
has_dotdot-relative_path [] h = h
has_dotdot-relative_path (c ∷ s) h =
    ground (arith, has_dotdot-tail c s h, has_dotdot-relative_path s (has_dotdot-tail c s h))

pub has_dotdot-append :
    (s : Bytes) (c : ℕ) (t : Bytes)
    → has_dotdot s ≡ false
    → c ≢ b'.'
    → has_dotdot (c ∷ t) ≡ false
    → has_dotdot (s ++ c ∷ t) ≡ false
has_dotdot-append [] c t h ne k = k
has_dotdot-append (x ∷ []) c t h ne k = unfold has_dotdot in ground arith
has_dotdot-append (x ∷ y ∷ s) c t h ne k =
    more (has_dotdot-append (y ∷ s) c t (has_dotdot-tail x (y ∷ s) h) ne k)
  where
    more : has_dotdot (y ∷ (s ++ c ∷ t)) ≡ false → has_dotdot (x ∷ y ∷ (s ++ c ∷ t)) ≡ false
    more ih = unfold has_dotdot in ground arith

abbrev index : Bytes
index = codes "index.html"

has_dotdot-join : (s : Bytes) → has_dotdot s ≡ false → has_dotdot (join s index) ≡ false
has_dotdot-join s h = elim (Bool-cases (has_filename s)) [
  | inl named ↦
      unfold join in
      rw named (has_dotdot-append s b'/' index h (λ e. omega arith) (unfold has_dotdot in refl))
  | inr plain ↦
      unfold join in
      rw plain (
        has_dotdot-append s b'i' (codes "ndex.html") h (λ e. omega arith)
          (unfold has_dotdot in refl))
]

has_filename-append :
    (a : Bytes) (c : ℕ) (s : Bytes) → has_filename (a ++ c ∷ s) ≡ has_filename (c ∷ s)
unfolding has_filename
has_filename-append [] c s = refl
has_filename-append (x ∷ []) c s = refl
has_filename-append (x ∷ y ∷ a) c s = has_filename-append (y ∷ a) c s

has_filename_slash : (s : Bytes) → has_filename (b'/' ∷ s) ≡ has_filename s
unfolding has_filename
has_filename_slash [] = refl
has_filename_slash (c ∷ s) = refl

has_filename-append_plain :
    (a s : Bytes) → has_filename a ≡ false → has_filename (a ++ s) ≡ has_filename s
has_filename-append_plain a [] h = rw append-nil (h ∙ unfold has_filename in refl)
has_filename-append_plain a (c ∷ s) h = has_filename-append a c s

has_filename-join : (a s : Bytes) → has_filename (join a s) ≡ has_filename s
has_filename-join a s = elim (Bool-cases (has_filename a)) [
  | inl named ↦ unfold join in rw named (has_filename-append a b'/' s ∙ has_filename_slash s)
  | inr plain ↦ unfold join in rw plain (has_filename-append_plain a s plain)
]

join-append : (a s t : Bytes) → join a s ++ t ≡ join a (s ++ t)
unfolding join
join-append a s t = elim (Bool-cases (has_filename a)) [
  | inl named ↦ rw (named, append_assoc)
  | inr plain ↦ rw (plain, append_assoc)
]

join_named : (a s : Bytes) → has_filename a ≡ true → join a s ≡ a ++ b'/' ∷ s
unfolding join
join_named a s h = rw h

join_plain : (a s : Bytes) → has_filename a ≡ false → join a s ≡ a ++ s
unfolding join
join_plain a s h = rw h

join_assoc : (a s t : Bytes) → join (join a s) t ≡ join a (join s t)
join_assoc a s t = elim (Bool-cases (has_filename s)) [
  | inl named ↦
      join_named (join a s) t (has_filename-join a s ∙ named)
      ∙ join-append a s (b'/' ∷ t)
      ∙ ap (join a) (sym (join_named s t named))
  | inr plain ↦
      join_plain (join a s) t (has_filename-join a s ∙ plain)
      ∙ join-append a s t
      ∙ ap (join a) (sym (join_plain s t plain))
]

serve_path-cong :
    (fs fs' : FileSystem) (p : Bytes) (req : HttpRequest) (rep : Reply)
    → fs p ≡ fs' p
    → fs (join p index) ≡ fs' (join p index)
    → serve_path fs p req rep ≡ serve_path fs' p req rep
unfolding serve_path serve_file
serve_path-cong fs fs' p req rep e i = rw (e, i)

-- The reply depends on nothing outside the root: for a path with no `..`, two file systems that
-- agree on what is below the root, by the text of its path, give the same reply.
pub serve_if_match-AgreeInside :
    (fs fs' : FileSystem) (s : StaticContent) (place request_path : Bytes) (req : HttpRequest)
    (rep : Reply)
    → AgreeInside s.doc_root fs fs'
    → has_dotdot request_path ≡ false
    → serve_if_match fs s place request_path req rep
      ≡ serve_if_match fs' s place request_path req rep
unfolding serve_if_match
serve_if_match-AgreeInside fs fs' s place request_path req rep agree h =
    let rest = relative_path (drop (length place) request_path) in
    let safe : has_dotdot rest ≡ false =
      has_dotdot-relative_path _ (has_dotdot-drop (length place) request_path h) in
    rw (
      serve_path-cong fs fs' (join s.doc_root rest) req rep (agree _ (rest, refl, safe))
        (agree _ (join rest index, join_assoc s.doc_root rest index, has_dotdot-join rest safe)))
