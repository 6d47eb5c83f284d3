-- ===== src/Static/Files.antt =====
-- The loop that reads a file.
use f.Prelude.{
  some, ℕ, zero, suc, ◌<◌, ◌≡◌, refl, sym, ap, ◌∙◌, [], ◌∷◌, ◌++◌, length, take, drop,
  length-drop-le, arith, append-nil, append_assoc,
}
use f.Bytes.{Bytes}
use f.FileSystem.{FileSystem, regular, barred, extension}
use f.Http.{HttpRequest}
use f.Mime.{extension_to_type}
use f.Reply.{replied, raised, Reply, Status, ok, framing}
use f.Static.{read_loop, send_file, send_opened, serve_file, serve_path}

take-append-drop : (n : ℕ) (xs : Bytes) → take n xs ++ drop n xs ≡ xs
take-append-drop zero xs = refl
take-append-drop (suc n) [] = refl
take-append-drop (suc n) (x ∷ xs) = rw (take-append-drop n xs)

read_loop-append :
    (fuel : ℕ) (left content : Bytes)
    → length left < fuel
    → read_loop fuel left content ≡ content ++ left
read_loop-append zero left content h = elim h [ ]
read_loop-append (suc fuel) [] content h = unfold read_loop in sym (append-nil content)
read_loop-append (suc fuel) (c ∷ left) content h = step (
    read_loop-append fuel (drop 512 (c ∷ left)) (content ++ take 512 (c ∷ left))
      (omega (arith, length-drop-le 511 left)))
  where
    step :
        read_loop fuel (drop 512 (c ∷ left)) (content ++ take 512 (c ∷ left))
          ≡ (content ++ take 512 (c ∷ left)) ++ drop 512 (c ∷ left)
        → read_loop (suc fuel) (c ∷ left) content ≡ content ++ (c ∷ left)
    step ih =
        unfold read_loop in
        (ih
          ∙ append_assoc content (take 512 (c ∷ left)) (drop 512 (c ∷ left))
          ∙ ap (◌++◌ content) (take-append-drop 512 (c ∷ left)))

-- The read loop ends and appends the whole file, whatever its size.
pub send_file-content :
    (full_path file : Bytes) (rep : Reply)
    → (send_file full_path file rep).content ≡ rep.content ++ file
unfolding send_file
send_file-content full_path file rep =
    read_loop-append (suc (length file)) file rep.content (omega arith)

-- The reply with this file, of the type of its path.
abbrev pub file_reply : Bytes → Bytes → Reply
file_reply full_path file = record {
  status = ok;
  headers = framing file (extension_to_type (extension full_path));
  content = file;
}

-- A regular file that can be opened is served whole.
pub serve_path-file :
    (fs : FileSystem) (full_path file : Bytes) (req : HttpRequest) (st : Status)
    → fs full_path ≡ some (regular (some file))
    → serve_path fs full_path req (record { status = st; headers = []; content = [] })
      ≡ replied (file_reply full_path file)
unfolding serve_path serve_file send_opened send_file
serve_path-file fs full_path file req st there = rw there (
    ap
      (λ content. replied (record {
        status = ok;
        headers = framing content (extension_to_type (extension full_path));
        content = content;
      }))
      (read_loop-append (suc (length file)) file [] (omega arith)))

-- The exception of a path whose status cannot be told leaves the content, the reply unchanged.
pub serve_path-barred :
    (fs : FileSystem) (full_path : Bytes) (req : HttpRequest) (rep : Reply)
    → fs full_path ≡ some barred
    → serve_path fs full_path req rep ≡ raised rep
unfolding serve_path
serve_path-barred fs full_path req rep there = rw there refl
