-- ===== src/Reply/Tables.antt =====
-- The tables of statuses against one another.
use f.Prelude.{
  ◌≡◌, ◌↔◌, refl, Bool, true, false, not, some, ◌∷◌, ◌++◌, drop, map, ◌==◌, All, if◌then◌else◌,
}
use f.Bytes.{Bytes, codes, equal, before}
use f.Bytes.Decimal.{to_string}
use f.Http.{tolower}
use f.Map.{lookup-All}
use f.Reply.{
  Status, ok, no_content, gateway_timeout, http_version_not_supported, code_of, to_buffer,
  stock_content, status_map, status_from_string,
}

-- The reason phrase of a status line: what stands between the code and the line's end.
abbrev pub reason : Bytes → Bytes
reason line = before b'\r' (drop 13 line)

-- Every status line is the protocol's version, the enumerator's value in decimal, a phrase without
-- a carriage return, and the line's end.
to_buffer-code_of :
    (s : Status)
    → to_buffer s
      ≡ codes "HTTP/1.0 "
        ++ (to_string (code_of s) ++ (b' ' ∷ (reason (to_buffer s) ++ codes "\r\n")))
unfolding to_buffer code_of to_string before
to_buffer-code_of ok = refl
to_buffer-code_of _ = refl

-- The page that names a status by its title and, behind its code, in its heading.
abbrev pub page : Status → Bytes
page s =
    codes "<html><head><title>"
    ++ (reason (to_buffer s)
        ++ (codes "</title></head><body><h1>"
            ++ (to_string (code_of s)
                ++ (b' ' ∷ (reason (to_buffer s) ++ codes "</h1></body></html>")))))

-- The statuses whose stock content is not their page.
abbrev pub is_exception : Status → Bool
is_exception ok = true
is_exception no_content = true
is_exception gateway_timeout = true
is_exception http_version_not_supported = true
is_exception _ = false

-- The stock content of a status is the page with its code and the phrase of its status line,
-- exactly when it is none of ok, no_content, gateway_timeout and http_version_not_supported.
pub stock_content-page : (s : Status) → equal (stock_content s) (page s) ≡ not (is_exception s)
unfolding stock_content to_buffer code_of to_string before equal
stock_content-page ok = refl
stock_content-page _ = refl

-- A phrase as an identifier: in lower case, with underscores for spaces.
abbrev identifier : Bytes → Bytes
identifier = map (λ c. if c == b' ' then b'_' else tolower c)

-- The name of a status, as a configuration file spells it.
abbrev pub name_of : Status → Bytes
name_of s = identifier (reason (to_buffer s))

status_map-name_of : All (λ e. e.0 ≡ name_of e.1) status_map
unfolding to_buffer before tolower
status_map-name_of = (
  refl,
  (
    refl,
    (
      refl,
      (
        refl,
        (
          refl,
          (
            refl,
            (
              refl,
              (
                refl,
                (refl, (refl, (refl, (refl, (refl, (refl, (refl, (refl, (refl, (refl, tt)))))))))),
              ),
            ),
          ),
        ),
      ),
    ),
  ),
)

status_from_string-name_of : (s : Status) → status_from_string (name_of s) ≡ some s
unfolding status_from_string to_buffer before tolower
status_from_string-name_of ok = refl
status_from_string-name_of _ = refl

-- A text is read as a status exactly when it is the phrase of that status in lower case with
-- underscores for spaces, so each status has one name, and any other text raises the exception.
pub status_from_string_iff :
    (t : Bytes) (s : Status) → (status_from_string t ≡ some s) ↔ (t ≡ name_of s)
status_from_string_iff t s = (
  λ e.
      unfold status_from_string in
      lookup-All (λ k v. k ≡ name_of v) t status_map status_map-name_of e,
  λ e. rw e (status_from_string-name_of s),
)
