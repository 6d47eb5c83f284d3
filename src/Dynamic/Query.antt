-- ===== src/Dynamic/Query.antt =====
-- The query string of a request, and what a handler reads of it.
use f.Prelude.{
  none, ℕ, ◌≡◌, ◌≢◌, refl, ap, ◌∙◌, map, All-append, List, [], ◌∷◌, ◌++◌, All, arith, append-nil,
  append_assoc,
}
use f.Bytes.{Bytes}
use f.Http.{HttpRequest}
use f.Bytes.Spans.{Free}
use f.Map.{last_value, lookup-insert_all, insert, insert_all}
use f.Request.{new_request, or_empty, query, Request, add_queryvalue}
use f.Text.Split.{split_string-append, split_string_absent}
use f.Dynamic.{close_line, get_lines, add_params, handle_query_parameters}

abbrev pub param_text : Bytes × Bytes → Bytes
param_text (k, v) = k ++ b'=' ∷ v

-- The text of a list of parameters: `k=v&k=v`.
abbrev pub query_text : List (Bytes × Bytes) → Bytes
query_text [] = []
query_text (kv ∷ []) = param_text kv
query_text (kv ∷ kw ∷ kvs) = param_text kv ++ (b'&' ∷ query_text (kw ∷ kvs))

abbrev pub IsParam : Bytes × Bytes → Type 0
IsParam (k, v) = Free b'=' k × Free b'&' k × Free b'&' v

step_line :
    (line : Bytes) (c : ℕ) (s : Bytes)
    → c ≢ b'&'
    → get_lines line (c ∷ s) ≡ get_lines (line ++ c ∷ []) s
unfolding get_lines
step_line line c s h = ground arith

get_lines-append :
    (line s rest : Bytes)
    → Free b'&' s
    → get_lines line (s ++ (b'&' ∷ rest)) ≡ (line ++ s) ∷ get_lines [] rest
get_lines-append line [] rest h = rw append-nil (unfold get_lines in refl)
get_lines-append line (c ∷ s) rest (p, h) =
    step_line line c (s ++ (b'&' ∷ rest)) p
    ∙ get_lines-append (line ++ c ∷ []) s rest h
    ∙ rw append_assoc

close_line_lem : (s : Bytes) → s ≢ [] → close_line s ≡ s ∷ []
close_line_lem [] ne = absurd (ne refl)
close_line_lem (c ∷ s) ne = refl

get_lines_last :
    (line s : Bytes) → Free b'&' s → line ++ s ≢ [] → get_lines line s ≡ (line ++ s) ∷ []
get_lines_last line [] h ne =
    unfold get_lines in rw append-nil (close_line_lem line (rw append-nil at ne))
get_lines_last line (c ∷ s) (p, h) ne =
    step_line line c s p
    ∙ get_lines_last (line ++ c ∷ []) s h (rw append_assoc ne)
    ∙ rw append_assoc

param-Free : (kv : Bytes × Bytes) → IsParam kv → Free b'&' (param_text kv)
param-Free (k, v) h = All-append _ k (b'=' ∷ v) h.1 ((λ e. omega arith), h.2)

param-ne-nil : (kv : Bytes × Bytes) → param_text kv ≢ []
param-ne-nil ([], v) = λ e. cc
param-ne-nil (c ∷ k, v) = λ e. cc

get_lines-query_text :
    (kvs : List (Bytes × Bytes))
    → All IsParam kvs
    → get_lines [] (query_text kvs) ≡ map param_text kvs
get_lines-query_text [] h = unfold get_lines in refl
get_lines-query_text (kv ∷ []) (p, h) =
    get_lines_last [] (param_text kv) (param-Free kv p) (param-ne-nil kv)
get_lines-query_text (kv ∷ kw ∷ kvs) (p, h) =
    get_lines-append [] (param_text kv) (query_text (kw ∷ kvs)) (param-Free kv p)
    ∙ ap (◌∷◌ (param_text kv)) (get_lines-query_text (kw ∷ kvs) h)

add_params-param_text :
    (kvs : List (Bytes × Bytes)) (req : Request)
    → All IsParam kvs
    → add_params (map param_text kvs) req
      ≡ record req { querystring = insert_all kvs req.querystring }
unfolding add_params add_queryvalue
add_params-param_text [] req h = refl
add_params-param_text ((k, v) ∷ kvs) req (p, h) =
    rw (split_string-append b'=' k v p.0, add_params)
      (add_params-param_text kvs (record req { querystring = insert k v req.querystring }) h)

-- A text `k=v&k=v`, of any parameters whose keys hold no `=` and no `&` and whose values hold no
-- `&`, puts exactly these parameters into the query string, one after the other.
pub handle_query_parameters-query_text :
    (kvs : List (Bytes × Bytes)) (req : Request)
    → All IsParam kvs
    → handle_query_parameters (query_text kvs) req
      ≡ record req { querystring = insert_all kvs req.querystring }
unfolding handle_query_parameters
handle_query_parameters-query_text kvs req h =
    rw (get_lines-query_text kvs h) (add_params-param_text kvs req h)

-- What a handler reads of the query under a key is the last value that the text gives to it, and
-- nothing where it gives none.
query-handle_query_parameters :
    (kvs : List (Bytes × Bytes)) (req : HttpRequest) (key : Bytes)
    → All IsParam kvs
    → query (handle_query_parameters (query_text kvs) (new_request req)) key
      ≡ or_empty (last_value key kvs none)
unfolding query
query-handle_query_parameters kvs req key h =
    rw (handle_query_parameters-query_text kvs (new_request req) h)
      (ap or_empty (lookup-insert_all key kvs []))

-- A value that holds an ampersand: what stands behind it is taken for another key.
pub handle_query_parameters-ampersand :
    (key front back : Bytes) (req : Request)
    → IsParam (key, front)
    → Free b'&' back
    → Free b'=' back
    → back ≢ []
    → handle_query_parameters (query_text ((key, front ++ b'&' ∷ back) ∷ [])) req
      ≡ record req { querystring = insert_all ((key, front) ∷ (back, []) ∷ []) req.querystring }
unfolding handle_query_parameters
handle_query_parameters-ampersand key front back req h fa fe ne =
    rw
      (
        ← append_assoc key (b'=' ∷ front) (b'&' ∷ back),
        get_lines-append [] (param_text (key, front)) back (param-Free (key, front) h),
        get_lines_last [] back fa ne,
        split_string-append b'=' key front h.0,
        split_string_absent b'=' back fe,
      )
      (unfold add_queryvalue in refl)
