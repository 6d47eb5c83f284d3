-- ===== src/Redirect/Values.antt =====
-- The handler on the values of JSON against the one on texts.
use f.Prelude.{
  ◌≡◌, refl, ◌∙◌, ap, Bool, true, false, ◌||◌, Option, none, some, List, [], ◌∷◌, ◌++◌,
  if◌then◌else◌, arith,
}
use f.Bytes.{Bytes}
use f.Reply.{Handled, replied, raised}
use f.Http.{Header, HttpRequest}
use f.Json.{Result, ok, throw, ◌>>=◌, JsonApi}
use f.Reply.{Reply, Status, stock_reply}
use f.Redirect.{
  expand, last_item, item, add_headers, return_handler, read_item, add_entries, json_handler,
}

-- Some entry has `$host`, and the request has no host.
unfoldable pub lacks_host : HttpRequest → List (List Header) → Bool
lacks_host req [] = false
lacks_host req (e ∷ es) = elim (expand req (item e).value) [
  | none ↦ true
  | some _ ↦ lacks_host req es
]

module _ (api : JsonApi) where
  open api use {Json, get_string, elements, items}

  -- The texts of an entry, if all its values are texts.
  unfoldable pub texts : List (Bytes × Json) → Result (List Header)
  texts [] = ok []
  texts ((k, v) ∷ xs) = do
    value ← get_string v
    hs ← texts xs
    ok ((record { name = k; value = value }) ∷ hs)

  -- The entries up to the first that is not all texts, and whether there is none such.
  unfoldable pub readable : List Json → List (List Header) × Bool
  readable [] = ([], true)
  readable (j ∷ js) = elim (texts (items j)) [
    | throw _ ↦ ([], false)
    | ok e ↦ (e ∷ (readable js).0, (readable js).1)
  ]

  read_item-texts :
      (xs : List (Bytes × Json)) (h : Header)
      → read_item api xs h ≡ (texts xs >>= λ hs. ok (last_item h hs))
  unfolding read_item texts
  read_item-texts [] h = refl
  read_item-texts ((k, v) ∷ xs) h = round (get_string v) (λ h'. read_item-texts xs h')
    where
      round :
          (m : Result Bytes)
          → ((h' : Header) → read_item api xs h' ≡ (texts xs >>= λ hs. ok (last_item h' hs)))
          → (m >>= λ value. read_item api xs (record { name = k; value = value })) ≡ (
              (m >>= λ value. texts xs >>= λ hs. ok ((record { name = k; value = value }) ∷ hs))
              >>= λ hs. ok (last_item h hs))
      round (throw f) ih = refl
      round (ok value) ih = ih (record { name = k; value = value }) ∙ rest (texts xs)
        where
          rest :
              (m : Result (List Header))
              → (m >>= λ hs. ok (last_item (record { name = k; value = value }) hs)) ≡ (
                  (m >>= λ hs. ok ((record { name = k; value = value }) ∷ hs)) >>= λ hs.
                  ok (last_item h hs))
          rest (throw f) = refl
          rest (ok hs) = refl

  -- What the handler leaves, and whether it returns.
  abbrev Leaves : HttpRequest → List (List Header) → Bool → Reply → Handled
  Leaves req es all res =
      if all || lacks_host req es
      then replied (add_headers req es res)
      else raised (add_headers req es res)

  add_entries-readable :
      (req : HttpRequest) (js : List Json) (res : Reply)
      → add_entries api req js res ≡ Leaves req (readable js).0 (readable js).1 res
  unfolding add_entries readable lacks_host add_headers
  add_entries-readable req [] res = refl
  add_entries-readable req (j ∷ js) res =
      entry (texts (items j)) refl (λ res'. add_entries-readable req js res')
    where
      entry :
          (m : Result (List Header))
          → texts (items j) ≡ m
          → ((res' : Reply)
              → add_entries api req js res' ≡ Leaves req (readable js).0 (readable js).1 res')
          → add_entries api req (j ∷ js) res
            ≡ Leaves req (readable (j ∷ js)).0 (readable (j ∷ js)).1 res
      entry (throw f) e ih =
          let reads = read_item-texts (items j) (record { name = []; value = [] }) in
          ground (arith, reads)
      entry (ok hs) e ih =
          let reads : read_item api (items j) (record { name = []; value = [] }) ≡ ok (item hs) =
            read_item-texts (items j) (record { name = []; value = [] })
            ∙ ap (λ m. m >>= λ xs. ok (item xs)) e in
          sent (expand req (item hs).value) refl reads
        where
          sent :
              (o : Option Bytes)
              → expand req (item hs).value ≡ o
              → read_item api (items j) (record { name = []; value = [] }) ≡ ok (item hs)
              → add_entries api req (j ∷ js) res
                ≡ Leaves req (readable (j ∷ js)).0 (readable (j ∷ js)).1 res
          sent none x reads = ground arith
          sent (some value) x reads =
              let rest = ih (record res {
                headers = res.headers ++ (record { name = (item hs).name; value = value }) ∷ [];
              }) in
              ground (arith, rest)

  -- What the handler makes of a configuration, on every path: of the entries up to the first with a
  -- value that is no text it makes the reply that the texts make. It returns this reply where there
  -- is no such entry, or where one before it has `$host` and the request has no host; else an
  -- exception leaves it.
  pub json_handler-readable :
      (status : Status) (headers : Json) (req : HttpRequest) (res : Reply)
      → let (es, all) = readable (elements headers) in
        json_handler api status headers req res ≡ (
          if all || lacks_host req es
          then replied (return_handler status es req res)
          else raised (return_handler status es req res))
  unfolding json_handler return_handler
  json_handler-readable status headers req res =
      add_entries-readable req (elements headers) (stock_reply status)
