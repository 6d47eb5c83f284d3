-- ===== src/Redirect/Expand.antt =====
-- The replacements in the value of a header.
use f.Prelude.{
  ℕ, ◌≡◌, ◌≢◌, refl, sym, ◌∙◌, ap, true, false, some, [], ◌∷◌, ◌++◌, All-append, arith,
  append_assoc,
}
use f.Bytes.{Bytes, codes, starts_with, before}
use f.Bytes.Spans.{Free, drop-length-append}
use f.Http.{HttpRequest, get_header}
use f.Redirect.{contains, replace, host_name, uri_name, put_uri, put_host, expand}

starts_with-append : (s rest : Bytes) → starts_with s (s ++ rest) ≡ true
unfolding starts_with
starts_with-append [] rest = refl
starts_with-append (c ∷ s) rest = ground (arith, starts_with-append s rest)

module _ (d : ℕ) (t : Bytes) where
  starts_with-other : (c : ℕ) (s : Bytes) → c ≢ d → starts_with (d ∷ t) (c ∷ s) ≡ false
  unfolding starts_with
  starts_with-other c s ne = ground arith

  -- A text whose first byte does not stand before it is found where it stands.
  contains-append :
      (front rest : Bytes) → Free d front → contains (d ∷ t) (front ++ ((d ∷ t) ++ rest)) ≡ true
  contains-append [] rest h = unfold contains in rw (starts_with-append (d ∷ t) rest)
  contains-append (c ∷ front) rest (ne, h) = more (contains-append front rest h)
    where
      more :
          contains (d ∷ t) (front ++ ((d ∷ t) ++ rest)) ≡ true
          → contains (d ∷ t) (c ∷ (front ++ ((d ∷ t) ++ rest))) ≡ true
      more ih = unfold contains in rw (starts_with-other c (front ++ ((d ∷ t) ++ rest)) ne) ih

  replace-append :
      (by front rest : Bytes)
      → Free d front
      → replace (d ∷ t) by (front ++ ((d ∷ t) ++ rest)) ≡ front ++ (by ++ rest)
  replace-append by [] rest h =
      unfold replace in rw (starts_with-append (d ∷ t) rest, drop-length-append t rest)
  replace-append by (c ∷ front) rest (ne, h) = more (replace-append by front rest h)
    where
      more :
          replace (d ∷ t) by (front ++ ((d ∷ t) ++ rest)) ≡ front ++ (by ++ rest)
          → replace (d ∷ t) by (c ∷ (front ++ ((d ∷ t) ++ rest))) ≡ c ∷ (front ++ (by ++ rest))
      more ih =
          unfold replace in rw (starts_with-other c (front ++ ((d ∷ t) ++ rest)) ne) (ap (◌∷◌ c) ih)

put_host-append :
    (c : ℕ) (host front rest : Bytes)
    → Free b'$' front
    → put_host (c ∷ host) (front ++ (host_name ++ rest))
      ≡ some (front ++ (before b':' (c ∷ host) ++ rest))
unfolding put_host
put_host-append c host front rest h = rw (
  contains-append b'$' (codes "host") front rest h,
  replace-append b'$' (codes "host") (before b':' (c ∷ host)) front rest h,
)

put_uri-append :
    (req : HttpRequest) (front rest : Bytes)
    → Free b'$' front
    → put_uri req (front ++ (uri_name ++ rest)) ≡ front ++ (req.uri ++ rest)
unfolding put_uri
put_uri-append req front rest h = rw (
  contains-append b'$' (codes "request_uri") front rest h,
  replace-append b'$' (codes "request_uri") req.uri front rest h,
)

before-Free_other : (d k : ℕ) (s : Bytes) → Free d s → Free d (before k s)
unfolding before
before-Free_other d k [] h = tt
before-Free_other d k (c ∷ s) (p, h) = ground (arith, before-Free_other d k s h)

-- A value with `$host` and, right behind it, `$request_uri` is sent with the request's host up to
-- its port and with the request's URI in their places, for a host that is not empty and in which,
-- as in the text in front, no dollar sign stands.
expand-append :
    (req : HttpRequest) (front rest host : Bytes) (c : ℕ)
    → Free b'$' front
    → Free b'$' (c ∷ host)
    → get_header req (codes "host") ≡ c ∷ host
    → expand req (front ++ (host_name ++ (uri_name ++ rest)))
      ≡ some (front ++ (before b':' (c ∷ host) ++ (req.uri ++ rest)))
unfolding expand
expand-append req front rest host c hf hh e =
    let sent = before b':' (c ∷ host) in
    let free = All-append _ front sent hf (before-Free_other b'$' b':' (c ∷ host) hh) in
    rw (e, put_host-append c host front (uri_name ++ rest) hf)
      (ap some (
        ap (put_uri req) (sym (append_assoc front sent (uri_name ++ rest)))
        ∙ put_uri-append req (front ++ sent) rest free
        ∙ append_assoc front sent (req.uri ++ rest)))
