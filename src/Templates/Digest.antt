-- ===== src/Templates/Digest.antt =====
-- What the digest of a Pod template does not see, and the requests that the controller fills in
-- (internal/service/recoveryreceipt/pod_template.go, internal/service/buildcontroller/pod_receipt.go).
use kova.Base.{
  ◌≡◌, refl, ◌∙◌, Bool, true, false, ◌&&◌, List, [], ◌∷◌, ◌++◌, Option, none, some, if◌then◌else◌,
  is_some, arith, inl, inr, Bool-cases,
}
use kova.Base.Text.{Text, text_eq, text_eq→eq, text_eq_refl}
use kova.Base.Dict.{Dict, lookup, insert, erase, lookup-insert}
use kova.Api.Pods.{Toleration, Pod}
use kova.Templates.{
  TemplateCodec, digest_annotation, standard_toleration, kept_tolerations, canonical_spec,
  projection, canonical_pod_template_digest, fill_requests,
}

abbrev pub all_standard : List Toleration → Bool
all_standard [] = true
all_standard (t ∷ rest) = standard_toleration t && all_standard rest

-- What happens to a template after its digest is taken: the digest is noted on the Pod, a node is
-- assigned, and tolerations are appended.
abbrev pub assigned : Text → Text → List Toleration → Pod → Pod
assigned digest node extra p = record p {
  meta = record meta { annotations = insert digest_annotation digest annotations };
  spec = record spec { node_name = node; tolerations = tolerations ++ extra };
}
  where
    open p use {meta, spec, annotations}
    open spec use {tolerations}

kept_tolerations-standard :
    (ts extra : List Toleration)
    → all_standard extra ≡ true
    → kept_tolerations (ts ++ extra) ≡ kept_tolerations ts
unfolding kept_tolerations
kept_tolerations-standard [] [] h = refl
kept_tolerations-standard [] (t ∷ extra) h =
    let first : standard_toleration t ≡ true = (ground arith) in
    let rest : all_standard extra ≡ true = (ground arith) in
    rw first (kept_tolerations-standard [] extra rest)
kept_tolerations-standard (t ∷ ts) extra h = rw (kept_tolerations-standard ts extra h) refl

erase-insert : (k v : Text) (d : Dict Text) → erase k (insert k v d) ≡ erase k d
unfolding insert erase
erase-insert k v [] = rw (text_eq_refl k) refl
erase-insert k v ((j, w) ∷ d) = elim (Bool-cases (text_eq j k)) [
  | inl hit ↦ rw (hit, text_eq_refl k) refl
  | inr miss ↦ rw (miss, miss, erase-insert k v d) refl
]

-- Neither the annotation of the digest itself, nor a node, nor appended tolerations of the two
-- standard kinds change the digest of a Pod template.
pub canonical_pod_template_digest-assigned :
    (x : TemplateCodec) (p : Pod) (digest node : Text) (extra : List Toleration)
    → all_standard extra ≡ true
    → canonical_pod_template_digest x (assigned digest node extra p)
      ≡ canonical_pod_template_digest x p
unfolding canonical_pod_template_digest projection canonical_spec
canonical_pod_template_digest-assigned x p digest node extra h =
    rw
      (
        erase-insert digest_annotation digest p.annotations,
        kept_tolerations-standard p.spec.tolerations extra h,
      )
      refl

abbrev pub or_else : Option Text → Option Text → Option Text
or_else (some a) b = some a
or_else none b = b

none_last : (a : Option Text) → a ≡ or_else a none
none_last none = refl
none_last (some t) = refl

-- One limit fills in, or leaves alone.
filled :
    (k v : Text) (requests : Dict Text) (name : Text) (later : Option Text)
    → or_else
        (lookup name (if is_some (lookup k requests) then requests else insert k v requests))
        later
      ≡ or_else (lookup name requests) (if text_eq k name then some v else later)
filled k v requests name later = go (lookup k requests) refl
  where
    other :
        (hit : Bool)
        → text_eq k name ≡ hit
        → lookup k requests ≡ none
        → or_else (if hit then some v else lookup name requests) later
          ≡ or_else (lookup name requests) (if hit then some v else later)
    other true h n = rw (← text_eq→eq k name h, n) refl
    other false h n = refl

    same :
        (t : Text) (hit : Bool)
        → text_eq k name ≡ hit
        → lookup k requests ≡ some t
        → or_else (lookup name requests) later
          ≡ or_else (lookup name requests) (if hit then some v else later)
    same t true h n = rw (← text_eq→eq k name h, n) refl
    same t false h n = refl

    go :
        (o : Option Text)
        → lookup k requests ≡ o
        → or_else (lookup name (if is_some o then requests else insert k v requests)) later
          ≡ or_else (lookup name requests) (if text_eq k name then some v else later)
    go none q = rw (lookup-insert k name v requests) (other (text_eq k name) refl q)
    go (some t) q = same t (text_eq k name) refl q

-- After the defaults are set each resource has the request that it had, or else its limit, and no
-- other resource has a request.
pub fill_requests-lookup :
    (limits requests : Dict Text) (name : Text)
    → lookup name (fill_requests limits requests)
      ≡ or_else (lookup name requests) (lookup name limits)
unfolding fill_requests lookup
fill_requests-lookup [] requests name = none_last (lookup name requests)
fill_requests-lookup ((k, v) ∷ rest) requests name =
    fill_requests-lookup rest _ name ∙ filled k v requests name (lookup name rest)
