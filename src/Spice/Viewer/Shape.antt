-- ===== src/Spice/Viewer/Shape.antt =====
-- What a viewer URL that is accepted looks like, and what is shown of it.
use ydyun_vdesktop_linux_dri.Base.{
  suc, ◌≤◌, ◌≡◌, refl, sym, ◌∙◌, ap, subst, true, false, not, ◌||◌, List, [], ◌∷◌, ◌++◌, map,
  Option, none, some, arith, ltb, ◌==◌, any, length, drop, Text, codes, one_of, starts_with,
  lower_char, Bool-cases, inl, inr, Option-cases, ok, >>=-eq-ok, raise_if-ok, ok_injective,
}
use ydyun_vdesktop_linux_dri.Base.Address.{split_on}
use ydyun_vdesktop_linux_dri.Base.Address.Joined.{join, join-split_on}
use ydyun_vdesktop_linux_dri.Spice.Errors.{
  protocol, url_empty, url_too_long, url_has_space, unsupported_scheme, invalid_field_count,
}
use ydyun_vdesktop_linux_dri.Spice.Viewer.{
  UrlLibrary, ViewerConnectionUrl, redacted_url, is_control, cut_scheme, scheme_required, is_scheme,
  viewer_schemes, viewer_url_max, viewer_url_field_max, endpoint_required, parse_viewer_endpoint,
  parse_viewer_connection_url,
}

starts_with-drop : (s : Text) → starts_with (codes "://") s ≡ true → s ≡ codes "://" ++ drop 3 s
unfolding starts_with
starts_with-drop [] h = absurd (ground arith)
starts_with-drop (a ∷ []) h = absurd (ground arith)
starts_with-drop (a ∷ b ∷ []) h = absurd (ground arith)
starts_with-drop (a ∷ b ∷ c ∷ s) h = ground arith

cut_scheme-splits :
    (s before after : Text)
    → cut_scheme s ≡ some (before, after)
    → s ≡ before ++ (codes "://" ++ after)
unfolding cut_scheme
cut_scheme-splits [] before after e = absurd (ground arith)
cut_scheme-splits (c ∷ s) before after e = elim (Bool-cases (starts_with (codes "://") (c ∷ s))) [
  | inl here' ↦
      let pair : some ([], drop 3 (c ∷ s)) ≡ some (before, after) = rw (cut_scheme, here') at e in
      let parts = some_injective pair in
      starts_with-drop (c ∷ s) here' ∙ ap (λ x. x.0 ++ (codes "://" ++ x.1)) parts
  | inr later ↦ elim (Option-cases (cut_scheme s)) [
    | inl nothing ↦ let e' = rw (cut_scheme, later, nothing) at e in absurd (cc e')
    | inr ((b, a), found) ↦
        let pair : some (c ∷ b, a) ≡ some (before, after) = rw (cut_scheme, later, found) at e in
        let parts = some_injective pair in
        ap (◌∷◌ c) (cut_scheme-splits s b a found) ∙ ap (λ x. x.0 ++ (codes "://" ++ x.1)) parts
  ]
]
  where
    some_injective : {x y : Text × Text} → some x ≡ some y → x ≡ y
    some_injective h = cc h

scheme_required-ok :
    (found : Option (Text × Text)) (pair : Text × Text)
    → scheme_required found ≡ ok pair
    → found ≡ some pair
scheme_required-ok none pair e = absurd (ground arith)
scheme_required-ok (some ([], after)) pair e = absurd (ground arith)
scheme_required-ok (some (c ∷ before, after)) pair e = ap some (ok_injective refl e)

endpoint_required-ok :
    (fields : List Text) (pair : Text × List Text)
    → endpoint_required fields ≡ ok pair
    → fields ≡ pair.0 ∷ pair.1
endpoint_required-ok [] pair e = absurd (ground arith)
endpoint_required-ok ([] ∷ extra) pair e = absurd (ground arith)
endpoint_required-ok ((c ∷ first) ∷ extra) pair e = ap (λ x. x.0 ∷ x.1) (ok_injective refl e)

-- The parts of a URL and of the value that it stands for.
pub record IsShaped (library : UrlLibrary) (value : Text) (u : ViewerConnectionUrl) : Type 0 where
  pub raw_scheme : Text
  pub first : Text
  pub shape : value ≡ raw_scheme ++ (codes "://" ++ join b'+' (first ∷ u.extra_fields))
  pub scheme : u.scheme ≡ map lower_char raw_scheme
  pub known : one_of u.scheme viewer_schemes ≡ true
  pub endpoint : parse_viewer_endpoint library first ≡ ok (u.host, u.port)
  pub count : u.field_count ≡ suc (length u.extra_fields)
  pub few : u.field_count ≤ viewer_url_field_max
  pub short : length value ≤ viewer_url_max
  pub clean : any is_control value ≡ false

-- A value that `parse_viewer_connection_url` accepts is `scheme://` and its fields joined by plus
-- signs, with nothing lost or changed: the first field is read as host and port, the rest are the
-- extra fields. The scheme is one of VIEWER_SCHEMES in lower case, there are at most
-- VIEWER_URL_FIELD_MAX fields, and the value has at most VIEWER_URL_MAX characters, none of them
-- white space or control.
pub parse_viewer_connection_url-IsShaped :
    (library : UrlLibrary) (value : Text) (u : ViewerConnectionUrl)
    → parse_viewer_connection_url library value ≡ ok u
    → IsShaped library value u
unfolding parse_viewer_connection_url
parse_viewer_connection_url-IsShaped library value u e =
    let (some', e1) = raise_if-ok (length value == 0) (protocol url_empty) e in
    let (short, e2) = raise_if-ok (ltb viewer_url_max (length value)) (protocol url_too_long) e1 in
    let (clean, e3) = raise_if-ok (any is_control value) (protocol url_has_space) e2 in
    let ((raw, rest), cut, e4) = >>=-eq-ok (scheme_required (cut_scheme value)) _ e3 in
    let scheme = map lower_char raw in
    let (known, e5) =
      raise_if-ok (not (is_scheme scheme) || not (one_of scheme viewer_schemes))
        (protocol unsupported_scheme) e4 in
    let (few, e6) =
      raise_if-ok (ltb viewer_url_field_max (length (split_on b'+' rest)))
        (protocol invalid_field_count) e5 in
    let ((first, extra), fields, e7) = >>=-eq-ok (endpoint_required (split_on b'+' rest)) _ e6 in
    let ((host, port), endpoint, e8) = >>=-eq-ok (parse_viewer_endpoint library first) _ e7 in
    let split = endpoint_required-ok (split_on b'+' rest) (first, extra) fields in
    let joined : rest ≡ join b'+' (first ∷ extra) =
      sym (join-split_on b'+' rest) ∙ ap (join b'+') split in
    let splits =
      cut_scheme-splits value raw rest (scheme_required-ok (cut_scheme value) (raw, rest) cut) in
    subst (IsShaped library value) (ok_injective refl e8) (record {
      raw_scheme = raw;
      first = first;
      shape = splits ∙ ap (λ x. raw ++ (codes "://" ++ x)) joined;
      scheme = refl;
      known = ground arith;
      endpoint = endpoint;
      count = ap length split;
      few = ground arith;
      short = ground arith;
      clean = clean;
    })

-- What is shown of a URL does not depend on the contents of the extra fields: two URLs that are
-- accepted, with the same scheme, the same endpoint and as many extra fields, are shown alike.
pub redacted_url-extra_fields :
    (library : UrlLibrary) (value value' : Text) (u u' : ViewerConnectionUrl)
    (s : IsShaped library value u) (s' : IsShaped library value' u')
    → s.raw_scheme ≡ s'.raw_scheme
    → s.first ≡ s'.first
    → length u.extra_fields ≡ length u'.extra_fields
    → redacted_url u ≡ redacted_url u'
unfolding redacted_url
redacted_url-extra_fields library value value' u u' s s' same_scheme same_first same_length =
    let scheme : u.scheme ≡ u'.scheme =
      s.scheme ∙ ap (map lower_char) same_scheme ∙ sym s'.scheme in
    let ends : (u.host, u.port) ≡ (u'.host, u'.port) =
      ok_injective s.endpoint (ap (parse_viewer_endpoint library) same_first ∙ s'.endpoint) in
    let counts : u.field_count ≡ u'.field_count = s.count ∙ ap suc same_length ∙ sym s'.count in
    rw (scheme, ap (λ x. x.0) ends, ap (λ x. x.1) ends, counts, same_length) refl
