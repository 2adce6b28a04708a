-- ===== src/Spice/Viewer.antt =====
-- linux/src/ydyun_spice.py: ViewerConnectionUrl and parse_viewer_connection_url. `urlsplit` and the
-- canonical text of an address are arguments.
pub mod Shape
use ydyun_vdesktop_linux_dri.Base.{
  ℕ, suc, ◌-◌, ◌≤◌, Bool, true, false, not, ◌||◌, ◌&&◌, List, [], ◌∷◌, ◌++◌, map, reverse, Option,
  none, some, leb, ltb, ◌==◌, any, length, drop, get_or, Text, codes, one_of, is_space, lower_char,
  starts_with, Result, err, ok, raise_if, ◌>>=◌, ◌>>◌, if◌then◌else◌, ◌*◌,
}
use ydyun_vdesktop_linux_dri.Base.Address.{split_on, is_ascii_digit}
use ydyun_vdesktop_linux_dri.Spice.Errors.{
  SpiceError, protocol, url_empty, url_too_long, url_has_space, url_without_scheme,
  unsupported_scheme, invalid_field_count, endpoint_has_space, endpoint_malformed,
  endpoint_incomplete, endpoint_has_userinfo, endpoint_has_path, host_malformed,
}

abbrev pub viewer_url_max : ℕ
viewer_url_max = 16 * 1024

abbrev pub viewer_url_field_max : ℕ
viewer_url_field_max = 64

abbrev pub viewer_schemes : List Text
viewer_schemes = codes "spice" ∷ codes "spice-conn" ∷ []

pub record ViewerConnectionUrl : Type 0 where
  pub scheme : Text
  pub host : Text
  pub port : ℕ
  pub field_count : ℕ
  pub extra_fields : List Text

-- The dictionary of `redacted`.
pub record RedactedUrl : Type 0 where
  pub scheme : Text
  pub host : Text
  pub port : ℕ
  pub field_count : ℕ
  pub extra_field_count : ℕ

unfoldable pub redacted_url : ViewerConnectionUrl → RedactedUrl
redacted_url u = record {
  scheme = u.scheme;
  host = u.host;
  port = u.port;
  field_count = u.field_count;
  extra_field_count = length u.extra_fields;
}

-- What `urlsplit` and the attributes of its result give.
pub record SplitUrl : Type 0 where
  pub hostname : Option Text
  pub port : Option ℕ
  pub username : Option Text
  pub password : Option Text
  pub path : Text
  pub query : Text
  pub fragment : Text

-- `split_url` is `urlsplit("//" + value, allow_fragments=False)`, none where it or `port` raises ValueError;
-- `normal_address` is `str(ip_address(host))`, none where that raises.
pub record UrlLibrary : Type 0 where
  pub split_url : Text → Option SplitUrl
  pub normal_address : Text → Option Text

-- `ord(ch) < 0x20 or ch.isspace()`
unfoldable pub is_control : ℕ → Bool
is_control c = ltb c 0x20 || is_space c

abbrev is_alnum : ℕ → Bool
is_alnum c = is_ascii_digit c || (leb b'a' c && leb c b'z') || (leb b'A' c && leb c b'Z')

abbrev is_host_char : ℕ → Bool
is_host_char c = is_alnum c || c == b'.' || c == b'-'

-- `[A-Za-z0-9](?:[A-Za-z0-9.-]{0,252}[A-Za-z0-9])?`, the whole text.
unfoldable pub is_host_name : Text → Bool
is_host_name s =
    leb 1 (length s)
    && leb (length s) 254
    && not (any (λ c. not (is_host_char c)) s)
    && is_alnum (get_or s 0 0)
    && is_alnum (get_or (reverse s) 0 0)

abbrev pub present {ℓ} : {A : Type ℓ} → Option A → Bool
present none = false
present (some a) = true

unfoldable pub normalized_host : UrlLibrary → Text → Result SpiceError Text
normalized_host library host = elim (library.normal_address host) [
  | some normal ↦ ok normal
  | none ↦ if is_host_name host then ok host else err (protocol host_malformed)
]

abbrev both : Option Text → Option ℕ → Result SpiceError (Text × ℕ)
both (some host) (some port) = ok (host, port)
both host port = err (protocol endpoint_incomplete)

abbrev split_or_raise : Option SplitUrl → Result SpiceError SplitUrl
split_or_raise none = err (protocol endpoint_malformed)
split_or_raise (some parsed) = ok parsed

unfoldable pub parse_viewer_endpoint : UrlLibrary → Text → Result SpiceError (Text × ℕ)
unfolding normalized_host
parse_viewer_endpoint library value = do
  raise_if (length value == 0 || any is_control value) (protocol endpoint_has_space)
  parsed ← split_or_raise (library.split_url value)
  (host, port) ← both parsed.hostname parsed.port
  raise_if (present parsed.username || present parsed.password) (protocol endpoint_has_userinfo)
  raise_if
      (not (length parsed.path == 0)
        || not (length parsed.query == 0)
        || not (length parsed.fragment == 0))
      (protocol endpoint_has_path)
  normal ← normalized_host library host
  ok (normal, port)

-- What stands before and behind the first `://`; none where there is none.
unfoldable pub cut_scheme : Text → Option (Text × Text)
cut_scheme [] = none
cut_scheme (c ∷ s) = elim (starts_with (codes "://") (c ∷ s)) [
  | true ↦ some ([], drop 3 (c ∷ s))
  | false ↦ elim (cut_scheme s) [ none ↦ none | some (before, after) ↦ some (c ∷ before, after) ]
]

-- `separator <= 0` is an error: no separator, or nothing before it.
abbrev pub scheme_required : Option (Text × Text) → Result SpiceError (Text × Text)
scheme_required (some (c ∷ before, after)) = ok (c ∷ before, after)
scheme_required other = err (protocol url_without_scheme)

-- _SCHEME_RE
unfoldable pub is_scheme : Text → Bool
is_scheme [] = false
is_scheme (c ∷ s) =
    is_alnum c
    && not (is_ascii_digit c)
    && not (any (λ d. not (is_alnum d || d == b'+' || d == b'.' || d == b'-')) s)

abbrev pub endpoint_required : List Text → Result SpiceError (Text × List Text)
endpoint_required ((c ∷ first) ∷ extra) = ok (c ∷ first, extra)
endpoint_required other = err (protocol invalid_field_count)

unfoldable pub parse_viewer_connection_url :
    UrlLibrary → Text → Result SpiceError ViewerConnectionUrl
unfolding is_control is_scheme cut_scheme
parse_viewer_connection_url library value = do
  raise_if (length value == 0) (protocol url_empty)
  raise_if (ltb viewer_url_max (length value)) (protocol url_too_long)
  raise_if (any is_control value) (protocol url_has_space)
  (raw_scheme, rest) ← scheme_required (cut_scheme value)
  let scheme = map lower_char raw_scheme
  raise_if (not (is_scheme scheme) || not (one_of scheme viewer_schemes))
      (protocol unsupported_scheme)
  let fields = split_on b'+' rest
  raise_if (ltb viewer_url_field_max (length fields)) (protocol invalid_field_count)
  (first, extra) ← endpoint_required fields
  (host, port) ← parse_viewer_endpoint library first
  ok (record {
    scheme = scheme;
    host = host;
    port = port;
    field_count = length fields;
    extra_fields = extra;
  })
