-- ===== src/Session/Secrets.antt =====
-- linux/src/ydyun_session.py: SECRET_KEYS and SessionDescriptor.redacted, the part of a session that
-- is printed.
use ydyun_vdesktop_linux_dri.Base.{
  ℕ, ◌≡◌, refl, sym, ◌∙◌, ap, Bool, true, false, ◌||◌, inl, inr, List, [], ◌∷◌, Option, some, arith,
  any, Text, codes, text_eq, text_eq_iff, one_of, Bool-cases, Result, ok, ok_injective,
}
use ydyun_vdesktop_linux_dri.Session.Json.{Json, Members, end, member, get, given, first}
use ydyun_vdesktop_linux_dri.Session.Fields.{SessionError, text_field, host_field, port_field}
use ydyun_vdesktop_linux_dri.Session.Descriptor.{
  SessionDescriptor, unwrap, parse_session, route_count, user_keys, vm_id_keys, spu_keys,
  vmc_host_keys, vmc_port_keys, cag_host_keys, cag_ipv6_keys, cag_port_keys, scg_host_keys,
  scg_tcp_keys, scg_udp_keys, session_id_keys, auth_keys, password_keys, token_keys,
}
use ydyun_vdesktop_linux_dri.Session.Descriptor.Accepted.{parse_fields-Reads}

unfoldable pub secret_keys : List Text
secret_keys =
    codes "authCode"
    ∷ codes "auth_code"
    ∷ codes "bizCode"
    ∷ codes "biz_code"
    ∷ codes "vmPassword"
    ∷ codes "vm_password"
    ∷ codes "password"
    ∷ codes "token"
    ∷ codes "sohoToken"
    ∷ codes "sessionToken"
    ∷ []

-- The dictionary that `redacted` returns, with its inner dictionaries laid flat.
pub record Redacted : Type 0 where
  pub vm_id : Text
  pub spu_code : Option Text
  pub vmc : Option Text × Option ℕ
  pub cag : Option Text × Option ℕ
  pub cag_ipv6 : Option Text
  pub scg : Option Text × Option ℕ × Option ℕ
  pub session_id : Option Text
  pub secret_presence : Bool × Bool × Bool × Bool
  pub route_count : ℕ

unfoldable pub redacted : SessionDescriptor → Redacted
redacted d = record {
  vm_id = d.vm_id;
  spu_code = d.spu_code;
  vmc = (d.vmc_host, d.vmc_port);
  cag = (d.cag_host, d.cag_port);
  cag_ipv6 = d.cag_ipv6;
  scg = (d.scg_host, d.scg_tcp_port, d.scg_udp_port);
  session_id = d.session_id;
  secret_presence = (d.has_user, d.has_password, d.has_auth_code, d.has_token);
  route_count = route_count d;
}

-- The keys whose value is not printed: the secrets and the user's name.
unfoldable pub hidden : Text → Bool
unfolding secret_keys
hidden key = one_of key secret_keys || one_of key user_keys

-- Two dictionaries that differ in the values of hidden keys only, each given in both or in neither.
pub data SameButHidden : Members → Members → Type 0 where
  both_end : SameButHidden end end
  same_member :
      (key : Text) (value : Json) {m n : Members}
      → SameButHidden m n
      → SameButHidden (member key value m) (member key value n)
  other_member :
      (key : Text) (value value' : Json) {m n : Members}
      → hidden key ≡ true
      → given value ≡ given value'
      → SameButHidden m n
      → SameButHidden (member key value m) (member key value' n)

same_get :
    {m n : Members} → SameButHidden m n → (key : Text) → hidden key ≡ false → get m key ≡ get n key
same_get both_end key h = refl
same_get (same_member name value s) key h = rw (same_get s key h) refl
same_get (other_member name value value' hide g s) key h = elim (Bool-cases (text_eq key name)) [
  | inl same ↦ let eq : key ≡ name = (text_eq_iff key name).0 same in absurd (cc (rw eq at h))
  | inr different ↦ rw different (same_get s key h)
]

given-get :
    {m n : Members} → SameButHidden m n → (key : Text) → given (get m key) ≡ given (get n key)
given-get both_end key = refl
given-get (same_member name value s) key = elim (Bool-cases (text_eq key name)) [
  | inl same ↦ rw same refl
  | inr different ↦ rw different (given-get s key)
]
given-get (other_member name value value' hide g s) key = elim (Bool-cases (text_eq key name)) [
  | inl same ↦ rw same g
  | inr different ↦ rw different (given-get s key)
]

same_first :
    {m n : Members}
    → SameButHidden m n
    → (keys : List Text) → any hidden keys ≡ false
    → first m keys ≡ first n keys
unfolding first
same_first s [] h = refl
same_first s (key ∷ keys) h =
    rw (same_get s key (ground arith), same_first s keys (ground arith)) refl

given_first :
    {m n : Members}
    → SameButHidden m n
    → (keys : List Text) → given (first m keys) ≡ given (first n keys)
unfolding first
given_first {m} {n} s [] = refl
given_first {m} {n} s (key ∷ keys) = ground (arith, given-get s key, given_first s keys)

-- A check that two descriptors passed on the same field has given both the same.
same_field :
    {A : Type 0} (check : Json → Result SessionError A) {m n : Members} (keys : List Text) {a b : A}
    → SameButHidden m n
    → any hidden keys ≡ false
    → check (first m keys) ≡ ok a
    → check (first n keys) ≡ ok b
    → a ≡ b
same_field check keys s h e f = ok_injective e (ap check (same_first s keys h) ∙ f)

some_injective : {s t : Text} → some s ≡ some t → s ≡ t
some_injective e = cc

-- What is printed of a session does not depend on the values of the secrets and the user's name:
-- two responses that differ in those only, each given in both or in neither, and that are both
-- accepted, are printed alike.
pub parse_session-redacted :
    (raw raw' m m' : Members) (d d' : SessionDescriptor)
    → unwrap raw ≡ ok m
    → unwrap raw' ≡ ok m'
    → SameButHidden m m'
    → parse_session raw ≡ ok d
    → parse_session raw' ≡ ok d'
    → redacted d ≡ redacted d'
unfolding parse_session redacted route_count hidden secret_keys
parse_session-redacted raw raw' m m' d d' u u' s e e' =
    let r = parse_fields-Reads m d (rw u at e) in
    let r' = parse_fields-Reads m' d' (rw u' at e') in
    let vm : d.vm_id ≡ d'.vm_id =
      some_injective (same_field text_field vm_id_keys s refl r.vm_id r'.vm_id) in
    let e0 = same_field text_field spu_keys s refl r.spu_code r'.spu_code in
    let e1 = same_field host_field vmc_host_keys s refl r.vmc_host r'.vmc_host in
    let e2 = same_field port_field vmc_port_keys s refl r.vmc_port r'.vmc_port in
    let e3 = same_field host_field cag_host_keys s refl r.cag_host r'.cag_host in
    let e4 = same_field host_field cag_ipv6_keys s refl r.cag_ipv6 r'.cag_ipv6 in
    let e5 = same_field port_field cag_port_keys s refl r.cag_port r'.cag_port in
    let e6 = same_field host_field scg_host_keys s refl r.scg_host r'.scg_host in
    let e7 = same_field port_field scg_tcp_keys s refl r.scg_tcp_port r'.scg_tcp_port in
    let e8 = same_field port_field scg_udp_keys s refl r.scg_udp_port r'.scg_udp_port in
    let e9 = same_field text_field session_id_keys s refl r.session_id r'.session_id in
    let f0 = r.has_user ∙ given_first s user_keys ∙ sym r'.has_user in
    let f1 = r.has_password ∙ given_first s password_keys ∙ sym r'.has_password in
    let f2 = r.has_auth_code ∙ given_first s auth_keys ∙ sym r'.has_auth_code in
    let f3 = r.has_token ∙ given_first s token_keys ∙ sym r'.has_token in
    rw (vm, e0, e1, e2, e3, e4, e5, e6, e7, e8, e9, f0, f1, f2, f3) refl
