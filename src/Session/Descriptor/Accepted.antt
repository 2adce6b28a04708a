-- ===== src/Session/Descriptor/Accepted.antt =====
-- What parse_session has read when it returns a descriptor, and what holds of the descriptor.
use ydyun_vdesktop_linux_dri.Base.{
  ◌≡◌, refl, sym, ◌∙◌, subst, Option, some, arith, Text, ok, ok_injective, >>=-eq-ok, ap,
}
use ydyun_vdesktop_linux_dri.Session.Json.{Members, given, first}
use ydyun_vdesktop_linux_dri.Session.Fields.{text_field, host_field, port_field}
use ydyun_vdesktop_linux_dri.Session.Fields.Accepted.{
  is_some, Maybe, IsWord, IsHost, IsPort, text_field-IsWord, host_field-IsHost, port_field-IsPort,
}
use ydyun_vdesktop_linux_dri.Session.Descriptor.{
  SessionDescriptor, unwrap, parse_fields, parse_session, vm_id_keys, vm_id_required, spu_keys,
  vmc_host_keys, vmc_port_keys, cag_host_keys, cag_ipv6_keys, cag_port_keys, scg_host_keys,
  scg_tcp_keys, scg_udp_keys, session_id_keys, user_keys, auth_keys, biz_keys, password_keys,
  token_keys,
}

-- Each field of the descriptor is what its check returns for the first of its keys that is given.
pub record Reads (m : Members) (d : SessionDescriptor) : Type 0 where
  pub vm_id : text_field (first m vm_id_keys) ≡ ok (some d.vm_id)
  pub spu_code : text_field (first m spu_keys) ≡ ok d.spu_code
  pub vmc_host : host_field (first m vmc_host_keys) ≡ ok d.vmc_host
  pub vmc_port : port_field (first m vmc_port_keys) ≡ ok d.vmc_port
  pub cag_host : host_field (first m cag_host_keys) ≡ ok d.cag_host
  pub cag_ipv6 : host_field (first m cag_ipv6_keys) ≡ ok d.cag_ipv6
  pub cag_port : port_field (first m cag_port_keys) ≡ ok d.cag_port
  pub scg_host : host_field (first m scg_host_keys) ≡ ok d.scg_host
  pub scg_tcp_port : port_field (first m scg_tcp_keys) ≡ ok d.scg_tcp_port
  pub scg_udp_port : port_field (first m scg_udp_keys) ≡ ok d.scg_udp_port
  pub session_id : text_field (first m session_id_keys) ≡ ok d.session_id
  pub user_name : text_field (first m user_keys) ≡ ok d.user_name
  pub auth_code : text_field (first m auth_keys) ≡ ok d.auth_code
  pub biz_code : text_field (first m biz_keys) ≡ ok d.biz_code
  pub has_user : d.has_user ≡ given (first m user_keys)
  pub has_password : d.has_password ≡ given (first m password_keys)
  pub has_auth_code : d.has_auth_code ≡ given (first m auth_keys)
  pub has_token : d.has_token ≡ given (first m token_keys)

vm_id_required-some :
    (found : Option Text) {s : Text} → vm_id_required found ≡ ok s → found ≡ some s
vm_id_required-some found e = ground arith

pub parse_fields-Reads : (m : Members) (d : SessionDescriptor) → parse_fields m ≡ ok d → Reads m d
unfolding parse_fields
parse_fields-Reads m d e0 =
    let (found, vm, e1) = >>=-eq-ok (text_field (first m vm_id_keys)) _ e0 in
    let (vm_id, req, e2) = >>=-eq-ok (vm_id_required found) _ e1 in
    let (spu, h1, e3) = >>=-eq-ok (text_field (first m spu_keys)) _ e2 in
    let (vmc, h2, e4) = >>=-eq-ok (host_field (first m vmc_host_keys)) _ e3 in
    let (vmc', h3, e5) = >>=-eq-ok (port_field (first m vmc_port_keys)) _ e4 in
    let (cag, h4, e6) = >>=-eq-ok (host_field (first m cag_host_keys)) _ e5 in
    let (cag6, h5, e7) = >>=-eq-ok (host_field (first m cag_ipv6_keys)) _ e6 in
    let (cag', h6, e8) = >>=-eq-ok (port_field (first m cag_port_keys)) _ e7 in
    let (scg, h7, e9) = >>=-eq-ok (host_field (first m scg_host_keys)) _ e8 in
    let (tcp, h8, e10) = >>=-eq-ok (port_field (first m scg_tcp_keys)) _ e9 in
    let (udp, h9, e11) = >>=-eq-ok (port_field (first m scg_udp_keys)) _ e10 in
    let (sid, h10, e12) = >>=-eq-ok (text_field (first m session_id_keys)) _ e11 in
    let (user, h11, e13) = >>=-eq-ok (text_field (first m user_keys)) _ e12 in
    let (auth, h12, e14) = >>=-eq-ok (text_field (first m auth_keys)) _ e13 in
    let (biz, h13, e15) = >>=-eq-ok (text_field (first m biz_keys)) _ e14 in
    subst (Reads m) (ok_injective refl e15) (record {
      vm_id = vm ∙ ap ok (vm_id_required-some found req);
      spu_code = h1;
      vmc_host = h2;
      vmc_port = h3;
      cag_host = h4;
      cag_ipv6 = h5;
      cag_port = h6;
      scg_host = h7;
      scg_tcp_port = h8;
      scg_udp_port = h9;
      session_id = h10;
      user_name = h11;
      auth_code = h12;
      biz_code = h13;
      has_user = refl;
      has_password = refl;
      has_auth_code = refl;
      has_token = refl;
    })

-- What a descriptor that was read from these members promises.
pub record IsDescriptor (m : Members) (d : SessionDescriptor) : Type 0 where
  pub vm_id : IsWord d.vm_id
  pub words : Maybe IsWord d.spu_code × Maybe IsWord d.session_id
  pub credentials : Maybe IsWord d.user_name × Maybe IsWord d.auth_code × Maybe IsWord d.biz_code
  pub hosts :
      Maybe IsHost d.vmc_host
      × Maybe IsHost d.cag_host
      × Maybe IsHost d.cag_ipv6
      × Maybe IsHost d.scg_host
  pub ports :
      Maybe IsPort d.vmc_port
      × Maybe IsPort d.cag_port
      × Maybe IsPort d.scg_tcp_port
      × Maybe IsPort d.scg_udp_port
  pub user_flag : d.has_user ≡ is_some d.user_name
  pub auth_flag : d.has_auth_code ≡ is_some d.auth_code
  pub password_flag : d.has_password ≡ given (first m password_keys)
  pub token_flag : d.has_token ≡ given (first m token_keys)

pub Reads-IsDescriptor : (m : Members) (d : SessionDescriptor) → Reads m d → IsDescriptor m d
Reads-IsDescriptor m d r =
    let (user, user') = text_field-IsWord _ d.user_name r.user_name in
    let (auth, auth') = text_field-IsWord _ d.auth_code r.auth_code in
    record {
      vm_id = (text_field-IsWord _ (some d.vm_id) r.vm_id).0;
      words = (
        (text_field-IsWord _ d.spu_code r.spu_code).0,
        (text_field-IsWord _ d.session_id r.session_id).0,
      );
      credentials = (user, auth, (text_field-IsWord _ d.biz_code r.biz_code).0);
      hosts = (
        (host_field-IsHost _ d.vmc_host r.vmc_host).0,
        (host_field-IsHost _ d.cag_host r.cag_host).0,
        (host_field-IsHost _ d.cag_ipv6 r.cag_ipv6).0,
        (host_field-IsHost _ d.scg_host r.scg_host).0,
      );
      ports = (
        (port_field-IsPort _ d.vmc_port r.vmc_port).0,
        (port_field-IsPort _ d.cag_port r.cag_port).0,
        (port_field-IsPort _ d.scg_tcp_port r.scg_tcp_port).0,
        (port_field-IsPort _ d.scg_udp_port r.scg_udp_port).0,
      );
      user_flag = r.has_user ∙ sym user';
      auth_flag = r.has_auth_code ∙ sym auth';
      password_flag = r.has_password;
      token_flag = r.has_token;
    }

-- A descriptor that parse_session returns has a machine's name, only ports from 1 to 65535, only
-- texts without white space, only hosts that are addresses or have no character of a shell or a
-- URL. Its flags for the user and the code tell whether the field is there, those for the
-- password and the token whether one of their keys is given in the members that were unwrapped.
pub parse_session-IsDescriptor :
    (raw : Members) (d : SessionDescriptor)
    → parse_session raw ≡ ok d
    → (m : Members) × (unwrap raw ≡ ok m) × IsDescriptor m d
unfolding parse_session
parse_session-IsDescriptor raw d e =
    let (m, unwrapped, e1) = >>=-eq-ok (unwrap raw) _ e in
    (m, unwrapped, Reads-IsDescriptor m d (parse_fields-Reads m d e1))
