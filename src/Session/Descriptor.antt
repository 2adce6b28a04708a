-- ===== src/Session/Descriptor.antt =====
-- linux/src/ydyun_session.py: `_unwrap`, SessionDescriptor and parse_session.
pub mod Accepted
use ydyun_vdesktop_linux_dri.Base.{
  ℕ, ◌+◌, ◌≡◌, Bool, true, false, ◌&&◌, ltb, List, [], ◌∷◌, Option, none, some, Text, codes, Result,
  err, ok, ◌>>=◌, if◌then◌else◌,
}
use ydyun_vdesktop_linux_dri.Session.Json.{Json, text, object, Members, get, given, first}
use ydyun_vdesktop_linux_dri.Session.Fields.{
  SessionError, session, still_encrypted, missing_vm_id, text_field, host_field, port_field,
}

unfoldable pub unwrap : Members → Result SessionError Members
unwrap raw = elim (get raw (codes "data")) [
  | object data' ↦ ok data'
  | text s ↦ err (session still_encrypted)
  | _ ↦ ok raw
]

pub record SessionDescriptor : Type 0 where
  pub vm_id : Text
  pub spu_code : Option Text
  pub vmc_host : Option Text
  pub vmc_port : Option ℕ
  pub cag_host : Option Text
  pub cag_ipv6 : Option Text
  pub cag_port : Option ℕ
  pub scg_host : Option Text
  pub scg_tcp_port : Option ℕ
  pub scg_udp_port : Option ℕ
  pub session_id : Option Text
  pub user_name : Option Text
  pub auth_code : Option Text
  pub biz_code : Option Text
  pub has_user : Bool
  pub has_password : Bool
  pub has_auth_code : Bool
  pub has_token : Bool

-- The truth of a text or a port that may be None: the empty text and 0 are false.
abbrev text_truth : Option Text → Bool
text_truth none = false
text_truth (some []) = false
text_truth (some (c ∷ s)) = true

abbrev port_truth : Option ℕ → Bool
port_truth none = false
port_truth (some n) = ltb 0 n

-- `a or b`
abbrev or_else : Option Text → Option Text → Option Text
or_else a b = if text_truth a then a else b

abbrev route : Option Text → Option ℕ → ℕ
route host port = if text_truth host && port_truth port then 1 else 0

unfoldable pub route_count : SessionDescriptor → ℕ
route_count d =
    route d.vmc_host d.vmc_port
    + route (or_else d.cag_ipv6 d.cag_host) d.cag_port
    + route d.scg_host d.scg_tcp_port

abbrev pub vm_id_keys : List Text
vm_id_keys = codes "vmId" ∷ codes "vm_id" ∷ codes "vmid" ∷ []

abbrev pub user_keys : List Text
user_keys = codes "vmUserName" ∷ codes "vm_user_name" ∷ codes "userName" ∷ []

abbrev pub password_keys : List Text
password_keys = codes "vmPassword" ∷ codes "vm_password" ∷ codes "password" ∷ []

abbrev pub auth_keys : List Text
auth_keys = codes "authCode" ∷ codes "auth_code" ∷ []

abbrev pub biz_keys : List Text
biz_keys = codes "bizCode" ∷ codes "biz_code" ∷ []

abbrev pub token_keys : List Text
token_keys = codes "token" ∷ codes "sohoToken" ∷ codes "sessionToken" ∷ []

abbrev pub spu_keys : List Text
spu_keys = codes "spuCode" ∷ codes "spu_code" ∷ []

abbrev pub vmc_host_keys : List Text
vmc_host_keys = codes "vmcIp" ∷ codes "vmcIP" ∷ codes "vmc_ip" ∷ []

abbrev pub vmc_port_keys : List Text
vmc_port_keys = codes "vmcPort" ∷ codes "vmc_port" ∷ []

abbrev pub cag_host_keys : List Text
cag_host_keys = codes "cagIp" ∷ codes "cagIP" ∷ codes "cag_ip" ∷ []

abbrev pub cag_ipv6_keys : List Text
cag_ipv6_keys = codes "cagIpv6" ∷ codes "cagIPv6" ∷ codes "cag_ipv6" ∷ []

abbrev pub cag_port_keys : List Text
cag_port_keys = codes "cagPort" ∷ codes "cag_port" ∷ []

abbrev pub scg_host_keys : List Text
scg_host_keys = codes "scgIp" ∷ codes "scgIP" ∷ codes "scg_ip" ∷ []

abbrev pub scg_tcp_keys : List Text
scg_tcp_keys = codes "scgTcpPort" ∷ codes "scg_tcp_port" ∷ []

abbrev pub scg_udp_keys : List Text
scg_udp_keys = codes "scgUdpPort" ∷ codes "scg_udp_port" ∷ []

abbrev pub session_id_keys : List Text
session_id_keys = codes "sessionId" ∷ codes "session_id" ∷ []

abbrev pub vm_id_required : Option Text → Result SessionError Text
vm_id_required none = err (session missing_vm_id)
vm_id_required (some vm_id) = ok vm_id

unfoldable pub parse_fields : Members → Result SessionError SessionDescriptor
parse_fields data' = do
  found ← text_field (first data' vm_id_keys)
  vm_id ← vm_id_required found
  spu_code ← text_field (first data' spu_keys)
  vmc_host ← host_field (first data' vmc_host_keys)
  vmc_port ← port_field (first data' vmc_port_keys)
  cag_host ← host_field (first data' cag_host_keys)
  cag_ipv6 ← host_field (first data' cag_ipv6_keys)
  cag_port ← port_field (first data' cag_port_keys)
  scg_host ← host_field (first data' scg_host_keys)
  scg_tcp_port ← port_field (first data' scg_tcp_keys)
  scg_udp_port ← port_field (first data' scg_udp_keys)
  session_id ← text_field (first data' session_id_keys)
  user_name ← text_field (first data' user_keys)
  auth_code ← text_field (first data' auth_keys)
  biz_code ← text_field (first data' biz_keys)
  ok (record {
    vm_id = vm_id;
    spu_code = spu_code;
    vmc_host = vmc_host;
    vmc_port = vmc_port;
    cag_host = cag_host;
    cag_ipv6 = cag_ipv6;
    cag_port = cag_port;
    scg_host = scg_host;
    scg_tcp_port = scg_tcp_port;
    scg_udp_port = scg_udp_port;
    session_id = session_id;
    user_name = user_name;
    auth_code = auth_code;
    biz_code = biz_code;
    has_user = given (first data' user_keys);
    has_password = given (first data' password_keys);
    has_auth_code = given (first data' auth_keys);
    has_token = given (first data' token_keys);
  })

unfoldable pub parse_session : Members → Result SessionError SessionDescriptor
unfolding unwrap
parse_session raw = do data' ← unwrap raw; parse_fields data'
