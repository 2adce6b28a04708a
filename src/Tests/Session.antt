-- ===== src/Tests/Session.antt =====
-- A session response, checked, printed and turned into a loader's configuration.
use ydyun_vdesktop_linux_dri.Base.{
  ◌≡◌, refl, true, false, [], ◌∷◌, none, some, Text, codes, ok, err, List, is_space, strip,
  drop_spaces, ℕ,
}
use ydyun_vdesktop_linux_dri.Base.Int.{pos}
use ydyun_vdesktop_linux_dri.Base.Decimal.{int_text, str_int, str_nat}
use ydyun_vdesktop_linux_dri.Base.Address.{is_address, is_ipv4, split_on, is_ipv6}
use ydyun_vdesktop_linux_dri.Base.Floats.{infinite}
use ydyun_vdesktop_linux_dri.Session.Json.{
  Members, text, integer, float, object, end, member, first,
}
use ydyun_vdesktop_linux_dri.Session.Fields.{
  session, overflow_error, has_newline, host_field, port_field, text_field, check_host, check_port,
  int_value, shown,
}
use ydyun_vdesktop_linux_dri.Session.Descriptor.{
  SessionDescriptor, parse_session, unwrap, parse_fields, route_count,
}
use ydyun_vdesktop_linux_dri.Session.Descriptor.Accepted.{IsDescriptor, parse_session-IsDescriptor}
use ydyun_vdesktop_linux_dri.Session.Secrets.{
  hidden, SameButHidden, both_end, same_member, other_member, redacted, parse_session-redacted,
}
use ydyun_vdesktop_linux_dri.Session.Config.{
  LoaderArgs, loader_config, config_values, File, config_lines, write_private_config, write_values,
}
use ydyun_vdesktop_linux_dri.Session.Config.Lines.{present, read_config, loader_config-read_config}
use ydyun_vdesktop_linux_dri.Session.Main.{
  make_config, Options, Outcome, main, main-IsAdded, IsAdded,
}
use ydyun_vdesktop_linux_dri.Session.Main.Exit.{main_status, IsExit}

-- A response as the client decodes it, with credentials and one complete route.
abbrev response : Text → Members
response code =
    member (codes "data")
      (object (
        member (codes "vmId") (text (codes "vm-1")) (
          member (codes "vmcIp") (text (codes "10.0.0.1")) (
            member (codes "vmcPort") (text (codes "443")) (
              member (codes "userName") (text (codes "u")) (
                member (codes "authCode") (text code)
                  (member (codes "biz_code") (integer (pos 7)) end)))))))
      end

abbrev inner : Text → Members
inner code = member (codes "vmId") (text (codes "vm-1")) (
    member (codes "vmcIp") (text (codes "10.0.0.1")) (
      member (codes "vmcPort") (text (codes "443")) (
        member (codes "userName") (text (codes "u")) (
          member (codes "authCode") (text code)
            (member (codes "biz_code") (integer (pos 7)) end)))))

abbrev described : Text → SessionDescriptor
described code = record {
  vm_id = codes "vm-1";
  spu_code = none;
  vmc_host = some (codes "10.0.0.1");
  vmc_port = some 443;
  cag_host = none;
  cag_ipv6 = none;
  cag_port = none;
  scg_host = none;
  scg_tcp_port = none;
  scg_udp_port = none;
  session_id = none;
  user_name = some (codes "u");
  auth_code = some code;
  biz_code = some (codes "7");
  has_user = true;
  has_password = false;
  has_auth_code = true;
  has_token = false;
}

response-parsed : parse_session (response (codes "s3")) ≡ ok (described (codes "s3"))
unfolding parse_session parse_fields text_field first strip drop_spaces is_space host_field
    is_address is_ipv4 split_on port_field int_text str_nat str_int
response-parsed = refl

response-parsed' : parse_session (response (codes "x")) ≡ ok (described (codes "x"))
unfolding parse_session parse_fields text_field first strip drop_spaces is_space host_field
    is_address is_ipv4 split_on port_field int_text str_nat str_int
response-parsed' = refl

unwrapped :
    (unwrap (response (codes "s3")) ≡ ok (inner (codes "s3")))
    × (unwrap (response (codes "x")) ≡ ok (inner (codes "x")))
unfolding unwrap
unwrapped = (refl, refl)

parse_session-IsDescriptor_example :
    (m : Members) × (unwrap (response (codes "s3")) ≡ ok m)
    × IsDescriptor m (described (codes "s3"))
parse_session-IsDescriptor_example =
    parse_session-IsDescriptor (response (codes "s3")) (described (codes "s3")) response-parsed

code_hidden : hidden (codes "authCode") ≡ true
unfolding hidden
code_hidden = refl

inner-SameButHidden : SameButHidden (inner (codes "s3")) (inner (codes "x"))
inner-SameButHidden = same_member _ _ (
    same_member _ _ (
      same_member _ _
        (same_member _ _ (other_member _ _ _ code_hidden refl (same_member _ _ both_end)))))

parse_session-redacted_example :
    redacted (described (codes "s3")) ≡ redacted (described (codes "x"))
parse_session-redacted_example =
    parse_session-redacted (response (codes "s3")) (response (codes "x")) (inner (codes "s3"))
      (inner (codes "x")) (described (codes "s3")) (described (codes "x")) unwrapped.0 unwrapped.1
      inner-SameButHidden response-parsed response-parsed'

abbrev loader : LoaderArgs
loader = record {
  library = codes "/a.so";
  server_ip = codes "srv";
  server_port = pos 8000;
  terminal_sn = none;
  unit_type = some (codes "t");
}

abbrev loader_text : Text
loader_text =
    codes
      "library = /a.so\nserver_ip = srv\nserver_port = 8000\nunit_type = t\nvm_id = vm-1\nusername = u\nauth_code = x\nbiz_code = 7\n"

loader-written : loader_config (described (codes "x")) loader ≡ ok loader_text
unfolding loader_config host_field strip drop_spaces is_space is_address is_ipv4 split_on is_ipv6
    port_field str_nat
loader-written = refl

loader_config-read_config_example :
    (host : Text) × (port : ℕ) × (host_field (text (codes "srv")) ≡ ok (some host))
    × (port_field (integer (pos 8000)) ≡ ok (some port))
    × (read_config loader_text ≡ present (config_values (described (codes "x")) loader host port))
loader_config-read_config_example =
    loader_config-read_config (described (codes "x")) loader loader_text loader-written

newline_refused :
    loader_config (described (codes "x")) (record loader { unit_type = some (codes "t\nx = y") })
    ≡ err (session has_newline)
unfolding loader_config host_field strip drop_spaces is_space is_address is_ipv4 split_on is_ipv6
    port_field str_nat
newline_refused = refl

abbrev options : Options
options = record {
  emit_loader_config = some (codes "out");
  library = some (codes "/a.so");
  server_ip = some (codes "srv");
  server_port = some (pos 8000);
  terminal_sn = none;
  unit_type = none;
}

abbrev old_files : List File
old_files = record { path = codes "old"; content = codes "kept"; mode = 0 } ∷ []

abbrev run : Outcome
run = main (λ p. true) old_files options (ok (object (response (codes "x"))))

main-IsAdded_example : IsAdded old_files options run.files
main-IsAdded_example =
    main-IsAdded (λ p. true) old_files options (ok (object (response (codes "x"))))

abbrev status : ℕ
status = 0

run-zero : run.exit ≡ ok status
unfolding make_config is_ipv6 config_lines config_values loader_config write_private_config
    write_values route_count unwrap check_host check_port int_value shown main parse_session
    parse_fields text_field first strip drop_spaces is_space host_field is_address is_ipv4 split_on
    port_field int_text str_nat str_int
run-zero = refl

main_status_example : IsExit (ok (object (response (codes "x")))) run run.exit
main_status_example = main_status (λ p. true) old_files options (ok (object (response (codes "x"))))

-- JSON's Infinity for a port raises OverflowError, which main does not catch.
infinite_port :
    parse_session (
      member
        (codes "vmId")
        (integer (pos 1))
        (member (codes "vmcPort") (float (infinite false)) end))
    ≡ err overflow_error
unfolding parse_session parse_fields text_field first str_nat strip drop_spaces str_int is_space
    host_field port_field
infinite_port = refl
