-- ===== src/Session/Config.antt =====
-- linux/src/ydyun_session.py: SessionDescriptor.loader_config and write_private_config.
pub mod Lines
use ydyun_vdesktop_linux_dri.Base.{
  ℕ, ◌≡◌, refl, Bool, true, false, ◌||◌, List, [], ◌∷◌, ◌++◌, Option, none, some, ltb, leb, ◌&&◌,
  any, Text, codes, elem, text_eq, not, Result, err, ok, raise_if, ◌>>=◌, ◌>>◌, if◌then◌else◌,
}
use ydyun_vdesktop_linux_dri.Base.Int.{ℤ}
use ydyun_vdesktop_linux_dri.Base.Decimal.{str_nat}
use ydyun_vdesktop_linux_dri.Session.Json.{text, integer}
use ydyun_vdesktop_linux_dri.Session.Fields.{
  SessionError, session, no_credentials, server_required, has_newline, os_error, unicode_error,
  host_field, port_field,
}
use ydyun_vdesktop_linux_dri.Session.Descriptor.{SessionDescriptor}

-- The keyword arguments of `loader_config`.
pub record LoaderArgs : Type 0 where
  pub library : Text
  pub server_ip : Text
  pub server_port : ℤ
  pub terminal_sn : Option Text
  pub unit_type : Option Text

abbrev is_none : Option Text → Bool
is_none none = true
is_none (some s) = false

-- The file's keys with their values, of which some may be None.
abbrev pub Values : Type 0
Values = List (Text × Option Text)

unfoldable pub config_values : SessionDescriptor → LoaderArgs → Text → ℕ → Values
config_values d args server port =
    (codes "library", some args.library)
    ∷ (codes "server_ip", some server)
    ∷ (codes "server_port", some (str_nat port))
    ∷ (codes "terminal_sn", args.terminal_sn)
    ∷ (codes "unit_type", args.unit_type)
    ∷ (codes "vm_id", some d.vm_id)
    ∷ (codes "username", d.user_name)
    ∷ (codes "auth_code", d.auth_code)
    ∷ (codes "biz_code", d.biz_code)
    ∷ []

-- `value is not None and ("\n" in value or "\r" in value)`
abbrev has_line_end : Option Text → Bool
has_line_end none = false
has_line_end (some value) = elem 10 value || elem 13 value

unfoldable pub config_lines : Values → Text
config_lines [] = []
config_lines ((key, none) ∷ values) = config_lines values
config_lines ((key, some value) ∷ values) =
    key ++ (codes " = " ++ (value ++ (10 ∷ config_lines values)))

unfoldable pub write_values : Values → Result SessionError Text
unfolding config_lines
write_values values = do
  raise_if (any (λ v. has_line_end v.1) values) (session has_newline)
  ok (config_lines values)

abbrev server_checked : Option Text → Option ℕ → Result SessionError (Text × ℕ)
server_checked (some host) (some port) = ok (host, port)
server_checked host port = err (session server_required)

abbrev pub lacks_credentials : SessionDescriptor → Bool
lacks_credentials d = is_none d.user_name || is_none d.auth_code || is_none d.biz_code

unfoldable pub loader_config : SessionDescriptor → LoaderArgs → Result SessionError Text
unfolding config_values write_values
loader_config d args = do
  raise_if (lacks_credentials d) (session no_credentials)
  host ← host_field (text args.server_ip)
  port ← port_field (integer args.server_port)
  server ← server_checked host port
  write_values (config_values d args server.0 server.1)

-- The files by their paths. A file that is made is readable by its owner only.
pub record File : Type 0 where
  pub path : Text
  pub content : Text
  pub mode : ℕ

abbrev pub exists : List File → Text → Bool
exists files path = any (λ f. text_eq f.path path) files

-- A text with a lone surrogate cannot be written as UTF-8.
abbrev pub encodable : Text → Bool
encodable s = not (any (λ c. leb 0xd800 c && leb c 0xdfff) s)

-- The files afterwards, and the exception if one is raised: `creatable` says whether the system lets a new
-- file be made at the path.
unfoldable pub write_private_config :
    (Text → Bool) → List File → Text → Text → List File × Result SessionError (Unit {0})
write_private_config creatable files path content =
    if exists files path || not (creatable path)
    then (files, err os_error)
    else if not (encodable content)
    then (record { path = path; content = []; mode = 384 } ∷ files, err unicode_error)
    else (record { path = path; content = content; mode = 384 } ∷ files, ok tt)
