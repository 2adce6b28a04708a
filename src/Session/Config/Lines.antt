-- ===== src/Session/Config/Lines.antt =====
-- The file that loader_config writes, read back.
use ydyun_vdesktop_linux_dri.Base.{
  ℕ, ◌≡◌, refl, sym, ◌∙◌, ap, false, List, [], ◌∷◌, ◌++◌, append_assoc, Option, none, some, arith,
  ◌==◌, any, drop, length, drop-append_right, Text, codes, elem, any-append, All, ok, ◌+◌,
  raise_if-ok, ok_injective, >>=-eq-ok, if◌then◌else◌,
}
use ydyun_vdesktop_linux_dri.Base.Address.{split_on}
use ydyun_vdesktop_linux_dri.Base.Address.Joined.{split_on-cons}
use ydyun_vdesktop_linux_dri.Session.Fields.{session, no_credentials, host_field, port_field}
use ydyun_vdesktop_linux_dri.Session.Json.{text, integer}
use ydyun_vdesktop_linux_dri.Session.Descriptor.{SessionDescriptor}
use ydyun_vdesktop_linux_dri.Session.Config.{
  LoaderArgs, Values, lacks_credentials, has_line_end, config_values, config_lines, write_values,
  server_checked, loader_config,
}

-- The text up to the first space.
before_space : Text → Text
before_space [] = []
before_space (c ∷ s) = if c == 32 then [] else c ∷ before_space s

-- A line is a key, a space, an equals sign, a space and the value.
read_line : Text → Text × Text
unfolding before_space
read_line s = (before_space s, drop (length (before_space s) + 3) s)

read_lines : List Text → List (Text × Text)
read_lines [] = []
read_lines (last ∷ []) = []
read_lines (line ∷ next ∷ lines) = read_line line ∷ read_lines (next ∷ lines)

-- How a reader takes the file apart: at the line feeds.
unfoldable pub read_config : Text → List (Text × Text)
unfolding read_lines read_line before_space
read_config s = read_lines (split_on 10 s)

-- The values that are there.
unfoldable pub present : Values → List (Text × Text)
present [] = []
present ((key, none) ∷ values) = present values
present ((key, some value) ∷ values) = (key, value) ∷ present values

split_on-line :
    (line rest : Text)
    → elem 10 line ≡ false
    → split_on 10 (line ++ (10 ∷ rest)) ≡ line ∷ split_on 10 rest
unfolding split_on
split_on-line [] rest h = refl
split_on-line (c ∷ line) rest h =
    let other : (c == 10) ≡ false = ground arith in
    rw (split_on-line line rest (ground arith), other) refl

before_space-key : (key rest : Text) → elem 32 key ≡ false → before_space (key ++ (32 ∷ rest)) ≡ key
unfolding before_space
before_space-key [] rest h = refl
before_space-key (c ∷ key) rest h =
    let other : (c == 32) ≡ false = ground arith in
    rw (other, before_space-key key rest (ground arith)) refl

read_line-line :
    (key value : Text)
    → elem 32 key ≡ false
    → read_line (key ++ (codes " = " ++ value)) ≡ (key, value)
unfolding read_line
read_line-line key value h =
    rw
      (
        before_space-key key (61 ∷ 32 ∷ value) h,
        drop-append_right (length key + 3) 3 key (32 ∷ 61 ∷ 32 ∷ value) refl,
      )
      refl

read_lines-split_on :
    (line rest : Text)
    → read_lines (line ∷ split_on 10 rest) ≡ read_line line ∷ read_lines (split_on 10 rest)
unfolding read_lines
read_lines-split_on line rest = let (p, ps, e) = split_on-cons 10 rest in rw e refl

-- A key that a line can start with: no space and no line feed.
abbrev pub IsKey : Text × Option Text → Type 0
IsKey v = (elem 32 v.0 ≡ false) × (elem 10 v.0 ≡ false)

one_line :
    (key value rest : Text)
    → IsKey (key, some value)
    → elem 10 value ≡ false
    → read_config (key ++ (codes " = " ++ (value ++ (10 ∷ rest)))) ≡ (key, value) ∷ read_config rest
unfolding read_config
one_line key value rest k h =
    let line = key ++ (codes " = " ++ value) in
    let cut : elem 10 line ≡ false =
      any-append (λ d. d == 10) key (codes " = " ++ value) ∙ ground arith in
    let shape : key ++ (codes " = " ++ (value ++ (10 ∷ rest))) ≡ line ++ (10 ∷ rest) =
      sym (append_assoc key (codes " = " ++ value) (10 ∷ rest)) in
    rw
      (
        shape,
        split_on-line line rest cut,
        read_lines-split_on line rest,
        read_line-line key value k.0,
      )
      refl

pub read_config-config_lines :
    (values : Values)
    → All IsKey values
    → any (λ v. has_line_end v.1) values ≡ false
    → read_config (config_lines values) ≡ present values
unfolding config_lines present read_config split_on read_lines
read_config-config_lines [] k h = refl
read_config-config_lines ((key, none) ∷ values) k h = read_config-config_lines values k.1 h
read_config-config_lines ((key, some value) ∷ values) k h =
    one_line key value (config_lines values) k.0 (ground arith)
    ∙ ap (◌∷◌ (key, value)) (read_config-config_lines values k.1 (ground arith))

server_checked-some :
    (host : Option Text) (port : Option ℕ) {h : Text} {p : ℕ}
    → server_checked host port ≡ ok (h, p)
    → (host ≡ some h) × (port ≡ some p)
server_checked-some none port e = absurd (ground arith)
server_checked-some (some h) none e = absurd (ground arith)
server_checked-some (some h) (some p) e =
    let e' = ok_injective refl e in (ap (λ x. some x.0) e', ap (λ x. some x.1) e')

write_values-ok :
    (values : Values) {content : Text}
    → write_values values ≡ ok content
    → (any (λ v. has_line_end v.1) values ≡ false) × (config_lines values ≡ content)
unfolding write_values
write_values-ok values e = ground arith

-- The loader's configuration, read line by line, gives exactly the keys and values that are there,
-- in their order: no value can add a line of its own. The server is the given one, stripped.
pub loader_config-read_config :
    (d : SessionDescriptor) (args : LoaderArgs) (content : Text)
    → loader_config d args ≡ ok content
    → (host : Text) × (port : ℕ) × (host_field (text args.server_ip) ≡ ok (some host))
      × (port_field (integer args.server_port) ≡ ok (some port))
      × (read_config content ≡ present (config_values d args host port))
unfolding loader_config config_values write_values
loader_config-read_config d args content e0 =
    let (complete, e1) = raise_if-ok (lacks_credentials d) (session no_credentials) e0 in
    let (host, h, e2) = >>=-eq-ok (host_field (text args.server_ip)) _ e1 in
    let (port, p, e3) = >>=-eq-ok (port_field (integer args.server_port)) _ e2 in
    let ((host', port'), both, e4) = >>=-eq-ok (server_checked host port) _ e3 in
    let key_ok : (false ≡ false) × (false ≡ false) = (refl, refl) in
    let (a, b) = server_checked-some host port both in
    let (no_end, same) = write_values-ok (config_values d args host' port') e4 in
    (
      host',
      port',
      h ∙ ap ok a,
      p ∙ ap ok b,
      ap read_config (sym same)
          ∙ read_config-config_lines (config_values d args host' port')
              (
                key_ok,
                (key_ok, (key_ok, (key_ok, (key_ok, (key_ok, (key_ok, (key_ok, (key_ok, tt)))))))),
              )
              no_end,
    )
