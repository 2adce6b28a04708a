-- ===== src/Session/Main.antt =====
-- linux/src/ydyun_session.py: main, on what the command line, the input file and the disk give.
pub mod Exit
use ydyun_vdesktop_linux_dri.Base.{
  ℕ, ◌≡◌, refl, sym, ◌∙◌, ap, Bool, true, false, ◌⊎◌, inl, inr, ◌≢◌, List, [], ◌∷◌, Option, none,
  some, arith, ◌==◌, ◌*◌, ◌||◌, not, Text, Result, err, ok, Bool-cases, >>=-eq-ok, ◌>>=◌,
  if◌then◌else◌,
}
use ydyun_vdesktop_linux_dri.Base.Int.{ℤ}
use ydyun_vdesktop_linux_dri.Session.Json.{Json, object}
use ydyun_vdesktop_linux_dri.Session.Fields.{
  SessionError, session, not_an_object, options_required, os_error, json_error, value_error,
  overflow_error, unicode_error,
}
use ydyun_vdesktop_linux_dri.Session.Descriptor.{SessionDescriptor, parse_session, route_count}
use ydyun_vdesktop_linux_dri.Session.Secrets.{Redacted, redacted}
use ydyun_vdesktop_linux_dri.Session.Config.{
  LoaderArgs, loader_config, File, exists, encodable, write_private_config,
}

-- The options: the path of the loader's configuration and what goes into it.
pub record Options : Type 0 where
  pub emit_loader_config : Option Text
  pub library : Option Text
  pub server_ip : Option Text
  pub server_port : Option ℤ
  pub terminal_sn : Option Text
  pub unit_type : Option Text

-- What reading the input and `json.loads` gave: a value, or OSError or JSONDecodeError.
abbrev pub Input : Type 0
Input = Result SessionError Json

abbrev pub top_level : Json → Result SessionError SessionDescriptor
top_level (object raw) = parse_session raw
top_level other = err (session not_an_object)

abbrev pub required : Option Text → Option Text → Option ℤ → Result SessionError (Text × Text × ℤ)
required (some library) (some server_ip) (some server_port) = ok (library, server_ip, server_port)
required library server_ip server_port = err (session options_required)

unfoldable pub make_config : Options → SessionDescriptor → Result SessionError Text
make_config options d = do
  given ← required options.library options.server_ip options.server_port
  let (library, server_ip, server_port) = given
  loader_config d (record {
    library = library;
    server_ip = server_ip;
    server_port = server_port;
    terminal_sn = options.terminal_sn;
    unit_type = options.unit_type;
  })

-- Making the loader's configuration, where it is asked for: the files afterwards, and an exception.
abbrev pub write_made :
    (Text → Bool)
    → List File
    → Text
    → Result SessionError Text
    → List File × Result SessionError (Unit {0})
write_made creatable files path (err e) = (files, err e)
write_made creatable files path (ok content) = write_private_config creatable files path content

abbrev pub emit :
    (Text → Bool)
    → List File
    → Options
    → Option Text
    → SessionDescriptor
    → List File × Result SessionError (Unit {0})
emit creatable files options none d = (files, ok tt)
emit creatable files options (some path) d = write_made creatable files path (make_config options d)

-- The files afterwards, what is printed, and the exit status or the exception that is not caught.
pub record Outcome : Type 0 where
  pub files : List File
  pub printed : Option Redacted
  pub exit : Result SessionError ℕ

-- `except (OSError, json.JSONDecodeError, SessionFormatError)`
abbrev pub caught : SessionError → Result SessionError ℕ
caught (session fault) = ok 2
caught os_error = ok 2
caught json_error = ok 2
caught other = err other

abbrev pub failed : List File → SessionError → Outcome
failed files e = record { files = files; printed = none; exit = caught e }

abbrev pub finish : SessionDescriptor → List File × Result SessionError (Unit {0}) → Outcome
finish d (files, err e) = failed files e
finish d (files, ok done) = record {
  files = files;
  printed = some (redacted d);
  exit = if route_count d == 0 then ok 2 else ok 0;
}

abbrev pub after_parse :
    (Text → Bool) → List File → Options → Result SessionError SessionDescriptor → Outcome
after_parse creatable files options (err e) = failed files e
after_parse creatable files options (ok d) =
    finish d (emit creatable files options options.emit_loader_config d)

unfoldable pub main : (Text → Bool) → List File → Options → Input → Outcome
unfolding write_private_config
main creatable files options input = after_parse creatable files options (input >>= top_level)

-- One new file at most, at the path that was asked for, where no file stood, for its owner only.
abbrev pub IsAdded : List File → Options → List File → Type 0
IsAdded files options files' =
    (files' ≡ files)
    ⊎ ((f : File) × (files' ≡ f ∷ files)
        × (exists files f.path ≡ false)
        × (f.mode ≡ 6 * 8 * 8)
        × (options.emit_loader_config ≡ some f.path))

write_private_config-IsAdded :
    (creatable : Text → Bool) (files : List File) (options : Options) (path content : Text)
    → options.emit_loader_config ≡ some path
    → IsAdded files options (write_private_config creatable files path content).0
unfolding write_private_config
write_private_config-IsAdded creatable files options path content e =
    elim (Bool-cases (exists files path || not (creatable path))) [
      | inl refused ↦ rw refused (inl refl)
      | inr free ↦ elim (Bool-cases (encodable content)) [
        | inl good ↦
            rw (free, good)
              (inr (
                record { path = path; content = content; mode = 384 },
                refl,
                ground arith,
                refl,
                e,
              ))
        | inr bad ↦
            rw (free, bad)
              (inr (record { path = path; content = []; mode = 384 }, refl, ground arith, refl, e))
      ]
    ]

emit-IsAdded :
    (creatable : Text → Bool) (files : List File) (options : Options) (path : Option Text)
    (d : SessionDescriptor)
    → options.emit_loader_config ≡ path
    → IsAdded files options (emit creatable files options path d).0
emit-IsAdded creatable files options none d e = inl refl
emit-IsAdded creatable files options (some path) d e = made (make_config options d)
  where
    made :
        (r : Result SessionError Text) → IsAdded files options (write_made creatable files path r).0
    made (err _) = inl refl
    made (ok content) = write_private_config-IsAdded creatable files options path content e

finish-files :
    (d : SessionDescriptor) (r : List File × Result SessionError (Unit {0}))
    → (finish d r).files ≡ r.0
finish-files d (files, err e) = refl
finish-files d (files, ok done) = refl

-- main leaves every file as it was and makes one at most: the one of `--emit-loader-config`, at a
-- path where there was none, with the mode 0600. It may be left empty, where the text cannot be written.
pub main-IsAdded :
    (creatable : Text → Bool) (files : List File) (options : Options) (input : Input)
    → IsAdded files options (main creatable files options input).files
unfolding main
main-IsAdded creatable files options input = parsed (input >>= top_level)
  where
    parsed :
        (r : Result SessionError SessionDescriptor)
        → IsAdded files options (after_parse creatable files options r).files
    parsed (err e) = inl refl
    parsed (ok d) =
        rw (finish-files d (emit creatable files options options.emit_loader_config d))
          (emit-IsAdded creatable files options options.emit_loader_config d refl)
