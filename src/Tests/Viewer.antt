-- ===== src/Tests/Viewer.antt =====
-- A viewer URL, and a recorded stream that is probed.
use ydyun_vdesktop_linux_dri.Base.Decimal.{str_nat}
use ydyun_vdesktop_linux_dri.Spice.Display.{decode_display_message, extract_display_sample}
use ydyun_vdesktop_linux_dri.Spice.Frame.{parse_data_frame}
use ydyun_vdesktop_linux_dri.Spice.Stream.{feed, new_parser}
use ydyun_vdesktop_linux_dri.Base.Address.{split_on}
use ydyun_vdesktop_linux_dri.Base.{
  ℕ, ◌≡◌, refl, true, false, List, [], ◌∷◌, none, some, Text, codes, ok, zero, is_space,
  starts_with, lower_char,
}
use ydyun_vdesktop_linux_dri.Spice.Viewer.{
  UrlLibrary, ViewerConnectionUrl, parse_viewer_connection_url, parse_viewer_endpoint,
}
use ydyun_vdesktop_linux_dri.Spice.Viewer.Shape.{IsShaped, parse_viewer_connection_url-IsShaped}
use ydyun_vdesktop_linux_dri.Spice.Probe.{Options, Progress, status, main}
use ydyun_vdesktop_linux_dri.Spice.Probe.Run.{IsComplete, body, main-IsComplete}

-- A library that splits at the last colon of "127.0.0.1:10800".
abbrev library : UrlLibrary
library = record {
  split_url = λ value. some (record {
    hostname = some (codes "127.0.0.1");
    port = some 10800;
    username = none;
    password = none;
    path = [];
    query = [];
    fragment = [];
  });
  normal_address = λ host. some host;
}

abbrev url : Text
url = codes "SPICE://127.0.0.1:10800+a+secret"

abbrev parsed : ViewerConnectionUrl
parsed = record {
  scheme = codes "spice";
  host = codes "127.0.0.1";
  port = 10800;
  field_count = 3;
  extra_fields = codes "a" ∷ codes "secret" ∷ [];
}

url-parsed : parse_viewer_connection_url library url ≡ ok parsed
unfolding parse_viewer_connection_url is_space starts_with lower_char split_on parse_viewer_endpoint
url-parsed = refl

parse_viewer_connection_url-IsShaped_example : IsShaped library url parsed
parse_viewer_connection_url-IsShaped_example =
    parse_viewer_connection_url-IsShaped library url parsed url-parsed

abbrev options : Options
options = record { mini_header = true; link_header = false; extract = true }

-- A stream data message of stream 9 with a sample of two bytes.
abbrev recorded : List ℕ
recorded = 123 ∷ 0 ∷ 14 ∷ 0 ∷ 0 ∷ 0 ∷ 9 ∷ 0 ∷ 0 ∷ 0 ∷ 1 ∷ 0 ∷ 0 ∷ 0 ∷ 2 ∷ 0 ∷ 0 ∷ 0 ∷ 77 ∷ 78 ∷ []

abbrev progress : Progress
progress = (main options recorded).0

probed : main options recorded ≡ (progress, status 0)
unfolding main feed new_parser parse_data_frame decode_display_message extract_display_sample
probed = refl

sample_written : progress.files ≡ (codes "stream-9-unknown-000000.es", 77 ∷ 78 ∷ []) ∷ []
unfolding main feed new_parser parse_data_frame decode_display_message extract_display_sample
    str_nat
sample_written = refl

main-IsComplete_example : (zero ≡ zero) × IsComplete options (body options recorded) progress
main-IsComplete_example = main-IsComplete options recorded progress zero probed
