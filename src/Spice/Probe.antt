-- ===== src/Spice/Probe.antt =====
-- linux/src/ydyun_ice_probe.py: main on the bytes of a recorded stream. What is printed is a list of lines,
-- and what is written is a list of files; making directories and files is taken to succeed.
pub mod History
pub mod Steps
pub mod Run
use Prim.Native.String.{String}
use ydyun_vdesktop_linux_dri.Base.{
  ℕ, zero, suc, ◌+◌, ◌-◌, Bool, true, false, not, ◌&&◌, List, [], ◌∷◌, ◌++◌, Option, none, some,
  ltb, ◌==◌, length, take, drop, replicate, Text, codes, Result, err, ok, if◌then◌else◌,
}
use ydyun_vdesktop_linux_dri.Base.Decimal.{str_nat}
use ydyun_vdesktop_linux_dri.Spice.Errors.{SpiceError, protocol, no_link_header, trailing_bytes}
use ydyun_vdesktop_linux_dri.Spice.Frame.{
  SpiceLinkHeader, SpiceDataFrame, link_header_size, max_frame_size, ice_link_message_max,
  parse_link_header,
}
use ydyun_vdesktop_linux_dri.Spice.Stream.{
  SpiceDataParser, Outcome, done, raised, out_of_fuel, new_parser, feed, buffered_bytes,
}
use ydyun_vdesktop_linux_dri.Spice.Display.{
  DisplayMessage, StreamCreate, stream_create, stream_data, stream_destroy, surface_create,
  stream_data_sized, decode_display_message, extract_display_sample,
}

pub record Options : Type 0 where
  pub mini_header : Bool
  pub link_header : Bool
  pub extract : Bool

-- A line of JSON: the link header, or a frame with its metadata and the name of its sample's file.
pub data Line : Type 0 where
  link_line : SpiceLinkHeader → Line
  data_line : SpiceDataFrame → Option DisplayMessage → Option Text → Line

-- How the program ends; `out_of_rounds` is no Python outcome.
pub data Exit : Type 0 where
  status : ℕ → Exit
  uncaught : SpiceError → Exit
  out_of_rounds : Exit

-- `stream_codecs` and `stream_counts`, what has been written and what has been printed.
pub record Progress : Type 0 where
  pub codecs : List (ℕ × String)
  pub counts : List (ℕ × ℕ)
  pub files : List (Text × List ℕ)
  pub lines : List Line

-- `dictionary.get(key, default)`; the newest entry of a key is the first.
abbrev pub lookup {ℓ} : {A : Type ℓ} → List (ℕ × A) → ℕ → A → A
lookup [] key default' = default'
lookup ((k, v) ∷ entries) key default' = if k == key then v else lookup entries key default'

-- `{count:06d}`
abbrev pub padded : Text → Text
padded s = replicate (6 - length s) b'0' ++ s

abbrev pub sample_name : ℕ → String → ℕ → Text
sample_name stream_id codec count =
    codes "stream-"
    ++ (str_nat stream_id
        ++ (codes "-" ++ (codes codec ++ (codes "-" ++ (padded (str_nat count) ++ codes ".es")))))

-- The stream of a message that carries a sample.
abbrev pub sample_stream : Option DisplayMessage → Option ℕ
sample_stream (some (stream_data d)) = some d.stream_id
sample_stream (some (stream_data_sized d)) = some d.sample.stream_id
sample_stream other = none

abbrev pub add_codec : Option DisplayMessage → List (ℕ × String) → List (ℕ × String)
add_codec (some (stream_create c)) codecs = (c.stream_id, c.codec) ∷ codecs
add_codec other codecs = codecs

-- The sample of a frame is written, if it has one.
abbrev pub store :
    SpiceDataFrame → Option DisplayMessage → Text → Option (List ℕ) → Progress → Progress
store frame decoded name none p = record p { lines = p.lines ++ data_line frame decoded none ∷ [] }
store frame decoded name (some sample) p = record p {
  files = p.files ++ (name, sample) ∷ [];
  lines = p.lines ++ data_line frame decoded (some name) ∷ [];
}

abbrev pub count_up : ℕ → Progress → Progress
count_up stream_id p = record p {
  counts = (stream_id, suc (lookup p.counts stream_id 0)) ∷ p.counts;
}

-- The progress so far, and the exception that ends the loop.
abbrev pub Ended : Type 0
Ended = Progress × Option SpiceError

abbrev pub stored :
    SpiceDataFrame
    → Option DisplayMessage
    → Text
    → Result SpiceError (Option (List ℕ))
    → Progress
    → Ended
stored frame decoded name (err e) p = (p, some e)
stored frame decoded name (ok sample) p = (store frame decoded name sample p, none)

abbrev pub with_stream :
    Options → SpiceDataFrame → Option DisplayMessage → Option ℕ → Progress → Ended
with_stream o frame decoded none p = (store frame decoded [] none p, none)
with_stream o frame decoded (some stream_id) p =
    if o.extract
    then stored frame decoded
        (sample_name stream_id (lookup p.codecs stream_id "unknown") (lookup p.counts stream_id 0))
        (extract_display_sample frame) (count_up stream_id p)
    else (store frame decoded [] none p, none)

abbrev pub with_decoded :
    Options → SpiceDataFrame → Result SpiceError (Option DisplayMessage) → Progress → Ended
with_decoded o frame (err e) p = (p, some e)
with_decoded o frame (ok decoded) p =
    with_stream o frame decoded (sample_stream decoded)
      (record p { codecs = add_codec decoded p.codecs })

-- The body of the loop.
unfoldable pub frame_step : Options → SpiceDataFrame → Progress → Ended
frame_step o frame p = with_decoded o frame (decode_display_message frame) p

abbrev continue : (Progress → Ended) → Ended → Ended
continue next (p, some e) = (p, some e)
continue next (p, none) = next p

unfoldable pub frame_loop : Options → List SpiceDataFrame → Progress → Ended
unfolding frame_step
frame_loop o [] p = (p, none)
frame_loop o (frame ∷ frames) p = continue (frame_loop o frames) (frame_step o frame p)

-- After the loop: an exception, bytes that are left over, or the status 0.
abbrev pub ending : ℕ → Ended → Progress × Exit
ending left (p, some e) = (p, uncaught e)
ending left (p, none) = if left == 0 then (p, status 0) else (p, uncaught (protocol trailing_bytes))

abbrev pub after_feed : Options → Progress → SpiceDataParser × Outcome → Progress × Exit
after_feed o p (parser, done frames) = ending (buffered_bytes parser) (frame_loop o frames p)
after_feed o p (parser, raised e) = (p, uncaught e)
after_feed o p (parser, out_of_fuel) = (p, out_of_rounds)

unfoldable pub read_frames : Options → List ℕ → List Line → Progress × Exit
unfolding frame_loop
read_frames o raw lines =
    after_feed o (record { codecs = []; counts = []; files = []; lines = lines })
      (feed (new_parser o.mini_header max_frame_size) raw)

abbrev pub after_link : Options → List ℕ → Result SpiceError SpiceLinkHeader → Progress × Exit
after_link o raw (err e) = (record { codecs = []; counts = []; files = []; lines = [] }, uncaught e)
after_link o raw (ok link) = read_frames o (drop link_header_size raw) (link_line link ∷ [])

abbrev pub read_link : List ℕ → Result SpiceError SpiceLinkHeader
read_link raw =
    if ltb (length raw) link_header_size
    then err (protocol no_link_header)
    else parse_link_header (take link_header_size raw) ice_link_message_max

unfoldable pub main : Options → List ℕ → Progress × Exit
unfolding read_frames
main o raw = if o.link_header then after_link o raw (read_link raw) else read_frames o raw []

-- `except SpiceProtocolError` of the script: status 2.
abbrev pub exit_status : Exit → Option ℕ
exit_status (status n) = some n
exit_status (uncaught (protocol reason)) = some 2
exit_status other = none
