-- ===== src/Tests/Messages.antt =====
-- Runs of the message decoders and encoders of linux/src/ydyun_spice.py.
use ydyun_vdesktop_linux_dri.Base.{
  ℕ, ◌≡◌, refl, true, false, List, [], ◌∷◌, ◌++◌, some, none, arith, length, ok, ◌>>=◌,
}
use ydyun_vdesktop_linux_dri.Base.Int.{pos, negsuc}
use ydyun_vdesktop_linux_dri.Spice.Frame.{SpiceDataFrame, parse_data_frame, max_frame_size}
use ydyun_vdesktop_linux_dri.Spice.Names.{codec_name}
use ydyun_vdesktop_linux_dri.Spice.Clip.{no_clip, rects, Clip, read_clip_metadata}
use ydyun_vdesktop_linux_dri.Spice.Display.{
  StreamCreate, StreamData, stream_data, decode_display_message, extract_display_sample,
}
use ydyun_vdesktop_linux_dri.Spice.Display.Samples.{
  Matches, extract-decode, IsProtocol, decode_display_message-IsProtocol,
}
use ydyun_vdesktop_linux_dri.Spice.Display.Clips.{IsStreamCreate}
use ydyun_vdesktop_linux_dri.Spice.Inputs.{
  InputsMessage, mouse_motion, encode_inputs_message, decode_inputs_message,
}
use ydyun_vdesktop_linux_dri.Spice.Inputs.RoundTrip.{message_type_of, args_of, decode-encode}

abbrev mini_frame : ℕ → List ℕ → SpiceDataFrame
mini_frame t payload = record {
  serial = none;
  message_type = t;
  size = length payload;
  sub_list = none;
  payload = payload;
  mini_header = true;
}

-- Two bytes of sample and one behind them.
abbrev sample_payload : List ℕ
sample_payload = 3 ∷ 0 ∷ 0 ∷ 0 ∷ 9 ∷ 0 ∷ 0 ∷ 0 ∷ 2 ∷ 0 ∷ 0 ∷ 0 ∷ 65 ∷ 66 ∷ 67 ∷ []

abbrev sample_data : StreamData
sample_data = record {
  stream_id = 3;
  multimedia_time = 9;
  encoded_size = 2;
  sample_offset = 12;
  sample_size = 2;
  trailing_size = 1;
}

sample_decoded :
    decode_display_message (mini_frame 123 sample_payload) ≡ ok (some (stream_data sample_data))
unfolding decode_display_message
sample_decoded = refl

extract-decode_example :
    Matches sample_payload (extract_display_sample (mini_frame 123 sample_payload)) sample_data
extract-decode_example =
    extract-decode (mini_frame 123 sample_payload) (stream_data sample_data) sample_data
      sample_decoded refl

decode_display_message-IsProtocol_example :
    IsProtocol (decode_display_message (mini_frame 122 sample_payload))
decode_display_message-IsProtocol_example =
    decode_display_message-IsProtocol (mini_frame 122 sample_payload)

-- A list of one rectangle, from byte 1 on.
abbrev clip_payload : List ℕ
clip_payload =
    0 ∷ 1 ∷ 1 ∷ 0 ∷ 0 ∷ 0 ∷ 0 ∷ 0 ∷ 0 ∷ 0 ∷ 0 ∷ 0 ∷ 0 ∷ 0 ∷ 0 ∷ 0 ∷ 0 ∷ 0 ∷ 0 ∷ 0 ∷ 0 ∷ 0 ∷ []

abbrev one_rect : Clip
one_rect = record { clip_type = rects; clip_type_value = 1; clip_rect_count = some 1 }

clip_read : read_clip_metadata clip_payload 1 ≡ ok (one_rect, 22)
unfolding read_clip_metadata
clip_read = refl

abbrev h264_stream : StreamCreate
h264_stream = record {
  surface_id = 0;
  stream_id = 4;
  flags = 1;
  codec = "h264";
  codec_value = 3;
  stamp = 77;
  stream_width = 1920;
  stream_height = 1080;
  src_width = 1920;
  src_height = 1080;
  dest = record { top = pos 0; left = negsuc 4; bottom = pos 1080; right = pos 1915 };
  clip = record { clip_type = no_clip; clip_type_value = 0; clip_rect_count = none };
}

h264_stream-IsStreamCreate : IsStreamCreate h264_stream
unfolding codec_name
h264_stream-IsStreamCreate = record {
  surface_fits = omega arith;
  stream_fits = omega arith;
  flags_fit = omega arith;
  codec_fits = omega arith;
  codec_named = refl;
  stamp_fits = omega arith;
  stream_width_fits = omega arith;
  stream_height_fits = omega arith;
  src_width_fits = omega arith;
  src_height_fits = omega arith;
  top_fits = (omega arith, omega arith);
  left_fits = (omega arith, omega arith);
  bottom_fits = (omega arith, omega arith);
  right_fits = (omega arith, omega arith);
  unclipped = refl;
}

abbrev left_up : InputsMessage
left_up = mouse_motion (negsuc 9) (pos 3) 1

decode-encode_example :
    (do
      bytes ←
          encode_inputs_message
            (message_type_of left_up)
            (record { serial = pos 12; sub_list = pos 0; mini_header = false })
            (args_of left_up)
      frame ← parse_data_frame (bytes ++ 255 ∷ []) false max_frame_size
      decode_inputs_message frame)
    ≡ ok (some left_up)
decode-encode_example =
    decode-encode left_up false 12 0 (255 ∷ [])
      ((omega arith, omega arith), (omega arith, omega arith), omega arith) (omega arith)
      (omega arith)
