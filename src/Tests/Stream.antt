-- ===== src/Tests/Stream.antt =====
-- Runs of the frame parser of linux/src/ydyun_spice.py.
use ydyun_vdesktop_linux_dri.Base.{ℕ, ◌≡◌, refl, inl, true, List, [], ◌∷◌, ◌++◌, arith, ok, ◌>>=◌}
use ydyun_vdesktop_linux_dri.Spice.Errors.{protocol, payload_size}
use ydyun_vdesktop_linux_dri.Spice.Frame.{
  SpiceDataFrame, parse_data_frame, parse_link_header, magic_text,
}
use ydyun_vdesktop_linux_dri.Spice.Frame.Packets.{Packet, IsPacket, packet_frame}
use ydyun_vdesktop_linux_dri.Spice.Stream.{SpiceDataParser, done, raised, new_parser, feed}
use ydyun_vdesktop_linux_dri.Spice.Stream.Loop.{Reads, Ends}
use ydyun_vdesktop_linux_dri.Spice.Stream.Chunks.{feed-Runs, feed_poisoned}
use ydyun_vdesktop_linux_dri.Spice.Stream.Delivery.{feed_all, feed_all-concat, feed_all-packets}

abbrev hello : Packet
hello = record { serial = 1; message_type = 101; sub_list = 0; payload = 7 ∷ 8 ∷ [] }

abbrev empty : Packet
empty = record { serial = 2; message_type = 103; sub_list = 5; payload = [] }

hello-IsPacket : IsPacket 64 hello
hello-IsPacket = record {
  serial_fits = omega arith;
  type_fits = omega arith;
  sub_list_fits = omega arith;
  size_fits = omega arith;
  size_allowed = omega arith;
}

empty-IsPacket : IsPacket 64 empty
empty-IsPacket = record {
  serial_fits = omega arith;
  type_fits = omega arith;
  sub_list_fits = omega arith;
  size_fits = omega arith;
  size_allowed = omega arith;
}

-- Both packets with mini headers, cut inside the first payload.
abbrev first_piece : List ℕ
first_piece = 101 ∷ 0 ∷ 2 ∷ 0 ∷ 0 ∷ 0 ∷ 7 ∷ []

abbrev second_piece : List ℕ
second_piece = 8 ∷ 103 ∷ 0 ∷ 0 ∷ 0 ∷ 0 ∷ 0 ∷ []

abbrev both_frames : List SpiceDataFrame
both_frames = packet_frame true hello ∷ packet_frame true empty ∷ []

feed_all-packets_example :
    feed_all (new_parser true 64) (first_piece ∷ second_piece ∷ [])
    ≡ (new_parser true 64, done both_frames)
feed_all-packets_example =
    feed_all-packets true 64 (hello ∷ empty ∷ []) (first_piece ∷ second_piece ∷ [])
      (hello-IsPacket, (empty-IsPacket, tt)) refl

whole_stream :
    feed (new_parser true 64) (first_piece ++ second_piece) ≡ (new_parser true 64, done both_frames)
unfolding feed new_parser parse_data_frame
whole_stream = refl

abbrev waiting_parser : SpiceDataParser
waiting_parser = record { mini_header = true; max_size = 64; buffer = [] }

waiting_parser-whole :
    feed waiting_parser (first_piece ++ second_piece) ≡ (waiting_parser, done both_frames)
unfolding feed parse_data_frame
waiting_parser-whole = refl

feed_all-concat_example :
    feed_all waiting_parser (first_piece ∷ second_piece ∷ []) ≡ (waiting_parser, done both_frames)
feed_all-concat_example =
    feed_all-concat (first_piece ∷ second_piece ∷ []) waiting_parser waiting_parser both_frames
      (inl refl) waiting_parser-whole

half_read :
    feed waiting_parser first_piece ≡ (record waiting_parser { buffer = first_piece }, done [])
unfolding feed parse_data_frame
half_read = refl

-- The header announces 65 bytes.
abbrev too_long : List ℕ
too_long = 101 ∷ 0 ∷ 65 ∷ 0 ∷ 0 ∷ 0 ∷ []

refused :
    feed waiting_parser too_long
    ≡ (record waiting_parser { buffer = too_long }, raised (protocol (payload_size 65 64)))
unfolding feed parse_data_frame
refused = refl

feed_poisoned_example :
    (feed (record waiting_parser { buffer = too_long }) (1 ∷ []) ≡ (
      record waiting_parser { buffer = too_long ++ 1 ∷ [] },
      raised (protocol (payload_size 65 64)),
    ))
    × (feed waiting_parser (too_long ++ 1 ∷ []) ≡ (
      record waiting_parser { buffer = too_long ++ 1 ∷ [] },
      raised (protocol (payload_size 65 64)),
    ))
feed_poisoned_example =
    feed_poisoned waiting_parser (record waiting_parser { buffer = too_long }) too_long (1 ∷ [])
      (protocol (payload_size 65 64)) refused

feed-Runs_example :
    (fs : List SpiceDataFrame) × Reads true 64 fs
      (first_piece ++ too_long)
      (feed waiting_parser (first_piece ++ too_long)).0.buffer
    × Ends true 64
        (feed waiting_parser (first_piece ++ too_long)).0.buffer
        fs
        (feed waiting_parser (first_piece ++ too_long)).1
feed-Runs_example = feed-Runs waiting_parser (first_piece ++ too_long)

link_magic :
    (do
      h ←
          parse_link_header
            (0x52 ∷ 0x45 ∷ 0x44 ∷ 0x51 ∷ 2 ∷ 0 ∷ 0 ∷ 0 ∷ 2 ∷ 0 ∷ 0 ∷ 0 ∷ 9 ∷ 0 ∷ 0 ∷ 0 ∷ [])
            16
      ok (magic_text h))
    ≡ ok (b'R' ∷ b'E' ∷ b'D' ∷ b'Q' ∷ [])
unfolding parse_link_header magic_text
link_magic = refl
