-- ===== src/Spice/Frame.antt =====
-- linux/src/ydyun_spice.py: the link header and one data frame. A buffer is a list of bytes.
pub mod Laws
pub mod Packets
use ydyun_vdesktop_linux_dri.Base.{
  ℕ, ◌+◌, ◌*◌, Bool, true, false, List, ◌++◌, map, Option, none, some, ltb, ◌==◌, not,
  if◌then◌else◌, length, take, drop, pack_le, field_le, Result, ok, err, ◌>>=◌, ◌>>◌, raise_if,
}
use ydyun_vdesktop_linux_dri.Spice.Errors.{
  SpiceError, need_more_data, protocol, payload_size, invalid_magic,
}

abbrev pub spice_magic : ℕ
spice_magic = 0x51444552

abbrev pub max_frame_size : ℕ
max_frame_size = 64 * 1024 * 1024

abbrev pub ice_link_message_max : ℕ
ice_link_message_max = 0x2800

-- LINK_HEADER "<IIII", DATA_HEADER "<QHII" and MINI_DATA_HEADER "<HI".
abbrev pub link_header_size : ℕ
link_header_size = 16

abbrev pub header_size : Bool → ℕ
header_size mini_header = if mini_header then 6 else 18

pub record SpiceLinkHeader : Type 0 where
  pub magic : ℕ
  pub major_version : ℕ
  pub minor_version : ℕ
  pub size : ℕ

pub record SpiceDataFrame : Type 0 where
  pub serial : Option ℕ
  pub message_type : ℕ
  pub size : ℕ
  pub sub_list : Option ℕ
  pub payload : List ℕ
  pub mini_header : Bool

-- A byte that is not ASCII is decoded as U+FFFD.
unfoldable pub magic_text : SpiceLinkHeader → List ℕ
magic_text h = map (λ b. if ltb b 128 then b else 0xfffd) (pack_le 4 h.magic)

-- A size is never below 0 here: it was unpacked from an unsigned field.
pub check_size : ℕ → ℕ → Result SpiceError (Unit {0})
check_size size max_size = raise_if (ltb max_size size) (protocol (payload_size size max_size))

unfoldable pub parse_link_header : List ℕ → ℕ → Result SpiceError SpiceLinkHeader
unfolding check_size
parse_link_header bytes max_size = do
  raise_if (ltb (length bytes) link_header_size) need_more_data
  let magic = field_le 0 4 bytes
  let size = field_le 12 4 bytes
  raise_if (not (magic == spice_magic)) (protocol (invalid_magic magic))
  check_size size max_size
  ok (record {
    magic = magic;
    major_version = field_le 4 4 bytes;
    minor_version = field_le 8 4 bytes;
    size = size;
  })

-- `header.unpack_from(data)` for the two layouts: the fields and no payload yet.
pub unpack_header : Bool → List ℕ → SpiceDataFrame
unpack_header true bytes = record {
  serial = none;
  message_type = field_le 0 2 bytes;
  size = field_le 2 4 bytes;
  sub_list = none;
  payload = List.[];
  mini_header = true;
}
unpack_header false bytes = record {
  serial = some (field_le 0 8 bytes);
  message_type = field_le 8 2 bytes;
  size = field_le 10 4 bytes;
  sub_list = some (field_le 14 4 bytes);
  payload = List.[];
  mini_header = false;
}

unfoldable pub parse_data_frame : List ℕ → Bool → ℕ → Result SpiceError SpiceDataFrame
unfolding check_size unpack_header
parse_data_frame bytes mini_header max_size = do
  raise_if (ltb (length bytes) (header_size mini_header)) need_more_data
  let frame = unpack_header mini_header bytes
  check_size frame.size max_size
  raise_if (ltb (length bytes) (header_size mini_header + frame.size)) need_more_data
  ok (record frame { payload = take frame.size (drop (header_size mini_header) bytes) })

-- `MINI_DATA_HEADER.pack(...)` and `DATA_HEADER.pack(...)` of the sender.
abbrev pub pack_mini_header : ℕ → ℕ → List ℕ
pack_mini_header message_type size = pack_le 2 message_type ++ pack_le 4 size

abbrev pub pack_data_header : ℕ → ℕ → ℕ → ℕ → List ℕ
pack_data_header serial message_type size sub_list =
    pack_le 8 serial ++ pack_le 2 message_type ++ pack_le 4 size ++ pack_le 4 sub_list
