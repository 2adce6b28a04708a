-- ===== src/Spice/Frame/Packets.antt =====
-- Frames as a sender packs them: `DATA_HEADER.pack` or `MINI_DATA_HEADER.pack` and the payload.
use ydyun_vdesktop_linux_dri.Base.{
  ℕ, ◌^◌, ◌≤◌, ◌<◌, ◌≡◌, refl, ap, ◌∙◌, Bool, true, false, List, [], ◌++◌, none, some, arith,
  length, drop, ok, length-append, take-length, append_assoc, if◌then◌else◌,
}
use ydyun_vdesktop_linux_dri.Spice.Frame.{
  SpiceDataFrame, header_size, unpack_header, parse_data_frame, pack_mini_header, pack_data_header,
}
use ydyun_vdesktop_linux_dri.Spice.Frame.Laws.{front_frame, parse_data_frame_reads}

pub record Packet : Type 0 where
  pub serial : ℕ
  pub message_type : ℕ
  pub sub_list : ℕ
  pub payload : List ℕ

-- Every field fits the width of its place in the header.
pub record IsPacket (max : ℕ) (p : Packet) : Type 0 where
  pub serial_fits : p.serial < 2 ^ 64
  pub type_fits : p.message_type < 2 ^ 16
  pub sub_list_fits : p.sub_list < 2 ^ 32
  pub size_fits : length p.payload < 2 ^ 32
  pub size_allowed : length p.payload ≤ max

abbrev pub packet_header : Bool → Packet → List ℕ
packet_header true p = pack_mini_header p.message_type (length p.payload)
packet_header false p = pack_data_header p.serial p.message_type (length p.payload) p.sub_list

abbrev pub packet_bytes : Bool → Packet → List ℕ
packet_bytes mini p = packet_header mini p ++ p.payload

-- The mini layout carries neither a serial nor a sub-list.
abbrev pub packet_frame : Bool → Packet → SpiceDataFrame
packet_frame mini p = record {
  serial = if mini then none else some p.serial;
  message_type = p.message_type;
  size = length p.payload;
  sub_list = if mini then none else some p.sub_list;
  payload = p.payload;
  mini_header = mini;
}

pub length-packet_header :
    (mini : Bool) (p : Packet) → length (packet_header mini p) ≡ header_size mini
length-packet_header true p = refl
length-packet_header false p = refl

unpack_header-packet :
    (mini : Bool) (p : Packet) (rest : List ℕ) (max : ℕ)
    → IsPacket max p
    → unpack_header mini (packet_header mini p ++ rest)
      ≡ record (packet_frame mini p) { payload = [] }
unfolding unpack_header
unpack_header-packet true p rest max v = ground arith
unpack_header-packet false p rest max v = ground arith

pub drop-packet_header :
    (mini : Bool) (p : Packet) (rest : List ℕ)
    → drop (header_size mini) (packet_header mini p ++ rest) ≡ rest
drop-packet_header true p rest = refl
drop-packet_header false p rest = refl

front_frame-packet :
    (mini : Bool) (max : ℕ) (p : Packet) (rest : List ℕ)
    → IsPacket max p
    → front_frame mini (packet_header mini p ++ p.payload ++ rest) ≡ packet_frame mini p
front_frame-packet mini max p rest v =
    let tail = p.payload ++ rest in
    rw (
      append_assoc (packet_header mini p) p.payload rest,
      unpack_header-packet mini p tail max v,
      drop-packet_header mini p tail,
      take-length p.payload rest,
    )

-- A frame that was packed from fields that fit their places in the header, with a payload within
-- the limit, is read back with that payload, whatever follows it in the buffer.
pub parse_data_frame-packet_bytes :
    (mini : Bool) (max : ℕ) (p : Packet) (rest : List ℕ)
    → IsPacket max p
    → parse_data_frame (packet_bytes mini p ++ rest) mini max ≡ ok (packet_frame mini p)
parse_data_frame-packet_bytes mini max p rest v =
    let head = packet_header mini p in
    let tail = p.payload ++ rest in
    let read = unpack_header-packet mini p tail max v in
    rw (append_assoc head p.payload rest) (
      parse_data_frame_reads (head ++ tail) mini max
        (rw read (
          omega (
            arith,
            length-append head tail,
            length-append p.payload rest,
            length-packet_header mini p,
          )))
        (rw read v.size_allowed)
      ∙ ap ok (rw (append_assoc head p.payload rest) at (front_frame-packet mini max p rest v)))
