-- ===== src/Spice/Frame/Laws.antt =====
-- What `parse_data_frame` takes from a buffer, and that bytes behind the frame do not matter.
use ydyun_vdesktop_linux_dri.Base.{
  ℕ, ◌+◌, ◌≤◌, ◌≡◌, sym, ap, ◌∙◌, Bool, true, false, List, ◌++◌, arith, length, take, drop,
  unpack_le, field_le, ok, err, length-append, take-append, drop-append, length-drop, length-take,
}
use ydyun_vdesktop_linux_dri.Spice.Errors.{protocol, struct_error, index_error, Reason}
use ydyun_vdesktop_linux_dri.Spice.Frame.{
  SpiceDataFrame, header_size, unpack_header, parse_data_frame,
}

-- A field inside the first part does not see what follows.
pub field_le-append :
    (at w : ℕ) (xs ys : List ℕ) → at + w ≤ length xs → field_le at w (xs ++ ys) ≡ field_le at w xs
field_le-append at w xs ys h = ap unpack_le (
    ap (take w) (drop-append at xs ys (omega arith))
    ∙ take-append w (drop at xs) ys (omega (arith, length-drop at xs)))

pub unpack_header-append :
    (mini : Bool) (xs ys : List ℕ)
    → header_size mini ≤ length xs
    → unpack_header mini (xs ++ ys) ≡ unpack_header mini xs
unfolding unpack_header
unpack_header-append true xs ys h =
    ground (arith, field_le-append 0 2 xs ys, field_le-append 2 4 xs ys)
unpack_header-append false xs ys h = ground (
  arith,
  field_le-append 0 8 xs ys,
  field_le-append 8 2 xs ys,
  field_le-append 10 4 xs ys,
  field_le-append 14 4 xs ys,
)

-- The frame that a successful call returns lies whole in the buffer.
pub parse_data_frame_fits :
    (bytes : List ℕ) (mini : Bool) (max : ℕ) (f : SpiceDataFrame)
    → parse_data_frame bytes mini max ≡ ok f
    → (header_size mini + f.size ≤ length bytes)
      × (f.size ≤ max)
      × (f.payload ≡ take f.size (drop (header_size mini) bytes))
      × (length f.payload ≡ f.size)
unfolding parse_data_frame
parse_data_frame_fits bytes mini max f e =
    let size = (unpack_header mini bytes).size in
    ground (
      arith,
      length-take size (drop (header_size mini) bytes),
      length-drop (header_size mini) bytes,
    )

-- The frame that stands at the front of a buffer, if the whole of it is there.
abbrev pub front_frame : Bool → List ℕ → SpiceDataFrame
front_frame mini bytes =
    let head = unpack_header mini bytes in
    record head { payload = take head.size (drop (header_size mini) bytes) }

pub parse_data_frame_reads :
    (bytes : List ℕ) (mini : Bool) (max : ℕ)
    → header_size mini + (unpack_header mini bytes).size ≤ length bytes
    → (unpack_header mini bytes).size ≤ max
    → parse_data_frame bytes mini max ≡ ok (front_frame mini bytes)
unfolding parse_data_frame
parse_data_frame_reads bytes mini max h k = ground arith

pub parse_data_frame_inv :
    (bytes : List ℕ) (mini : Bool) (max : ℕ) (f : SpiceDataFrame)
    → parse_data_frame bytes mini max ≡ ok f
    → (f ≡ front_frame mini bytes)
      × (header_size mini + (unpack_header mini bytes).size ≤ length bytes)
      × ((unpack_header mini bytes).size ≤ max)
unfolding parse_data_frame
parse_data_frame_inv bytes mini max f e = ground arith

-- The frame does not depend on what stands behind it.
front_frame-append :
    (mini : Bool) (bytes more : List ℕ)
    → header_size mini + (unpack_header mini bytes).size ≤ length bytes
    → front_frame mini (bytes ++ more) ≡ front_frame mini bytes
front_frame-append mini bytes more h =
    let head = header_size mini in
    let size = (unpack_header mini bytes).size in
    rw (
      unpack_header-append mini bytes more (omega arith),
      drop-append head bytes more (omega arith),
      take-append size (drop head bytes) more (omega (arith, length-drop head bytes)),
    )

-- Neither a frame that was read nor a refusal changes when more bytes arrive behind it.
pub parse_data_frame-append_ok :
    (bytes more : List ℕ) (mini : Bool) (max : ℕ) (f : SpiceDataFrame)
    → parse_data_frame bytes mini max ≡ ok f
    → parse_data_frame (bytes ++ more) mini max ≡ ok f
parse_data_frame-append_ok bytes more mini max f e =
    let (same, fits, allowed) = parse_data_frame_inv bytes mini max f e in
    let head = unpack_header-append mini bytes more (omega arith) in
    parse_data_frame_reads (bytes ++ more) mini max
      (rw head (omega (arith, length-append bytes more))) (rw head allowed)
    ∙ ap ok (front_frame-append mini bytes more fits ∙ sym same)

pub parse_data_frame-append_protocol :
    (bytes more : List ℕ) (mini : Bool) (max : ℕ) (r : Reason)
    → parse_data_frame bytes mini max ≡ err (protocol r)
    → parse_data_frame (bytes ++ more) mini max ≡ err (protocol r)
unfolding parse_data_frame
parse_data_frame-append_protocol bytes more mini max r e =
    ground (arith, length-append bytes more, unpack_header-append mini bytes more)

pub parse_data_frame-ne-struct_error :
    (bytes : List ℕ) (mini : Bool) (max : ℕ)
    → ¬ (parse_data_frame bytes mini max ≡ err struct_error)
unfolding parse_data_frame
parse_data_frame-ne-struct_error bytes mini max e = ground arith

pub parse_data_frame-ne-index_error :
    (bytes : List ℕ) (mini : Bool) (max : ℕ) → ¬ (parse_data_frame bytes mini max ≡ err index_error)
unfolding parse_data_frame
parse_data_frame-ne-index_error bytes mini max e = ground arith
