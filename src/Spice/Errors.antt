-- ===== src/Spice/Errors.antt =====
-- The exceptions of linux/src/ydyun_spice.py. `need_more_data` is the class `NeedMoreData`,
-- `protocol` is `SpiceProtocolError` with its message as a reason, and `struct_error` is what
-- `struct.unpack_from` raises on a buffer that is too short, and `index_error` what indexing raises.
use ydyun_vdesktop_linux_dri.Base.{ℕ}

pub data Reason : Type 0 where
  payload_size : ℕ → ℕ → Reason
  invalid_magic : ℕ → Reason
  ends_before_clip clip_ends_before_count clip_exceeds_message : Reason
  stream_create_short stream_data_short stream_destroy_short surface_create_short : Reason
  sized_stream_data_short : Reason
  stream_data_exceeds sized_stream_data_exceeds sample_exceeds : Reason
  key_short scancode_empty scancode_too_long modifiers_short : Reason
  mouse_motion_short mouse_position_short mouse_button_short : Reason
  requires_fields : ℕ → Reason
  not_an_integer_in_range : Reason
  scancodes_length : Reason
  unsupported_message_type : ℕ → Reason
  url_empty url_too_long url_has_space url_without_scheme unsupported_scheme : Reason
  invalid_field_count endpoint_has_space endpoint_malformed endpoint_incomplete : Reason
  endpoint_has_userinfo endpoint_has_path host_malformed : Reason
  no_link_header trailing_bytes : Reason
  serial_out_of_range sub_list_out_of_range : Reason

pub data SpiceError : Type 0 where
  need_more_data : SpiceError
  protocol : Reason → SpiceError
  struct_error index_error : SpiceError
