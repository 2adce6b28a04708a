-- ===== src/Usb/Errors.antt =====
-- The exceptions of linux/src/ydyun_usbctl.py: `controller` is ControllerError with its message as
-- a reason, `os_error` is OSError (a timeout of a socket too), and `struct_error` is struct.error, `index_error` is IndexError, `stop_iteration` is StopIteration, `value_error` is ValueError.
-- `out_of_fuel` is no Python exception: the model of a loop ran out of its rounds.

pub data Reason : Type 0 where
  invalid_boolean invalid_port port_out_of_range invalid_integer not_in_range : Reason
  invalid_host invalid_busid busid_too_long not_an_address : Reason
  host_not_ascii host_too_long port_too_long : Reason
  connection_closed : Reason
  lz4_size_out_of_bounds lz4_truncated_length lz4_literals_exceed lz4_output_exceeds : Reason
  lz4_truncated_offset lz4_invalid_offset lz4_match_exceeds lz4_size_mismatch : Reason
  frame_truncated frame_size_out_of_bounds payload_size_out_of_bounds payload_mismatch : Reason
  unsupported_compression : Reason
  raw_sizes_mismatch unsupported_frame_type : Reason
  wrong_frame_size wrong_version command_not_allowed : Reason
  busid_not_printable busid_not_ascii busid_empty : Reason
  no_usable_busid invalid_import_busid no_link : Reason
  missing_device unreadable_class hub_refused unresolved_driver unexpected_driver sysfs_write :
      Reason
  no_devices no_drivers_probe : Reason
  cannot_resolve version_mismatch unexpected_code peer_status : Reason
  device_not_configured not_a_port_index : Reason
  config_not_found missing_section not_a_number bridge_disabled ops_not_integers : Reason
  ops_not_allowed unknown_compression same_endpoints : Reason
  command_failed needs_root no_usbip unreachable : Reason

pub data UsbError : Type 0 where
  controller : Reason → UsbError
  os_error struct_error index_error stop_iteration queue_full value_error : UsbError
  out_of_fuel : UsbError
