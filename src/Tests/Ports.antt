-- ===== src/Tests/Ports.antt =====
-- Runs of the port listing and of the watches of linux/src/ydyun_usbctl.py.
use ydyun_vdesktop_linux_dri.Base.{
  ℕ, ◌≡◌, refl, ◌↔◌, Bool, true, false, ◌||◌, ◌&&◌, not, leb, [], ◌∷◌, some, none, arith, Text,
  codes, one_of, contains, starts_with, strip, is_space, drop_spaces, ok, err,
}
use ydyun_vdesktop_linux_dri.Usb.Ports.{
  is_index, lines_from, split_lines, word, behind_word, second_word, drop_colons, current_index,
  add_match, port_loop, port_indexes_for_busids, busids_in_ports,
}
use ydyun_vdesktop_linux_dri.Usb.Ports.Blocks.{Listed, port_indexes-Listed}
use ydyun_vdesktop_linux_dri.Usb.Errors.{controller, command_failed, os_error}
use ydyun_vdesktop_linux_dri.Usb.Watch.{
  DeviceSpec, Answer, Pass, Stopped, next_result, attempt_all, refresh, watch_pass, watch_passes,
  detach_ports, detach_found, shut_down, watch, export_passes, export_watch,
}
use ydyun_vdesktop_linux_dri.Usb.Watch.Members.{
  busids_of, succeeded, called, remains, watch_pass_lem,
}
use ydyun_vdesktop_linux_dri.Usb.Watch.Sorted.{IsAscending}
use ydyun_vdesktop_linux_dri.Usb.Watch.Shutdown.{watch_detaches, export_watch_returns}

abbrev ascii_digit : ℕ → Bool
ascii_digit c = leb b'0' c && leb c b'9'

-- Only the device 1-10 is attached.
abbrev listing : Text
listing = codes "Port 07: <in use>\n 5-1 -> usbip://h/1-10\n"

abbrev short : Text
short = codes "1-1"

abbrev long : Text
long = codes "1-10"

found_long : port_indexes_for_busids ascii_digit listing (long ∷ []) ≡ ok (codes "07" ∷ [])
unfolding port_indexes_for_busids port_loop split_lines lines_from current_index second_word word
    behind_word drop_colons add_match strip drop_spaces is_space starts_with contains
found_long = refl

found_short : port_indexes_for_busids ascii_digit listing (short ∷ []) ≡ ok (codes "07" ∷ [])
unfolding port_indexes_for_busids port_loop split_lines lines_from current_index second_word word
    behind_word drop_colons add_match strip drop_spaces is_space starts_with contains
found_short = refl

port_indexes-Listed_example : (one_of (codes "07") (codes "07" ∷ []) ≡ true) ↔ (
    (is_index ascii_digit (codes "07") ≡ true)
    × Listed (long ∷ []) none (split_lines listing) (codes "07"))
port_indexes-Listed_example =
    port_indexes-Listed ascii_digit listing (long ∷ []) (codes "07" ∷ []) (codes "07") found_long

short_in_long : contains short long ≡ true
unfolding contains starts_with
short_in_long = refl

abbrev mouse : DeviceSpec
mouse = record { busid = long; name = codes "mouse" }

abbrev returned : Answer
returned = ok tt

abbrev refused : Answer
refused = err (controller command_failed)

abbrev mouse_pass : Pass
mouse_pass = record { listing = ok listing; answers = returned ∷ [] }

-- An exception that is not ControllerError ends the pass before the next device.
broken_pass :
    (watch_pass (mouse ∷ mouse ∷ []) (record mouse_pass { answers = err os_error ∷ [] }) []).escaped
    ≡ some os_error
unfolding watch_pass attempt_all next_result refresh busids_in_ports
broken_pass = refl

pass_ended : (watch_pass (mouse ∷ []) mouse_pass []).escaped ≡ none
unfolding watch_pass attempt_all next_result refresh busids_in_ports
pass_ended = refl

watch_pass_lem_example :
    (one_of long (watch_pass (mouse ∷ []) mouse_pass []).members ≡ (
      remains (ok listing) long [] || succeeded long (watch_pass (mouse ∷ []) mouse_pass []).calls))
    × (called long (watch_pass (mouse ∷ []) mouse_pass []).calls
        ≡ (not (remains (ok listing) long []) && one_of long (busids_of (mouse ∷ []))))
watch_pass_lem_example = watch_pass_lem (mouse ∷ []) mouse_pass [] long pass_ended

mouse_detached :
    one_of
      (codes "07")
      (watch ascii_digit
        (mouse ∷ [])
        true
        false
        (mouse_pass ∷ mouse_pass ∷ [])
        (ok listing)
        (returned ∷ [])).called
    ≡ true
unfolding watch watch_passes watch_pass attempt_all next_result refresh busids_in_ports shut_down
    detach_found detach_ports port_indexes_for_busids port_loop split_lines lines_from current_index
    second_word word behind_word drop_colons add_match strip drop_spaces is_space starts_with
    contains
mouse_detached = refl

watch_detaches_example :
    (true ≡ true)
    × ((output : Text) × (busid : Text) × (mouse_pass.listing ≡ ok output)
        × (one_of busid (busids_of (mouse ∷ [])) ≡ true)
        × Listed (busid ∷ []) none (split_lines output) (codes "07"))
watch_detaches_example =
    watch_detaches ascii_digit (mouse ∷ []) true false (mouse_pass ∷ mouse_pass ∷ []) (ok listing)
      (returned ∷ []) (codes "07") mouse_detached

abbrev ended : Stopped
ended = export_watch (mouse ∷ []) false ((refused ∷ []) ∷ (returned ∷ []) ∷ []) (returned ∷ [])

export_watch_returns_example :
    (ended.escaped ≡ none)
    × IsAscending ended.called
    × ((busid : Text)
        → one_of busid ended.called
          ≡ succeeded busid
              (export_passes (mouse ∷ []) false ((refused ∷ []) ∷ (returned ∷ []) ∷ []) []).calls)
export_watch_returns_example =
    export_watch_returns (mouse ∷ []) false ((refused ∷ []) ∷ (returned ∷ []) ∷ []) (returned ∷ [])
      (omega arith) ((refl, tt), ((refl, tt), tt)) (refl, tt)
