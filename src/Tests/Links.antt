-- ===== src/Tests/Links.antt =====
-- Runs of the queue and the bridge of linux/src/ydyun_usbctl.py.
use ydyun_vdesktop_linux_dri.Usb.Bridge.Joins.{IsJoined, waiting-IsJoined}
use ydyun_vdesktop_linux_dri.Base.{
  ℕ, ◌≤◌, ◌≡◌, refl, ◌⊎◌, false, List, [], ◌∷◌, ◌++◌, some, none, arith, length, All, any,
  replicate, field_le, Text, strip, is_space, drop_spaces, ok, true, inl,
}
use ydyun_vdesktop_linux_dri.Usb.Names.{in_shell_chars, bad_in_busid, validate_busid, IsBusid}
use ydyun_vdesktop_linux_dri.Usb.Socket.{chunk, recv_exact, recv_loop, recv}
use ydyun_vdesktop_linux_dri.Usb.Backward.{
  backward_frame_size, busid_field, before_nul, not_printable, parse_backward_frame,
  backward_frame_busid,
}
use ydyun_vdesktop_linux_dri.Usb.Backward.Busid.{backward_frame_busid-IsBusid}
use ydyun_vdesktop_linux_dri.Usb.Queue.{
  PendingLink, take_pending, same_busid, select, find_first, remove_link, put_nowait,
}
use ydyun_vdesktop_linux_dri.Usb.Queue.Laws.{TakesFirst, take_pending_busid}
use ydyun_vdesktop_linux_dri.Usb.Bridge.{
  BridgeSettings, prepare_remote, read_link, enqueue, close_remote, detach_link, remove_one, Client,
  open_local, read_request,
}
use ydyun_vdesktop_linux_dri.Usb.Bridge.Steps.{
  System, start, accept_remote, remote_ready, Reach, here, next, Step, accept_local, local_ready,
}
use ydyun_vdesktop_linux_dri.Usb.Bridge.Ownership.{AllOwned, Reach-AllOwned}

-- "1-1"
abbrev first_port : Text
first_port = b'1' ∷ b'-' ∷ b'1' ∷ []

abbrev second_port : Text
second_port = b'1' ∷ b'-' ∷ b'2' ∷ []

padded : validate_busid (b' ' ∷ first_port ++ b' ' ∷ []) ≡ ok first_port
unfolding validate_busid bad_in_busid in_shell_chars strip is_space drop_spaces
padded = refl

first_port-IsBusid : IsBusid first_port
unfolding is_space in_shell_chars
first_port-IsBusid = record {
  not_empty = omega arith;
  short = omega arith;
  no_slash = refl;
  no_backslash = refl;
  no_space = refl;
  no_shell = refl;
}

abbrev first_link : PendingLink
first_link = record { connection = 10; command = 1; busid = first_port }

abbrev second_link : PendingLink
second_link = record { connection = 11; command = 1; busid = second_port }

abbrev two_links : List PendingLink
two_links = first_link ∷ second_link ∷ []

take_pending_busid_example :
    ((link : PendingLink)
      → (take_pending (some second_port) two_links).0 ≡ some link
      → TakesFirst
          (same_busid second_port)
          two_links
          link
          (take_pending (some second_port) two_links).1)
    × ((take_pending (some second_port) two_links).0 ≡ none
        → All (λ item. same_busid second_port item ≡ false) two_links
          × ((take_pending (some second_port) two_links).1 ≡ two_links))
take_pending_busid_example = take_pending_busid b'1' (b'-' ∷ b'2' ∷ []) two_links

second_taken : take_pending (some second_port) two_links ≡ (some second_link, first_link ∷ [])
unfolding take_pending select find_first same_busid remove_link
second_taken = refl

-- A frame that announces port 1-1.
abbrev attach_frame : List ℕ
attach_frame =
    (2 ∷ 2 ∷ replicate 6 0)
    ++ ((1 ∷ 0 ∷ 0 ∷ 0 ∷ replicate 388 0) ++ (first_port ++ replicate 125 0))

attach_frame_busid : backward_frame_busid attach_frame ≡ ok first_port
unfolding backward_frame_busid parse_backward_frame before_nul validate_busid bad_in_busid
    in_shell_chars strip is_space drop_spaces
attach_frame_busid = refl

backward_frame_busid-IsBusid_example :
    (first_port ≡ before_nul (busid_field attach_frame))
    × (length first_port ≤ 127)
    × (any not_printable first_port ≡ false)
    × IsBusid first_port
    × (length attach_frame ≡ backward_frame_size)
    × ((field_le 8 4 attach_frame ≡ 1) ⊎ (field_le 8 4 attach_frame ≡ 2))
backward_frame_busid-IsBusid_example =
    backward_frame_busid-IsBusid attach_frame first_port attach_frame_busid

abbrev one_link : BridgeSettings
one_link = record { max_pending = 1; allowed_ops = 1 ∷ 2 ∷ []; auto_attach = false }

-- A vendor connection is accepted, its frame received, and the link drained at the end.
abbrev accepted : System
accepted = record start { accepted = 10 ∷ []; bridge = record (start.bridge) { reading = 10 ∷ [] } }

abbrev queued : System
queued = record accepted { bridge = record (start.bridge) { pending = first_link ∷ [] } }

link_queued : prepare_remote one_link 10 (chunk attach_frame ∷ []) accepted.bridge ≡ queued.bridge
unfolding prepare_remote read_link enqueue close_remote detach_link remove_one recv_exact recv_loop
    recv put_nowait backward_frame_busid parse_backward_frame before_nul validate_busid bad_in_busid
    in_shell_chars strip is_space drop_spaces
link_queued = refl

queued-Reach : Reach one_link queued
queued-Reach = rw (← link_queued) (
    next (next here (accept_remote 10 refl))
      (remote_ready 10 (chunk attach_frame ∷ []) (omega arith)))

Reach-AllOwned_example : AllOwned queued
Reach-AllOwned_example = Reach-AllOwned queued-Reach

-- A local client connects and asks for the bus ID of the link in the queue.
abbrev request : List ℕ
request = 1 ∷ 17 ∷ 0x80 ∷ 3 ∷ 0 ∷ 0 ∷ 0 ∷ 0 ∷ (first_port ++ replicate 29 0)

abbrev client : Client
client = record { local = 20; requested = some first_port; initial = request }

abbrev opened : System
opened = record queued {
  accepted_locals = 20 ∷ [];
  bridge = record (queued.bridge) { opening = 20 ∷ [] };
}

abbrev asked : System
asked = record queued {
  accepted_locals = 20 ∷ [];
  bridge = record (queued.bridge) { waiting = client ∷ [] };
}

client_opened : open_local 20 (chunk request ∷ []) opened.bridge ≡ asked.bridge
unfolding open_local read_request recv_exact recv_loop recv before_nul validate_busid strip
    drop_spaces is_space bad_in_busid remove_one
client_opened = refl

asked-Reach : Reach one_link asked
asked-Reach = rw (← client_opened) (
    next (next queued-Reach (accept_local 20 refl))
      (local_ready 20 (chunk request ∷ []) (omega arith)))

link_there : any (same_busid first_port) asked.bridge.pending ≡ true
unfolding same_busid
link_there = refl

waiting-IsJoined_example :
    (t : System) × Step one_link asked t
    × Reach one_link t
    × IsJoined client first_port asked.bridge t.bridge
waiting-IsJoined_example =
    waiting-IsJoined client b'1' (b'-' ∷ b'1' ∷ []) asked-Reach (inl refl) refl link_there
