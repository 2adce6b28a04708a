-- ===== src/Usb/Queue.antt =====
-- linux/src/ydyun_usbctl.py, class BackwardBridge: the queue of validated links, under its mutex.
pub mod Laws
use ydyun_vdesktop_linux_dri.Base.{
  ℕ, ◌+◌, ◌≤◌, Bool, true, false, ◌&&◌, List, [], ◌∷◌, ◌++◌, Option, none, some, ltb, leb, ◌==◌,
  if◌then◌else◌, length, Text, text_eq, Result, ok, err, not,
}
use ydyun_vdesktop_linux_dri.Usb.Errors.{UsbError, queue_full}

-- A socket is modelled by a number that tells it from the others.
pub record PendingLink : Type 0 where
  pub connection : ℕ
  pub command : ℕ
  pub busid : Text

-- The equality of the frozen dataclass.
abbrev pub link_eq : PendingLink → PendingLink → Bool
link_eq a b = a.connection == b.connection && a.command == b.command && text_eq a.busid b.busid

-- `deque.remove`: the first item that is equal.
unfoldable pub remove_link : PendingLink → List PendingLink → List PendingLink
remove_link link [] = []
remove_link link (item ∷ items) = if link_eq item link then items else item ∷ remove_link link items

-- `put_nowait` on a queue that holds `max_pending` links at most, or any number if that is 0.
unfoldable pub put_nowait : ℕ → PendingLink → List PendingLink → Result UsbError (List PendingLink)
put_nowait max_pending link queue =
    if not (max_pending == 0) && leb max_pending (length queue)
    then err queue_full
    else ok (queue ++ link ∷ [])

-- `for item in queue: if ...: selected = item; break`
unfoldable pub find_first : (PendingLink → Bool) → List PendingLink → Option PendingLink
find_first test [] = none
find_first test (item ∷ items) = if test item then some item else find_first test items

unfoldable pub same_connection : ℕ → PendingLink → Bool
same_connection connection item = item.connection == connection

unfoldable pub same_busid : Text → PendingLink → Bool
same_busid busid item = text_eq item.busid busid

-- `_remove_pending`: the item of this socket, and nothing if there is none.
pub remove_pending : ℕ → List PendingLink → List PendingLink
unfolding find_first remove_link same_connection
remove_pending connection queue = elim (find_first (same_connection connection) queue) [
  | none ↦ queue
  | some item ↦ remove_link item queue
]

-- The selection: `None` and the empty text ask for any link, and take the oldest.
unfoldable pub select : Option Text → List PendingLink → Option PendingLink
unfolding find_first same_busid
select none [] = none
select none (item ∷ items) = some item
select (some []) [] = none
select (some []) (item ∷ items) = some item
select (some (c ∷ busid)) queue = find_first (same_busid (c ∷ busid)) queue

-- `_take_pending`
unfoldable pub take_pending : Option Text → List PendingLink → Option PendingLink × List PendingLink
unfolding select remove_link
take_pending busid queue = elim (select busid queue) [
  | none ↦ (none, queue)
  | some link ↦ (some link, remove_link link queue)
]
