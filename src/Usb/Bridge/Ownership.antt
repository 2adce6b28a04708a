-- ===== src/Usb/Bridge/Ownership.antt =====
-- Every connection that the bridge accepts is in one place at a time: its frame is being read, or it
-- is pending, or relayed; else it has been closed.
use ydyun_vdesktop_linux_dri.Base.{
  ℕ, ◌+◌, ◌≤◌, ◌≡◌, refl, Bool, ◌⊎◌, inl, inr, List, [], ◌∷◌, ◌++◌, arith, not, ◌&&◌, ◌==◌,
  if◌then◌else◌, length, Text, Option-cases, Bool-cases, Result-cases,
}
use ydyun_vdesktop_linux_dri.Usb.Socket.{Socket}
use ydyun_vdesktop_linux_dri.Usb.Queue.{PendingLink, take_pending}
use ydyun_vdesktop_linux_dri.Usb.Queue.Laws.{put_nowait_cases}
use ydyun_vdesktop_linux_dri.Usb.Bridge.{
  BridgeSettings, Bridge, Client, connections, remove_one, read_link, close_remote, close_local,
  enqueue, detach_link, prepare_remote, attach_failed, attach_succeeded, open_local, read_request,
  take_round, give_up, drain,
}
use ydyun_vdesktop_linux_dri.Usb.Bridge.Steps.{
  count, remotes, System, start, Step, accept_remote, accept_local, remote_ready, attach_ends,
  attach_fails, local_ready, takes, times_out, stops, Reach, here, next,
}
use ydyun_vdesktop_linux_dri.Usb.Bridge.Counts.{
  count-remove_one, count-put, count-remove_pending, count-taken, count-append,
}

-- The places of one connection.
pub record Owned (c : ℕ) (accepted : List ℕ) (b : Bridge) : Type 0 where
  pub accepted_once : count c accepted ≤ 1
  pub one_place :
      count c b.reading + count c (connections b.pending) + count c (remotes b.relays) ≤ 1
  pub known :
      count c b.reading + count c (connections b.pending) + count c (remotes b.relays)
      ≤ count c accepted
  pub not_lost :
      count c accepted
      ≤ count c b.reading
        + count c (connections b.pending)
        + count c (remotes b.relays)
        + count c b.closed
  pub closed_known : (count c b.closed ≡ 0) ⊎ (1 ≤ count c accepted)
  pub still_open :
      (count c b.reading + count c (connections b.pending) ≡ 0) ⊎ (count c b.closed ≡ 0)
  pub one_thread : count c b.attaching ≤ 1
  pub thread_after_reading :
      (count c b.attaching ≡ 0) ⊎ ((count c b.reading ≡ 0) × (1 ≤ count c accepted))

module _ (c : ℕ) (accepted : List ℕ) where
  -- A connection whose frame has been read and that is closed.
  closed-Owned :
      (x : ℕ) (b : Bridge)
      → 1 ≤ count x b.reading
      → Owned c accepted b
      → Owned c accepted (close_remote x (record b { reading = remove_one x b.reading }))
  unfolding close_remote
  closed-Owned x b h v = ground (arith, count-remove_one c x b.reading)

  detached-Owned :
      (s : BridgeSettings) (x : ℕ) (busid : Text) (b : Bridge)
      → 1 ≤ count x b.reading
      → Owned c accepted b
      → Owned c accepted (detach_link s x busid (record b { reading = remove_one x b.reading }))
  unfolding detach_link close_remote
  detached-Owned s x busid b h v = elim (Bool-cases (s.auto_attach && not (length busid == 0))) [
    | inl called ↦ rw called (ground (arith, closed-Owned x b h v, count-remove_one c x b.reading))
    | inr not_called ↦
        rw not_called (ground (arith, closed-Owned x b h v, count-remove_one c x b.reading))
  ]

  -- A link that the queue has taken, and the thread that may be started for it.
  queued-Owned :
      (x : ℕ) (link : PendingLink) (starts : Bool) (b : Bridge)
      → link.connection ≡ x
      → 1 ≤ count x b.reading
      → Owned c accepted b
      → Owned c accepted (record b {
        reading = remove_one x b.reading;
        pending = b.pending ++ link ∷ [];
        attaching = if starts then x ∷ b.attaching else b.attaching;
      })
  queued-Owned x link starts b e h v =
      ground (arith, count-remove_one c x b.reading, count-put c link b.pending)

  enqueued-Owned :
      (s : BridgeSettings) (x command : ℕ) (busid : Text) (b : Bridge)
      → 1 ≤ count x b.reading
      → Owned c accepted b
      → Owned c accepted (enqueue s x command busid (record b { reading = remove_one x b.reading }))
  unfolding enqueue
  enqueued-Owned s x command busid b h v =
      let link : PendingLink = record { connection = x; command = command; busid = busid } in
      elim (put_nowait_cases s.max_pending link b.pending) [
        | inl (e, full) ↦ rw (e, enqueue) (closed-Owned x b h v)
        | inr (e, room) ↦ rw (e, enqueue) (queued-Owned x link _ b refl h v)
      ]

  prepared-Owned :
      (s : BridgeSettings) (x : ℕ) (sock : Socket) (b : Bridge)
      → 1 ≤ count x b.reading
      → Owned c accepted b
      → Owned c accepted (prepare_remote s x sock b)
  unfolding prepare_remote
  prepared-Owned s x sock b h v = elim (Result-cases (read_link s sock)) [
    | inr (e, failed) ↦ rw (failed, prepare_remote) (closed-Owned x b h v)
    | inl ((command, busid), read) ↦
        rw (read, prepare_remote)
          (elim (Bool-cases (command == 2)) [
            | inl detach ↦ rw detach (detached-Owned s x busid b h v)
            | inr other ↦ rw other (enqueued-Owned s x command busid b h v)
          ])
  ]

  attach_failed-Owned :
      (x : ℕ) (b : Bridge)
      → 1 ≤ count x b.attaching
      → Owned c accepted b
      → Owned c accepted (attach_failed x b)
  unfolding attach_failed close_remote
  attach_failed-Owned x b h v =
      ground (arith, count-remove_one c x b.attaching, count-remove_pending c x b.pending)

  attach_succeeded-Owned :
      (x : ℕ) (b : Bridge)
      → 1 ≤ count x b.attaching
      → Owned c accepted b
      → Owned c accepted (attach_succeeded x b)
  unfolding attach_succeeded
  attach_succeeded-Owned x b h v = ground (arith, count-remove_one c x b.attaching)

  open_local-Owned :
      (l : ℕ) (sock : Socket) (b : Bridge)
      → Owned c accepted b
      → Owned c accepted (open_local l sock b)
  unfolding open_local close_local
  open_local-Owned l sock b v = elim (Result-cases (read_request sock)) [
    | inr (e, failed) ↦ rw (failed, open_local) (ground arith)
    | inl ((requested, initial, sock'), read) ↦ rw (read, open_local) (ground arith)
  ]

  taken-Owned :
      (client : Client) (b : Bridge) → Owned c accepted b → Owned c accepted (take_round client b)
  unfolding take_round
  taken-Owned client b v = elim (Option-cases (take_pending client.requested b.pending).0) [
    | inl e ↦ rw (e, take_round) v
    | inr (link, e) ↦
        rw (e, take_round) (ground (arith, count-taken c client.requested b.pending link e))
  ]

  give_up-Owned :
      (client : Client) (b : Bridge) → Owned c accepted b → Owned c accepted (give_up client b)
  unfolding give_up close_local
  give_up-Owned client b v = ground arith

  drain-Owned : (b : Bridge) → Owned c accepted b → Owned c accepted (drain b)
  unfolding drain
  drain-Owned b v = ground (arith, count-append c (connections b.pending) b.closed)

abbrev pub AllOwned : System → Type 0
AllOwned s = (c : ℕ) → Owned c s.accepted s.bridge

accepted-Owned :
    (c x : ℕ) (s : System)
    → count x s.accepted ≡ 0
    → Owned c s.accepted s.bridge
    → Owned c (x ∷ s.accepted) (record (s.bridge) { reading = x ∷ s.bridge.reading })
accepted-Owned c x s h v = ground arith

local_accepted-Owned :
    (c l : ℕ) (s : System)
    → Owned c s.accepted s.bridge
    → Owned c s.accepted (record (s.bridge) { opening = l ∷ s.bridge.opening })
local_accepted-Owned c l s v = ground arith

Step-AllOwned :
    {settings : BridgeSettings} {s t : System} → Step settings s t → AllOwned s → AllOwned t
Step-AllOwned {s} (accept_remote x h) v c = accepted-Owned c x s h (v c)
Step-AllOwned {s} (accept_local l h) v c = local_accepted-Owned c l s (v c)
Step-AllOwned {settings} {s} (remote_ready x sock h) v c =
    prepared-Owned c s.accepted settings x sock s.bridge h (v c)
Step-AllOwned {s} (attach_ends x h) v c = attach_succeeded-Owned c s.accepted x s.bridge h (v c)
Step-AllOwned {s} (attach_fails x h) v c = attach_failed-Owned c s.accepted x s.bridge h (v c)
Step-AllOwned {s} (local_ready l sock h) v c = open_local-Owned c s.accepted l sock s.bridge (v c)
Step-AllOwned {s} (takes client h) v c = taken-Owned c s.accepted client s.bridge (v c)
Step-AllOwned {s} (times_out client h) v c = give_up-Owned c s.accepted client s.bridge (v c)
Step-AllOwned {s} stops v c = drain-Owned c s.accepted s.bridge (v c)

start-AllOwned : AllOwned start
start-AllOwned c = ground arith

-- In every state that the threads can reach, each connection that the listener has accepted is
-- in one place at most (its frame being read, pending, or relayed), so that no link is handed to
-- two clients; one that is in no place has been closed; and none that is closed is still being
-- read or pending.
pub Reach-AllOwned : {settings : BridgeSettings} {s : System} → Reach settings s → AllOwned s
Reach-AllOwned here = start-AllOwned
Reach-AllOwned (next r step) = Step-AllOwned step (Reach-AllOwned r)
