-- ===== src/Usb/Bridge/Bounds.antt =====
-- The queue of links stays within its limit, and relays join each local client once.
use ydyun_vdesktop_linux_dri.Base.{
  ℕ, ◌≤◌, ◌≡◌, refl, inl, inr, [], ◌∷◌, arith, length, length-append, Result-cases,
}
use ydyun_vdesktop_linux_dri.Usb.Socket.{Socket}
use ydyun_vdesktop_linux_dri.Usb.Queue.{PendingLink}
use ydyun_vdesktop_linux_dri.Usb.Queue.Laws.{
  put_nowait_cases, length-remove_pending, length-take_pending,
}
use ydyun_vdesktop_linux_dri.Usb.Bridge.{
  BridgeSettings, Bridge, Client, read_link, close_remote, close_local, enqueue, detach_link,
  prepare_remote, attach_failed, attach_succeeded, open_local, read_request, take_round, give_up,
  drain,
}
use ydyun_vdesktop_linux_dri.Usb.Bridge.Steps.{
  System, Step, accept_remote, accept_local, remote_ready, attach_ends, attach_fails, local_ready,
  takes, times_out, stops, Reach, here, next,
}

module _ (max : ℕ) (positive : 1 ≤ max) where
  abbrev Fits : Bridge → Type 0
  Fits b = length b.pending ≤ max

  prepared-Fits :
      (s : BridgeSettings) (x : ℕ) (sock : Socket) (b : Bridge)
      → s.max_pending ≡ max
      → Fits b
      → Fits (prepare_remote s x sock b)
  unfolding prepare_remote detach_link enqueue close_remote
  prepared-Fits s x sock b m v = elim (Result-cases (read_link s sock)) [
    | inr (e, failed) ↦ rw (failed, prepare_remote) v
    | inl ((command, busid), read) ↦
        let link : PendingLink = record { connection = x; command = command; busid = busid } in
        rw (read, prepare_remote)
          (ground (
            arith,
            put_nowait_cases s.max_pending link b.pending,
            length-append b.pending (link ∷ []),
          ))
  ]

  taken-Fits : (client : Client) (b : Bridge) → Fits b → Fits (take_round client b)
  unfolding take_round
  taken-Fits client b v = ground (arith, length-take_pending client.requested b.pending)

  open_local-Fits : (l : ℕ) (sock : Socket) (b : Bridge) → Fits b → Fits (open_local l sock b)
  unfolding open_local close_local
  open_local-Fits l sock b v = elim (Result-cases (read_request sock)) [
    | inr (e, failed) ↦ rw (failed, open_local) v
    | inl ((requested, initial, sock'), read) ↦ rw (read, open_local) v
  ]

  attach_failed-Fits : (x : ℕ) (b : Bridge) → Fits b → Fits (attach_failed x b)
  unfolding attach_failed close_remote
  attach_failed-Fits x b v = omega (arith, length-remove_pending x b.pending)

Step-Fits :
    {settings : BridgeSettings} {s t : System}
    → 1 ≤ settings.max_pending
    → Step settings s t
    → length s.bridge.pending ≤ settings.max_pending
    → length t.bridge.pending ≤ settings.max_pending
unfolding attach_succeeded give_up close_local drain
Step-Fits p (accept_remote x h) v = v
Step-Fits p (accept_local l h) v = v
Step-Fits {settings} {s} p (remote_ready x sock h) v =
    prepared-Fits settings.max_pending p settings x sock s.bridge refl v
Step-Fits p (attach_ends x h) v = v
Step-Fits {settings} {s} p (attach_fails x h) v =
    attach_failed-Fits settings.max_pending p x s.bridge v
Step-Fits {settings} {s} p (local_ready l sock h) v =
    open_local-Fits settings.max_pending p l sock s.bridge v
Step-Fits {settings} {s} p (takes client h) v = taken-Fits settings.max_pending p client s.bridge v
Step-Fits p (times_out client h) v = v
Step-Fits p stops v = omega arith

-- With a limit above 0, in every reachable state the queue holds no more links than the settings allow, whatever order the
-- threads run in.
pub Reach-bounded :
    {settings : BridgeSettings} {s : System}
    → 1 ≤ settings.max_pending
    → Reach settings s
    → length s.bridge.pending ≤ settings.max_pending
Reach-bounded p here = omega arith
Reach-bounded p (next r step) = Step-Fits p step (Reach-bounded p r)
