-- ===== src/Usb/Bridge/Steps.antt =====
-- The threads of the bridge as a step relation: each step is one part of a handler, and any part that
-- can run may run next.
use ydyun_vdesktop_linux_dri.Base.{◌⊎◌, ℕ, ◌+◌, ◌≤◌, ◌≡◌, List, [], ◌∷◌, map, ◌==◌, if◌then◌else◌}
use ydyun_vdesktop_linux_dri.Usb.Socket.{Socket}
use ydyun_vdesktop_linux_dri.Usb.Bridge.{
  BridgeSettings, Bridge, Client, Relay, prepare_remote, attach_failed, attach_succeeded,
  open_local, take_round, give_up, drain,
}

abbrev pub count : ℕ → List ℕ → ℕ
count c [] = 0
count c (x ∷ xs) = (if x == c then 1 else 0) + count c xs

abbrev pub remotes : List Relay → List ℕ
remotes = map (λ relay. relay.remote)

abbrev pub relayed_locals : List Relay → List ℕ
relayed_locals = map (λ relay. relay.local)

abbrev pub clients : List Client → List ℕ
clients = map (λ client. client.local)

abbrev pub Among : Client → List Client → Type 0
Among client [] = ⊥
Among client (x ∷ xs) = (x ≡ client) ⊎ Among client xs

-- The bridge with the sockets that its listeners have accepted.
pub record System : Type 0 where
  pub accepted : List ℕ
  pub accepted_locals : List ℕ
  pub bridge : Bridge

abbrev pub start : System
start = record {
  accepted = [];
  accepted_locals = [];
  bridge = record {
    pending = [];
    reading = [];
    attaching = [];
    opening = [];
    waiting = [];
    relays = [];
    detaches = [];
    closed = [];
    closed_locals = [];
  };
}

abbrev with_bridge : System → Bridge → System
with_bridge s b = record s { bridge = b }

pub data Step (settings : BridgeSettings) (s : System) : System → Type 0 where
  -- The listeners: `accept` returns a socket that was not there before.
  accept_remote :
      (c : ℕ)
      → count c s.accepted ≡ 0
      → Step settings s (record s {
        accepted = c ∷ s.accepted;
        bridge = record (s.bridge) { reading = c ∷ s.bridge.reading };
      })
  accept_local :
      (l : ℕ)
      → count l s.accepted_locals ≡ 0
      → Step settings s (record s {
        accepted_locals = l ∷ s.accepted_locals;
        bridge = record (s.bridge) { opening = l ∷ s.bridge.opening };
      })
  -- The frame of a connection has been received, whatever it is, or receiving it has failed.
  remote_ready :
      (c : ℕ) (sock : Socket)
      → 1 ≤ count c s.bridge.reading
      → Step settings s (with_bridge s (prepare_remote settings c sock s.bridge))
  attach_ends :
      (c : ℕ)
      → 1 ≤ count c s.bridge.attaching
      → Step settings s (with_bridge s (attach_succeeded c s.bridge))
  attach_fails :
      (c : ℕ)
      → 1 ≤ count c s.bridge.attaching
      → Step settings s (with_bridge s (attach_failed c s.bridge))
  local_ready :
      (l : ℕ) (sock : Socket)
      → 1 ≤ count l s.bridge.opening
      → Step settings s (with_bridge s (open_local l sock s.bridge))
  takes :
      (client : Client)
      → Among client s.bridge.waiting
      → Step settings s (with_bridge s (take_round client s.bridge))
  times_out :
      (client : Client)
      → Among client s.bridge.waiting
      → Step settings s (with_bridge s (give_up client s.bridge))
  stops : Step settings s (with_bridge s (drain s.bridge))

pub data Reach (settings : BridgeSettings) : System → Type 0 where
  here : Reach settings start
  next : {s t : System} → Reach settings s → Step settings s t → Reach settings t
