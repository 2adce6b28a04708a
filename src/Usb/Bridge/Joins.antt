-- ===== src/Usb/Bridge/Joins.antt =====
-- Local clients that wait in linux/src/ydyun_usbctl.py, and the round that joins one to a link.
use ydyun_vdesktop_linux_dri.Base.{
  ℕ, ◌≡◌, refl, sym, ◌∙◌, ap, inl, inr, Bool, true, false, List, [], ◌∷◌, some, arith, All, any,
  Text, text_eq_iff, Option-cases,
}
use ydyun_vdesktop_linux_dri.Usb.Queue.{PendingLink, same_busid, take_pending}
use ydyun_vdesktop_linux_dri.Usb.Queue.Laws.{TakesFirst, take_pending_busid}
use ydyun_vdesktop_linux_dri.Usb.Bridge.{BridgeSettings, Bridge, Client, take_round, remove_client}
use ydyun_vdesktop_linux_dri.Usb.Bridge.Steps.{System, Step, takes, Reach, next, Among}

-- The client is joined to the oldest link of its bus ID, which leaves the queue.
abbrev pub IsJoined : Client → Text → Bridge → Bridge → Type 0
IsJoined client busid before after =
    (link : PendingLink) × (link.busid ≡ busid)
    × TakesFirst (same_busid busid) before.pending link after.pending
    × (after.waiting ≡ remove_client client.local before.waiting)
    × (after.relays
        ≡ record { local = client.local; remote = link.connection; initial = client.initial }
          ∷ before.relays)

none_passes :
    {A : Type 0} (p : A → Bool) (xs : List A) → All (λ x. p x ≡ false) xs → any p xs ≡ false
none_passes p [] h = refl
none_passes p (x ∷ xs) h = ground (arith, none_passes p xs)

same_busid-eq :
    (busid : Text) (link : PendingLink) → same_busid busid link ≡ true → link.busid ≡ busid
unfolding same_busid
same_busid-eq busid link h = (text_eq_iff link.busid busid).0 h

-- A client that asks for a bus ID can always be joined while a link of this bus ID is pending: from
-- every reachable state in which it waits, its next round leads to a state in which a relay joins it
-- to the oldest such link, with the bytes that it has sent, and the link is no longer in the queue.
pub waiting-IsJoined :
    {settings : BridgeSettings} {s : System} (client : Client) (c : ℕ) (busid : Text)
    → Reach settings s
    → Among client s.bridge.waiting
    → client.requested ≡ some (c ∷ busid)
    → any (same_busid (c ∷ busid)) s.bridge.pending ≡ true
    → (t : System) × Step settings s t
      × Reach settings t
      × IsJoined client (c ∷ busid) s.bridge t.bridge
unfolding take_round
waiting-IsJoined {settings} {s} client c busid r among asks there =
    let law = take_pending_busid c busid s.bridge.pending in
    let joined : IsJoined client (c ∷ busid) s.bridge (take_round client s.bridge) =
      elim (Option-cases (take_pending (some (c ∷ busid)) s.bridge.pending).0) [
        | inl nothing ↦
            let never = none_passes (same_busid (c ∷ busid)) s.bridge.pending (law.1 nothing).0 in
            absurd (cc (sym there ∙ never))
        | inr (link, found) ↦
            let (before, behind, whole, rest, hit, skipped) = law.0 link found in
            rw (take_round, asks, found)
              (
                link,
                same_busid-eq (c ∷ busid) link hit,
                (
                  before,
                  behind,
                  whole,
                  ap (λ q. (take_pending q s.bridge.pending).1) asks ∙ rest,
                  hit,
                  skipped,
                ),
                refl,
                refl,
              )
      ] in
    (
      record s { bridge = take_round client s.bridge },
      takes client among,
      next r (takes client among),
      joined,
    )
