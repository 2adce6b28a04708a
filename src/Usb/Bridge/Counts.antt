-- ===== src/Usb/Bridge/Counts.antt =====
-- How often a socket stands in the lists of the bridge, before and after each change.
use ydyun_vdesktop_linux_dri.Base.{
  ℕ, ◌+◌, ◌-◌, ◌≤◌, ◌≡◌, refl, Bool, false, inl, inr, List, [], ◌∷◌, ◌++◌, Option, some, arith,
  ◌==◌, if◌then◌else◌, All, Text,
}
use ydyun_vdesktop_linux_dri.Usb.Queue.{PendingLink, same_connection, remove_pending, take_pending}
use ydyun_vdesktop_linux_dri.Usb.Queue.Laws.{
  TakesFirst, remove_pending_lem, take_pending-TakesFirst,
}
use ydyun_vdesktop_linux_dri.Usb.Bridge.{remove_one, connections}
use ydyun_vdesktop_linux_dri.Usb.Bridge.Steps.{count}

-- 1 if the two are the same socket, and 0 if not.
abbrev pub hit : ℕ → ℕ → ℕ
hit x c = if x == c then 1 else 0

pub count-remove_one :
    (c x : ℕ) (xs : List ℕ) → 1 ≤ count x xs → count c (remove_one x xs) + hit x c ≡ count c xs
unfolding remove_one
count-remove_one c x [] h = absurd (omega arith)
count-remove_one c x (y ∷ ys) h = ground (arith, count-remove_one c x ys)

count-connections-append :
    (c : ℕ) (xs ys : List PendingLink)
    → count c (connections (xs ++ ys)) ≡ count c (connections xs) + count c (connections ys)
count-connections-append c [] ys = omega arith
count-connections-append c (x ∷ xs) ys = omega (arith, count-connections-append c xs ys)

pub count-put :
    (c : ℕ) (link : PendingLink) (queue : List PendingLink)
    → count c (connections (queue ++ link ∷ []))
      ≡ count c (connections queue) + hit link.connection c
count-put c link queue = omega (arith, count-connections-append c queue (link ∷ []))

count-TakesFirst :
    (c : ℕ) (test : PendingLink → Bool) (queue rest : List PendingLink) (link : PendingLink)
    → TakesFirst test queue link rest
    → count c (connections rest) + hit link.connection c ≡ count c (connections queue)
count-TakesFirst c test queue rest link (before, behind, whole, left, tested, first) =
    rw (whole, left)
      (omega (
        arith,
        count-connections-append c before behind,
        count-connections-append c before (link ∷ behind),
      ))

count-none :
    (c : ℕ) (queue : List PendingLink)
    → All (λ item. same_connection c item ≡ false) queue
    → count c (connections queue) ≡ 0
unfolding same_connection
count-none c [] h = refl
count-none c (item ∷ items) h = ground (arith, count-none c items h.1)

-- A failed attach takes its own link out, once, and no other.
pub count-remove_pending :
    (c x : ℕ) (queue : List PendingLink)
    → count c (connections (remove_pending x queue)) ≡ count c (connections queue) - hit x c
unfolding same_connection
count-remove_pending c x queue = elim (remove_pending_lem x queue) [
  | inl (link, takes) ↦ ground (
    arith,
    count-TakesFirst c (same_connection x) queue (remove_pending x queue) link takes,
    takes.4,
  )
  | inr (absent, same) ↦ rw same (ground (arith, count-none x queue absent))
]

-- The link that a client takes leaves the queue.
pub count-taken :
    (c : ℕ) (request : Option Text) (queue : List PendingLink) (link : PendingLink)
    → (take_pending request queue).0 ≡ some link
    → count c (connections (take_pending request queue).1) + hit link.connection c
      ≡ count c (connections queue)
count-taken c request queue link h =
    let (test, takes) = take_pending-TakesFirst request queue link h in
    count-TakesFirst c test queue _ link takes

pub count-append : (c : ℕ) (xs ys : List ℕ) → count c (xs ++ ys) ≡ count c xs + count c ys
count-append c [] ys = omega arith
count-append c (x ∷ xs) ys = omega (arith, count-append c xs ys)
