-- ===== src/Usb/Queue/Laws.antt =====
-- What the queue operations take and what they leave.
use ydyun_vdesktop_linux_dri.Base.{
  ◌==◌, ◌&&◌, ℕ, ◌≤◌, ◌<◌, ◌≡◌, refl, ap, ◌∙◌, Bool, true, false, ◌⊎◌, inl, inr, List, [], ◌∷◌,
  ◌++◌, Option, none, some, arith, leb, length, All, Text, text_eq, text_eq_iff, Bool-cases,
  Option-cases, ok, err, length-append, not,
}
use ydyun_vdesktop_linux_dri.Usb.Errors.{queue_full}
use ydyun_vdesktop_linux_dri.Usb.Queue.{
  PendingLink, link_eq, remove_link, put_nowait, find_first, same_connection, same_busid,
  remove_pending, select, take_pending,
}

-- `link` is the first to pass the test, and `rest` is the queue without it, in the same order.
abbrev pub TakesFirst :
    (PendingLink → Bool) → List PendingLink → PendingLink → List PendingLink → Type 0
TakesFirst test queue link rest =
    (before : List PendingLink) × (behind : List PendingLink) × (queue ≡ before ++ link ∷ behind)
    × (rest ≡ before ++ behind)
    × (test link ≡ true)
    × All (λ item. test item ≡ false) before

link_eq_refl : (a : PendingLink) → link_eq a a ≡ true
link_eq_refl a = ground (arith, (text_eq_iff a.busid a.busid).1 refl)

-- Removing a link that is the first to pass a test on its fields removes just that one.
remove_first :
    (test : PendingLink → Bool) (link : PendingLink)
    → ((a : PendingLink) → link_eq a link ≡ true → test a ≡ true)
    → (before behind : List PendingLink) → All (λ item. test item ≡ false) before
    → remove_link link (before ++ link ∷ behind) ≡ before ++ behind
unfolding remove_link
remove_first test link respects [] behind h = rw (link_eq_refl link)
remove_first test link respects (a ∷ before) behind (miss, h) = elim (Bool-cases (link_eq a link)) [
  | inl same ↦ cc (respects a same)
  | inr other ↦ rw other (ap (◌∷◌ a) (remove_first test link respects before behind h))
]

find_first_splits :
    (test : PendingLink → Bool) (queue : List PendingLink) (link : PendingLink)
    → find_first test queue ≡ some link
    → (before : List PendingLink) × (behind : List PendingLink) × (queue ≡ before ++ link ∷ behind)
      × (test link ≡ true)
      × All (λ item. test item ≡ false) before
unfolding find_first
find_first_splits test [] link e = cc
find_first_splits test (item ∷ items) link e = elim (Bool-cases (test item)) [
  | inl hit ↦
      let same : item ≡ link = ground arith in
      ([], items, ap (λ a. a ∷ items) same, rw (← same) hit, tt)
  | inr miss ↦
      let (before, behind, whole, tested, first) =
        find_first_splits test items link (rw (miss, find_first) at e) in
      (item ∷ before, behind, ap (◌∷◌ item) whole, tested, (miss, first))
]

find_first-TakesFirst :
    (test : PendingLink → Bool) (queue : List PendingLink) (link : PendingLink)
    → ((a : PendingLink) → link_eq a link ≡ true → test a ≡ test link)
    → find_first test queue ≡ some link
    → TakesFirst test queue link (remove_link link queue)
unfolding find_first
find_first-TakesFirst test queue link respects e =
    let (before, behind, whole, hit, first) = find_first_splits test queue link e in
    (
      before,
      behind,
      whole,
      rw whole (remove_first test link (λ a s. respects a s ∙ hit) before behind first),
      hit,
      first,
    )

find_first-none :
    (test : PendingLink → Bool) (queue : List PendingLink)
    → find_first test queue ≡ none
    → All (λ item. test item ≡ false) queue
unfolding find_first
find_first-none test [] e = tt
find_first-none test (item ∷ items) e = ground (arith, find_first-none test items)

busid_respected :
    (busid : Text) (link a : PendingLink)
    → link_eq a link ≡ true
    → same_busid busid a ≡ same_busid busid link
unfolding same_busid
busid_respected busid link a h =
    ap (λ t. text_eq t busid) ((text_eq_iff a.busid link.busid).0 (ground arith))

connection_respected :
    (c : ℕ) (link a : PendingLink)
    → link_eq a link ≡ true
    → same_connection c a ≡ same_connection c link
unfolding same_connection
connection_respected c link a h = ground arith

-- A request for a bus ID that is not empty takes the oldest link of that bus ID and leaves every
-- other link in its place; if there is none it takes nothing and leaves the queue as it was.
pub take_pending_busid :
    (c : ℕ) (busid : Text) (queue : List PendingLink)
    → let request = c ∷ busid in
      ((link : PendingLink)
        → (take_pending (some request) queue).0 ≡ some link
        → TakesFirst (same_busid request) queue link (take_pending (some request) queue).1)
      × ((take_pending (some request) queue).0 ≡ none
          → All (λ item. same_busid request item ≡ false) queue
            × ((take_pending (some request) queue).1 ≡ queue))
unfolding take_pending select
take_pending_busid c busid queue = elim (Option-cases (find_first (same_busid (c ∷ busid)) queue)) [
  | inl e ↦
      rw (e, take_pending)
        (λ link h. cc, λ h. (find_first-none (same_busid (c ∷ busid)) queue e, refl))
  | inr (item, e) ↦
      rw (e, take_pending)
        (
          λ link h.
              let same : item ≡ link = ground arith in
              rw same (
                find_first-TakesFirst (same_busid (c ∷ busid)) queue link
                  (busid_respected (c ∷ busid) link) (e ∙ ap some same)),
          λ h. cc,
        )
]

-- A failed attach takes the link of its own socket out of the queue, if it is there, and leaves every
-- other link in its place.
pub remove_pending_lem :
    (c : ℕ) (queue : List PendingLink)
    → ((link : PendingLink) × TakesFirst (same_connection c) queue link (remove_pending c queue))
      ⊎ (All (λ item. same_connection c item ≡ false) queue × (remove_pending c queue ≡ queue))
unfolding remove_pending
remove_pending_lem c queue = elim (Option-cases (find_first (same_connection c) queue)) [
  | inl e ↦ inr (find_first-none (same_connection c) queue e, rw (e, remove_pending))
  | inr (item, e) ↦ inl (
    item,
    rw (e, remove_pending)
        (find_first-TakesFirst (same_connection c) queue item (connection_respected c item) e),
  )
]

-- Whatever is selected, it is taken out of the queue and nothing else is.
pub take_pending-TakesFirst :
    (request : Option Text) (queue : List PendingLink) (link : PendingLink)
    → (take_pending request queue).0 ≡ some link
    → (test : PendingLink → Bool) × TakesFirst test queue link (take_pending request queue).1
unfolding take_pending select
take_pending-TakesFirst none [] link h = cc
take_pending-TakesFirst (some []) [] link h = cc
take_pending-TakesFirst none (item ∷ items) link h =
    rw (link_eq_refl item)
      (λ a. true, ([], items, ap (λ a. a ∷ items) (ground arith), refl, refl, tt))
take_pending-TakesFirst (some []) (item ∷ items) link h =
    rw (link_eq_refl item)
      (λ a. true, ([], items, ap (λ a. a ∷ items) (ground arith), refl, refl, tt))
take_pending-TakesFirst (some (c ∷ busid)) queue link h =
    (same_busid (c ∷ busid), (take_pending_busid c busid queue).0 link h)

-- A link goes to the end of a queue that has room or no limit, and is refused by one that is full.
pub put_nowait_cases :
    (max : ℕ) (link : PendingLink) (queue : List PendingLink)
    → ((put_nowait max link queue ≡ err queue_full) × (max ≤ length queue))
      ⊎ ((put_nowait max link queue ≡ ok (queue ++ link ∷ [])) × (1 ≤ max → length queue < max))
unfolding put_nowait
put_nowait_cases max link queue = elim (Bool-cases (not (max == 0) && leb max (length queue))) [
  | inl full ↦ inl (rw full, ground arith)
  | inr room ↦ inr (rw room, λ positive. ground arith)
]

pub length-remove_pending :
    (c : ℕ) (queue : List PendingLink) → length (remove_pending c queue) ≤ length queue
length-remove_pending c queue = elim (remove_pending_lem c queue) [
  | inl (link, (before, behind, whole, left, tested, first)) ↦ omega (
    arith,
    ap length whole,
    ap length left,
    length-append before (link ∷ behind),
    length-append before behind,
  )
  | inr (absent, same) ↦ omega (arith, ap length same)
]

-- Where nothing is selected the queue stays.
pub take_pending-none :
    (request : Option Text) (queue : List PendingLink)
    → (take_pending request queue).0 ≡ none
    → (take_pending request queue).1 ≡ queue
unfolding take_pending
take_pending-none request queue h = ground arith

pub length-take_pending :
    (request : Option Text) (queue : List PendingLink)
    → length (take_pending request queue).1 ≤ length queue
length-take_pending request queue = elim (Option-cases (take_pending request queue).0) [
  | inl e ↦ omega (arith, ap length (take_pending-none request queue e))
  | inr (link, e) ↦
      let (test, (before, behind, whole, left, tested, first)) =
        take_pending-TakesFirst request queue link e in
      omega (
        arith,
        ap length whole,
        ap length left,
        length-append before (link ∷ behind),
        length-append before behind,
      )
]
