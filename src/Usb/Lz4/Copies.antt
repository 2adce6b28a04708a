-- ===== src/Usb/Lz4/Copies.antt =====
-- What a match copies, told byte by byte and as a window that is repeated.
use ydyun_vdesktop_linux_dri.Base.{
  ℕ, zero, suc, ◌+◌, ◌-◌, ◌≤◌, ◌<◌, ◌≡◌, refl, sym, ap, ◌∙◌, List, [], ◌∷◌, ◌++◌, arith, length,
  get_or, length-append, append-nil, drop, take, append_assoc,
}
use ydyun_vdesktop_linux_dri.Usb.Lz4.{copy_match}
use ydyun_vdesktop_linux_dri.Usb.Lz4.Blocks.{repeated, match_bytes}

get_or-append : (xs ys : List ℕ) (i : ℕ) → i < length xs → get_or (xs ++ ys) i 0 ≡ get_or xs i 0
get_or-append [] ys i h = absurd (omega arith)
get_or-append (x ∷ xs) ys zero h = refl
get_or-append (x ∷ xs) ys (suc i) h = get_or-append xs ys i (omega arith)

get_or-append_last : (xs : List ℕ) (y i : ℕ) → i ≡ length xs → get_or (xs ++ y ∷ []) i 0 ≡ y
get_or-append_last [] y i h = rw h
get_or-append_last (x ∷ xs) y zero h = absurd (omega arith)
get_or-append_last (x ∷ xs) y (suc i) h = get_or-append_last xs y i (omega arith)

-- What has been written stays.
copy_match_keeps :
    (n offset : ℕ) (output : List ℕ) (i : ℕ)
    → i < length output
    → get_or (copy_match n offset output) i 0 ≡ get_or output i 0
unfolding copy_match
copy_match_keeps zero offset output i h = refl
copy_match_keeps (suc n) offset output i h =
    let byte = get_or output (length output - offset) 0 in
    copy_match_keeps n offset (output ++ byte ∷ []) i
      (omega (arith, length-append output (byte ∷ [])))
    ∙ get_or-append output (byte ∷ []) i h

copy_match_repeats :
    (n offset : ℕ) (output : List ℕ) (i at : ℕ)
    → 1 ≤ offset
    → offset ≤ length output
    → i < n
    → at ≡ length output + i
    → get_or (copy_match n offset output) at 0 ≡ get_or (copy_match n offset output) (at - offset) 0
unfolding copy_match
copy_match_repeats zero offset output i at h k l e = absurd (omega arith)
copy_match_repeats (suc n) offset output zero at h k l e =
    let byte = get_or output (length output - offset) 0 in
    let size = length-append output (byte ∷ []) in
    let here : at ≡ length output = omega arith in
    copy_match_keeps n offset (output ++ byte ∷ []) at (omega arith)
    ∙ get_or-append_last output byte at here
    ∙ sym (
        copy_match_keeps n offset (output ++ byte ∷ []) (at - offset) (omega arith)
        ∙ get_or-append output (byte ∷ []) (at - offset) (omega arith)
        ∙ ap (λ m. get_or output (m - offset) 0) here)
copy_match_repeats (suc n) offset output (suc i) at h k l e =
    let byte = get_or output (length output - offset) 0 in
    let size = length-append output (byte ∷ []) in
    copy_match_repeats n offset (output ++ byte ∷ []) i at h (omega arith) (omega arith)
      (omega arith)

-- A match whose offset lies in what has been written keeps that, and every byte that it adds equals
-- the byte `offset` places before it, also where the match runs into its own bytes.
pub copy_match_lem :
    (n offset : ℕ) (output : List ℕ)
    → 1 ≤ offset
    → offset ≤ length output
    → ((i : ℕ) → i < length output → get_or (copy_match n offset output) i 0 ≡ get_or output i 0)
      × ((i : ℕ)
          → i < n
          → get_or (copy_match n offset output) (length output + i) 0
            ≡ get_or (copy_match n offset output) (length output + i - offset) 0)
copy_match_lem n offset output h k = (
  copy_match_keeps n offset output,
  λ i l. copy_match_repeats n offset output i (length output + i) h k l refl,
)

get_or-middle :
    (before : List ℕ) (b : ℕ) (window : List ℕ) (i : ℕ)
    → i ≡ length before
    → get_or (before ++ b ∷ window) i 0 ≡ b
get_or-middle [] b window i h = rw h
get_or-middle (x ∷ before) b window zero h = absurd (omega arith)
get_or-middle (x ∷ before) b window (suc i) h = get_or-middle before b window i (omega arith)

copy_match-window :
    (n offset : ℕ) (before window : List ℕ)
    → offset ≡ length window
    → 1 ≤ offset
    → copy_match n offset (before ++ window) ≡ (before ++ window) ++ repeated n window
unfolding copy_match repeated
copy_match-window zero offset before window h k = sym (append-nil (before ++ window))
copy_match-window (suc n) offset before [] h k = absurd (omega arith)
copy_match-window (suc n) offset before (b ∷ window) h k =
    let output = before ++ b ∷ window in
    let size = length-append before (b ∷ window) in
    let here : get_or output (length output - offset) 0 ≡ b =
      get_or-middle before b window (length output - offset) (omega arith) in
    let grown = length-append window (b ∷ []) in
    let moved : (before ++ b ∷ []) ++ (window ++ b ∷ []) ≡ output ++ b ∷ [] =
      append_assoc before (b ∷ []) (window ++ b ∷ [])
      ∙ sym (append_assoc before (b ∷ window) (b ∷ [])) in
    let rest = repeated n (window ++ b ∷ []) in
    rw here (
      ap (copy_match n offset) (sym moved)
      ∙ copy_match-window n offset (before ++ b ∷ []) (window ++ b ∷ []) (omega arith) k
      ∙ ap (λ l. l ++ rest) moved
      ∙ append_assoc output (b ∷ []) rest)

take-drop_append : (k : ℕ) (xs : List ℕ) → take k xs ++ drop k xs ≡ xs
take-drop_append zero xs = refl
take-drop_append (suc k) [] = refl
take-drop_append (suc k) (x ∷ xs) = ap (◌∷◌ x) (take-drop_append k xs)

length-drop_lem : (k : ℕ) (xs : List ℕ) → k ≤ length xs → length (drop k xs) ≡ length xs - k
length-drop_lem zero xs h = omega arith
length-drop_lem (suc k) [] h = absurd (omega arith)
length-drop_lem (suc k) (x ∷ xs) h = length-drop_lem k xs (omega arith) ∙ omega arith

-- The decoder's copy is the match of the format.
pub copy_match-bytes :
    (n offset : ℕ) (output : List ℕ)
    → 1 ≤ offset
    → offset ≤ length output
    → copy_match n offset output ≡ output ++ match_bytes n offset output
copy_match-bytes n offset output h k =
    let before = take (length output - offset) output in
    let window = drop (length output - offset) output in
    let whole : before ++ window ≡ output = take-drop_append (length output - offset) output in
    let size = length-drop_lem (length output - offset) output (omega arith) in
    ap (copy_match n offset) (sym whole)
    ∙ copy_match-window n offset before window (omega arith) h
    ∙ ap (λ l. l ++ repeated n window) whole
