-- ===== src/Usb/Lz4/Rounds.antt =====
-- What a round of the decoder has read, if it returns.
use ydyun_vdesktop_linux_dri.Base.{
  ℕ, suc, ◌+◌, ◌-◌, ◌*◌, ◌/◌, ◌%◌, ◌≤◌, ◌<◌, ◌≡◌, sym, ap, ◌∙◌, false, ◌||◌, List, [], ◌∷◌, ◌++◌,
  arith, ltb, ◌==◌, length, take, drop, replicate, All, IsByte, Bool-cases, inl, inr, length-append,
  take-append-drop, length-take, append_assoc, ok, >>=-eq-ok,
}
use ydyun_vdesktop_linux_dri.Usb.Lz4.{
  lz4_length, nibble_length, copy_match, Round, go_on, lz4_match, lz4_round,
}
use ydyun_vdesktop_linux_dri.Usb.Lz4.Blocks.{nibble_of, extension}

lz4_length_inv :
    (bs : List ℕ) (base n : ℕ) (rest : List ℕ)
    → All IsByte bs
    → lz4_length bs base ≡ ok (n, rest)
    → (k : ℕ) × (last : ℕ) × (last < 255)
      × (bs ≡ replicate k 255 ++ last ∷ rest)
      × (n ≡ base + 255 * k + last)
unfolding lz4_length
lz4_length_inv [] base n rest h e = cc
lz4_length_inv (b ∷ bs) base n rest h e = elim (Bool-cases (b == 255)) [
  | inl full ↦
      let (k, last, small, same, sum) =
        lz4_length_inv bs (base + 255) n rest h.1 (rw (full, lz4_length) at e) in
      (suc k, last, small, ground (arith, same), omega arith)
  | inr less ↦ (0, b, ground arith, ground arith, ground arith)
]

extension_run :
    (k last : ℕ) (rest : List ℕ)
    → last < 255
    → extension (15 + (255 * k + last)) ++ rest ≡ replicate k 255 ++ last ∷ rest
extension_run k last rest h =
    let m : ℕ = 15 + (255 * k + last) in
    let large : ltb m 15 ≡ false = ground arith in
    let q : (m - 15) / 255 ≡ k = omega arith in
    let r : (m - 15) % 255 ≡ last = omega arith in
    rw (large, q, r) (append_assoc (replicate k 255) (last ∷ []) rest)

nibble_length_inv :
    (nibble bonus n : ℕ) (bs rest : List ℕ)
    → nibble < 16
    → All IsByte bs
    → nibble_length nibble bonus bs ≡ ok (n, rest)
    → (m : ℕ) × (n ≡ m + bonus) × (nibble ≡ nibble_of m) × (bs ≡ extension m ++ rest)
unfolding nibble_length
nibble_length_inv nibble bonus n bs rest h hb e = elim (Bool-cases (nibble == 15)) [
  | inl long ↦
      let (k, last, small, same, sum) =
        lz4_length_inv bs (nibble + bonus) n rest hb (rw (long, nibble_length) at e) in
      (
        15 + (255 * k + last),
        ground arith,
        ground arith,
        same ∙ sym (extension_run k last rest small),
      )
  | inr short ↦ (nibble, ground arith, ground arith, ground arith)
]

pub All-tail : (xs ys : List ℕ) → All IsByte (xs ++ ys) → All IsByte ys
All-tail [] ys h = h
All-tail (x ∷ xs) ys h = All-tail xs ys h.1

-- The literals of an accepted round, and the match that is left to read.
pub lz4_round_inv :
    (expected token : ℕ) (bs output : List ℕ) (r : Round)
    → token < 256
    → All IsByte bs
    → lz4_round expected token bs output ≡ ok r
    → (literals : List ℕ) × (after : List ℕ) × (token / 16 ≡ nibble_of (length literals))
      × (bs ≡ extension (length literals) ++ (literals ++ after))
      × (length output + length literals ≤ expected)
      × (lz4_match expected token after (output ++ literals) ≡ ok r)
unfolding lz4_round
lz4_round_inv expected token bs output r h hb e =
    let ((n, rest), read, next) = >>=-eq-ok (nibble_length (token / 16) 0 bs) _ e in
    let (m, sum, nib, same) = nibble_length_inv (token / 16) 0 n bs rest (omega arith) hb read in
    let eq : n ≡ m = omega arith in
    elim (Bool-cases (ltb (length rest) n)) [
      | inl short ↦ cc (rw short at next)
      | inr enough ↦
          let size : length (take n rest) ≡ n = ground (arith, length-take n rest) in
          elim (Bool-cases (ltb expected (length (output ++ take n rest)))) [
            | inl over ↦ cc (rw (enough, over) at next)
            | inr fits ↦ (
              take n rest,
              drop n rest,
              rw size (nib ∙ ap nibble_of (sym eq)),
              rw (size, take-append-drop n rest, eq) same,
              ground (arith, length-append output (take n rest)),
              rw (enough, fits) at next,
            )
          ]
    ]

abbrev pub Copies : ℕ → ℕ → ℕ → List ℕ → List ℕ → Round → Type 0
Copies expected token offset bs output r =
    (extra : ℕ) × (rest : List ℕ) × (r ≡ go_on rest (copy_match (extra + 4) offset output))
    × (token % 16 ≡ nibble_of extra)
    × (bs ≡ extension extra ++ rest)
    × (1 ≤ offset)
    × (offset ≤ length output)
    × (length output + (extra + 4) ≤ expected)

pub lz4_match_inv :
    (expected token low high : ℕ) (bs output : List ℕ) (r : Round)
    → All IsByte bs
    → lz4_match expected token (low ∷ high ∷ bs) output ≡ ok r
    → Copies expected token (low + high * 256) bs output r
unfolding lz4_match
lz4_match_inv expected token low high bs output r hb e =
    let offset = low + high * 256 in
    elim (Bool-cases (offset == 0 || ltb (length output) offset)) [
      | inl bad ↦ cc (rw bad at e)
      | inr good ↦
          let ((n, rest), read, next) =
            >>=-eq-ok (nibble_length (token % 16) 4 bs) _ (rw good at e) in
          let (extra, sum, nib, same) =
            nibble_length_inv (token % 16) 4 n bs rest (omega arith) hb read in
          elim (Bool-cases (ltb expected (length output + n))) [
            | inl over ↦ cc (rw over at next)
            | inr fits ↦
                let done : ok (go_on rest (copy_match n offset output)) ≡ ok r = rw fits at next in
                (
                  extra,
                  rest,
                  rw (← sum) (cc done),
                  nib,
                  same,
                  ground arith,
                  ground arith,
                  ground arith,
                )
          ]
    ]
