-- ===== src/Usb/Lz4/Ends.antt =====
-- The decoder ends on every input, and what a match copies.
use ydyun_vdesktop_linux_dri.Base.{
  ℕ, zero, suc, ◌+◌, ◌/◌, ◌%◌, ◌≤◌, ◌≡◌, ◌≢◌, List, [], ◌∷◌, ◌++◌, arith, ◌==◌, length, take, drop,
  Bool-cases, inl, inr, length-drop, Result, ok, err, Result-cases,
}
use ydyun_vdesktop_linux_dri.Usb.Errors.{UsbError, out_of_fuel}
use ydyun_vdesktop_linux_dri.Usb.Lz4.{
  lz4_length, nibble_length, Round, stop, go_on, lz4_match, lz4_round, lz4_loop,
  lz4_decompress_block,
}

-- A reader leaves no more bytes than it was given, and does not run out of fuel.
abbrev Reads : List ℕ → Result UsbError (ℕ × List ℕ) → Type 0
Reads bs (ok (n, rest)) = length rest ≤ length bs
Reads bs (err e) = e ≢ out_of_fuel

abbrev Takes : List ℕ → Result UsbError Round → Type 0
Takes bs (ok (stop output)) = Unit {0}
Takes bs (ok (go_on rest output)) = length rest ≤ length bs
Takes bs (err e) = e ≢ out_of_fuel

Reads-mono :
    (a : ℕ) (bs : List ℕ) (r : Result UsbError (ℕ × List ℕ)) → Reads bs r → Reads (a ∷ bs) r
Reads-mono a bs (ok (n, rest)) h = omega arith
Reads-mono a bs (err e) h = h

lz4_length-Reads : (bs : List ℕ) (n : ℕ) → Reads bs (lz4_length bs n)
unfolding lz4_length
lz4_length-Reads [] n = λ e. cc
lz4_length-Reads (b ∷ bs) n = elim (Bool-cases (b == 255)) [
  | inl full ↦ rw full (Reads-mono b bs (lz4_length bs (n + 255)) (lz4_length-Reads bs (n + 255)))
  | inr less ↦ rw less (omega arith)
]

nibble_length-Reads : (nibble bonus : ℕ) (bs : List ℕ) → Reads bs (nibble_length nibble bonus bs)
unfolding nibble_length
nibble_length-Reads nibble bonus bs = elim (Bool-cases (nibble == 15)) [
  | inl long ↦ rw long (lz4_length-Reads bs (nibble + bonus))
  | inr short ↦ rw short (omega arith)
]

lz4_match-Takes :
    (expected token : ℕ) (bs output : List ℕ) → Takes bs (lz4_match expected token bs output)
unfolding lz4_match
lz4_match-Takes expected token [] output = tt
lz4_match-Takes expected token (low ∷ []) output = λ e. cc
lz4_match-Takes expected token (low ∷ high ∷ bs) output =
    ground (arith, nibble_length-Reads (token % 16) 4 bs)

Takes-mono :
    (cs bs : List ℕ) (r : Result UsbError Round) → length cs ≤ length bs → Takes cs r → Takes bs r
Takes-mono cs bs (ok (stop output)) h t = tt
Takes-mono cs bs (ok (go_on rest output)) h t = omega arith
Takes-mono cs bs (err e) h t = t

lz4_round-Takes :
    (expected token : ℕ) (bs output : List ℕ) → Takes bs (lz4_round expected token bs output)
unfolding lz4_round
lz4_round-Takes expected token bs output =
    let reads = nibble_length-Reads (token / 16) 0 bs in
    elim (Result-cases (nibble_length (token / 16) 0 bs)) [
      | inr (x, e) ↦ rw (e, lz4_round) (rw e at reads)
      | inl ((n, rest), e) ↦
          let left : length rest ≤ length bs = rw e at reads in
          let cut : length (drop n rest) ≤ length bs = omega (arith, length-drop n rest) in
          let next =
            Takes-mono (drop n rest) bs _ cut
              (lz4_match-Takes expected token (drop n rest) (output ++ take n rest)) in
          rw (e, lz4_round) (ground (arith, next))
    ]

lz4_loop-ne-out_of_fuel :
    (fuel expected : ℕ) (bs output : List ℕ)
    → length bs ≤ fuel
    → lz4_loop fuel expected bs output ≢ err out_of_fuel
unfolding lz4_loop
lz4_loop-ne-out_of_fuel zero expected [] output h = λ e. cc
lz4_loop-ne-out_of_fuel (suc fuel) expected [] output h = λ e. cc
lz4_loop-ne-out_of_fuel zero expected (token ∷ bs) output h = absurd (omega arith)
lz4_loop-ne-out_of_fuel (suc fuel) expected (token ∷ bs) output h =
    let takes = lz4_round-Takes expected token bs output in
    elim (Result-cases (lz4_round expected token bs output)) [
      | inr (x, e) ↦ rw (e, lz4_loop) (λ q. ground (arith, rw e at takes))
      | inl (stop output', e) ↦ rw (e, lz4_loop) (λ q. cc)
      | inl (go_on rest output', e) ↦
          let left : length rest ≤ length bs = rw e at takes in
          rw (e, lz4_loop) (lz4_loop-ne-out_of_fuel fuel expected rest output' (omega arith))
    ]

-- The decoder ends on every input: with a round for each byte its loop never runs out.
pub lz4_decompress-ends :
    (bytes : List ℕ) (expected : ℕ) → lz4_decompress_block bytes expected ≢ err out_of_fuel
unfolding lz4_decompress_block
lz4_decompress-ends bytes expected =
    ground (arith, lz4_loop-ne-out_of_fuel (length bytes) expected bytes [])

-- What is returned has the advertised size.
pub lz4_decompress-length :
    (bytes result : List ℕ) (expected : ℕ)
    → lz4_decompress_block bytes expected ≡ ok result
    → length result ≡ expected
unfolding lz4_decompress_block
lz4_decompress-length bytes result expected e = ground arith
