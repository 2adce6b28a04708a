-- ===== src/Usb/Lz4/Accepted.antt =====
-- What the decoder accepts is a block of the format.
use ydyun_vdesktop_linux_dri.Base.{
  ℕ, zero, suc, ◌+◌, ◌*◌, ◌/◌, ◌%◌, ◌≤◌, ◌<◌, ◌≡◌, refl, sym, ap, ◌∙◌, ◌||◌, List, [], ◌∷◌, ◌++◌,
  Option, none, some, arith, ltb, length, All, IsByte, Bool-cases, inl, inr, length-append,
  append-nil, Result, ok, >>=-eq-ok,
}
use ydyun_vdesktop_linux_dri.Usb.Errors.{UsbError}
use ydyun_vdesktop_linux_dri.Usb.Lz4.{
  codec_max_size, Round, stop, go_on, lz4_match, lz4_round, lz4_loop, lz4_decompress_block,
}
use ydyun_vdesktop_linux_dri.Usb.Lz4.Blocks.{
  Seq, Tail, Block, nibble_of, extension, seqs_bytes, block_bytes, run_seq, run_seqs, run_block,
  AreSeqs, IsBlock,
}
use ydyun_vdesktop_linux_dri.Usb.Lz4.Rounds.{lz4_round_inv, lz4_match_inv, All-tail, Copies}
use ydyun_vdesktop_linux_dri.Usb.Lz4.Copies.{copy_match-bytes}

-- What a run of the loop that returns has read.
abbrev Accepts : ℕ → List ℕ → List ℕ → List ℕ → Type 0
Accepts expected bs output result =
    (ss : List Seq) × (t : Option Tail) × AreSeqs expected ss t output
    × (bs ≡ seqs_bytes ss t)
    × (result ≡ run_seqs ss t output)

nibbles : (token a b : ℕ) → token / 16 ≡ a → token % 16 ≡ b → token ≡ a * 16 + b
nibbles token a b h k = omega arith

module _ (expected token : ℕ) (bs output result : List ℕ) (token_byte : token < 256)
    (bytes : All IsByte bs) (loop : List ℕ → List ℕ → Result UsbError (List ℕ))
    (ih : (rest' output' : List ℕ)
      → All IsByte rest'
      → loop rest' output' ≡ ok result
      → Accepts expected rest' output' result)
    (literals : List ℕ) (nib : token / 16 ≡ nibble_of (length literals))
    (fits : length output + length literals ≤ expected) where
  goes : Round → Result UsbError (List ℕ)
  goes r = elim r [ stop output' ↦ ok output' | go_on rest' output' ↦ loop rest' output' ]

  accept_match :
      (low high : ℕ) (rest : List ℕ) (r : Round)
      → bs ≡ extension (length literals) ++ (literals ++ low ∷ high ∷ rest)
      → Copies expected token (low + high * 256) rest (output ++ literals) r
      → goes r ≡ ok result
      → Accepts expected (token ∷ bs) output result
  unfolding goes
  accept_match low high rest r same (extra, rest', is_r, nib', same', o1, o2, o3) next =
      let s : Seq = record { literals = literals; offset = low + high * 256; extra = extra } in
      let whole =
        All-tail literals _ (All-tail (extension (length literals)) _ (rw same at bytes)) in
      let left = All-tail (extension extra) rest' (rw same' at whole.1.1) in
      let copied : r ≡ go_on rest' (run_seq s output) =
        is_r
        ∙ ap (go_on rest') (copy_match-bytes (extra + 4) s.offset (output ++ literals) o1 o2) in
      let (ss, t, are, read, res) = ih rest' (run_seq s output) left (rw copied at next) in
      let added = length-append output literals in
      let l : (low + high * 256) % 256 ≡ low = omega (arith, whole.0) in
      let h : (low + high * 256) / 256 ≡ high = omega (arith, whole.0) in
      (
        s ∷ ss,
        t,
        (o1, omega (arith, whole.0, whole.1.0), omega arith, omega arith, are),
        rw (l, h, ← read, ← same', ← same, ← nibbles token _ _ nib nib'),
        res,
      )

  accept_round :
      (after : List ℕ) (r : Round)
      → bs ≡ extension (length literals) ++ (literals ++ after)
      → lz4_match expected token after (output ++ literals) ≡ ok r
      → goes r ≡ ok result
      → Accepts expected (token ∷ bs) output result
  unfolding lz4_match goes
  accept_round [] r same matched next = (
    [],
    some (record { literals = literals; ignored = token % 16 }),
    (omega arith, fits),
    rw (← nibbles token _ (token % 16) nib refl)
        (ap (◌∷◌ token) (rw (append-nil literals) at same)),
    cc,
  )
  accept_round (low ∷ []) r same matched next = cc
  accept_round (low ∷ high ∷ rest) r same matched next =
      accept_match low high rest r same
        (lz4_match_inv expected token low high rest (output ++ literals) r
          (All-tail literals _ (All-tail (extension (length literals)) _ (rw same at bytes))).1.1
          matched)
        next

lz4_loop-Accepts :
    (fuel expected : ℕ) (bs output result : List ℕ)
    → All IsByte bs
    → lz4_loop fuel expected bs output ≡ ok result
    → Accepts expected bs output result
unfolding lz4_loop goes
lz4_loop-Accepts zero expected [] output result h e = ([], none, tt, refl, cc)
lz4_loop-Accepts (suc fuel) expected [] output result h e = ([], none, tt, refl, cc)
lz4_loop-Accepts zero expected (token ∷ bs) output result h e = cc
lz4_loop-Accepts (suc fuel) expected (token ∷ bs) output result (hb, h) e =
    let (r, round, next) = >>=-eq-ok (lz4_round expected token bs output) _ e in
    let (literals, after, nib, same, fits, matched) =
      lz4_round_inv expected token bs output r hb h round in
    accept_round expected token bs output result hb h (lz4_loop fuel expected)
      (λ rest' output' h' e'. lz4_loop-Accepts fuel expected rest' output' result h' e') literals
      nib fits after r same matched next

-- Whatever bytes the decoder accepts are a block of the format that unpacks to exactly the advertised
-- size, and the result is what that block stands for: there is no other way to be accepted.
pub lz4_decompress_accepts :
    (bytes result : List ℕ) (expected : ℕ)
    → All IsByte bytes
    → lz4_decompress_block bytes expected ≡ ok result
    → (b : Block) × IsBlock expected b
      × (bytes ≡ block_bytes b)
      × (result ≡ run_block b)
      × (1 ≤ expected)
      × (expected ≤ codec_max_size)
unfolding lz4_decompress_block
lz4_decompress_accepts bytes result expected h e =
    elim (Bool-cases (ltb expected 1 || ltb codec_max_size expected)) [
      | inl bad ↦ cc (rw bad at e)
      | inr good ↦
          let (output, loop, next) =
            >>=-eq-ok (lz4_loop (length bytes) expected bytes []) _ (rw good at e) in
          let (ss, t, are, read, res) =
            lz4_loop-Accepts (length bytes) expected bytes [] output h loop in
          let size : (output ≡ result) × (length output ≡ expected) =
            (ground arith, ground arith) in
          (
            record { seqs = ss; tail = t },
            (are, rw (← res) size.1),
            read,
            sym size.0 ∙ res,
            ground arith,
            ground arith,
          )
    ]
