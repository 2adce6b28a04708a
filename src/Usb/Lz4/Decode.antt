-- ===== src/Usb/Lz4/Decode.antt =====
-- The decoder reads every block of the format.
use ydyun_vdesktop_linux_dri.Base.{
  ℕ, zero, suc, ◌+◌, ◌-◌, ◌*◌, ◌/◌, ◌%◌, ◌≤◌, ◌<◌, ◌≡◌, refl, ap, ◌∙◌, List, [], ◌∷◌, ◌++◌, Option,
  none, some, arith, ltb, length, replicate, Bool-cases, inl, inr, length-append, take-length,
  drop-length, append_assoc, append-nil, ok,
}
use ydyun_vdesktop_linux_dri.Usb.Lz4.{
  codec_max_size, lz4_length, nibble_length, copy_match, stop, go_on, lz4_match, lz4_round,
  lz4_loop, lz4_decompress_block,
}
use ydyun_vdesktop_linux_dri.Usb.Lz4.Blocks.{
  Seq, Tail, Block, nibble_of, extension, seq_bytes, seqs_bytes, block_bytes, run_seq, run_seqs,
  run_block, AreSeqs, IsBlock,
}
use ydyun_vdesktop_linux_dri.Usb.Lz4.Copies.{copy_match-bytes}

lz4_length_run :
    (n last base : ℕ) (rest : List ℕ)
    → last < 255
    → lz4_length (replicate n 255 ++ last ∷ rest) base ≡ ok (base + 255 * n + last, rest)
unfolding lz4_length
lz4_length_run zero last base rest h = ground arith
lz4_length_run (suc n) last base rest h = ground (arith, lz4_length_run n last (base + 255) rest)

-- A length that the format writes is read back, and what follows it is left.
nibble_length-extension :
    (n bonus : ℕ) (rest : List ℕ)
    → nibble_length (nibble_of n) bonus (extension n ++ rest) ≡ ok (n + bonus, rest)
unfolding nibble_length
nibble_length-extension n bonus rest = elim (Bool-cases (ltb n 15)) [
  | inl small ↦ rw small (ground arith)
  | inr large ↦
      let r = n - 15 in
      rw (large, append_assoc (replicate (r / 255) 255) (r % 255 ∷ []) rest)
        (lz4_length_run (r / 255) (r % 255) (15 + bonus) rest (omega arith)
          ∙ ap (λ k. ok (k, rest)) (ground arith))
]

pub length-copy_match :
    (n offset : ℕ) (output : List ℕ) → length (copy_match n offset output) ≡ length output + n
unfolding copy_match
length-copy_match zero offset output = omega arith
length-copy_match (suc n) offset output =
    length-copy_match n offset _ ∙ rw length-append (omega arith)

nibble_bound : (n : ℕ) → nibble_of n ≤ 15
nibble_bound n = ground arith

-- The literals of a round.
lz4_round-literals :
    (expected low : ℕ) (literals after output : List ℕ)
    → low ≤ 15
    → length output + length literals ≤ expected
    → lz4_round expected
        (nibble_of (length literals) * 16 + low)
        (extension (length literals) ++ (literals ++ after))
        output
      ≡ lz4_match expected (nibble_of (length literals) * 16 + low) after (output ++ literals)
unfolding lz4_round
lz4_round-literals expected low literals after output h k =
    let n = length literals in
    let high : (nibble_of n * 16 + low) / 16 ≡ nibble_of n = omega arith in
    let read : nibble_length ((nibble_of n * 16 + low) / 16) 0 (extension n ++ (literals ++ after))
        ≡ ok (n, literals ++ after) =
      rw high (
        nibble_length-extension n 0 (literals ++ after)
        ∙ ap (λ m. ok (m, literals ++ after)) (omega arith)) in
    ground (
      arith,
      read,
      length-append literals after,
      length-append output literals,
      take-length literals after,
      drop-length literals after,
    )

-- The match of a round.
lz4_match-copies :
    (expected token offset extra : ℕ) (rest output : List ℕ)
    → token % 16 ≡ nibble_of extra
    → 1 ≤ offset
    → offset ≤ length output
    → length output + (extra + 4) ≤ expected
    → lz4_match expected token ((offset % 256) ∷ (offset / 256) ∷ (extension extra ++ rest)) output
      ≡ ok (go_on rest (copy_match (extra + 4) offset output))
unfolding lz4_match
lz4_match-copies expected token offset extra rest output e h1 h2 h3 =
    let back : offset % 256 + offset / 256 * 256 ≡ offset = omega arith in
    let read : nibble_length (token % 16) 4 (extension extra ++ rest) ≡ ok (extra + 4, rest) =
      rw e (nibble_length-extension extra 4 rest) in
    rw back (ground (arith, read))

lz4_round-seq :
    (expected : ℕ) (s : Seq) (rest output : List ℕ)
    → 1 ≤ s.offset
    → s.offset ≤ length output + length s.literals
    → length output + length s.literals + (s.extra + 4) ≤ expected
    → lz4_round expected
        (nibble_of (length s.literals) * 16 + nibble_of s.extra)
        (extension (length s.literals)
          ++ (s.literals ++ (s.offset % 256) ∷ (s.offset / 256) ∷ (extension s.extra ++ rest)))
        output
      ≡ ok (go_on rest (run_seq s output))
lz4_round-seq expected s rest output h1 h2 h3 =
    let low = nibble_of s.extra in
    let added = length-append output s.literals in
    let before = output ++ s.literals in
    lz4_round-literals expected low s.literals _ output (nibble_bound s.extra) (omega arith)
    ∙ lz4_match-copies expected _ s.offset s.extra rest before (omega (arith, nibble_bound s.extra))
        h1 (omega arith) (omega arith)
    ∙ ap (λ l. ok (go_on rest l)) (copy_match-bytes (s.extra + 4) s.offset before h1 (omega arith))

lz4_round-tail :
    (expected : ℕ) (t : Tail) (output : List ℕ)
    → t.ignored < 16
    → length output + length t.literals ≤ expected
    → lz4_round expected
        (nibble_of (length t.literals) * 16 + t.ignored)
        (extension (length t.literals) ++ t.literals)
        output
      ≡ ok (stop (output ++ t.literals))
unfolding lz4_match
lz4_round-tail expected t output h k =
    rw (append-nil t.literals) at
      (lz4_round-literals expected t.ignored t.literals [] output (omega arith) k)

seq_shorter : (s : Seq) (rest : List ℕ) → length rest < length (seq_bytes s rest)
seq_shorter s rest = omega (
  arith,
  length-append (extension (length s.literals))
      (s.literals ++ (s.offset % 256) ∷ (s.offset / 256) ∷ (extension s.extra ++ rest)),
  length-append s.literals ((s.offset % 256) ∷ (s.offset / 256) ∷ (extension s.extra ++ rest)),
  length-append (extension s.extra) rest,
)

lz4_loop-seqs :
    (ss : List Seq) (fuel expected : ℕ) (t : Option Tail) (output : List ℕ)
    → AreSeqs expected ss t output
    → length (seqs_bytes ss t) ≤ fuel
    → lz4_loop fuel expected (seqs_bytes ss t) output ≡ ok (run_seqs ss t output)
unfolding lz4_loop
lz4_loop-seqs [] zero expected none output v h = refl
lz4_loop-seqs [] (suc fuel) expected none output v h = refl
lz4_loop-seqs [] zero expected (some t) output v h = absurd (omega arith)
lz4_loop-seqs [] (suc fuel) expected (some t) output v h =
    rw (lz4_round-tail expected t output v.0 v.1, lz4_loop)
lz4_loop-seqs (s ∷ ss) zero expected t output v h = absurd (omega arith)
lz4_loop-seqs (s ∷ ss) (suc fuel) expected t output v h =
    let rest = seqs_bytes ss t in
    rw (lz4_round-seq expected s rest output v.0 v.2 v.3, lz4_loop)
      (lz4_loop-seqs ss fuel expected t (run_seq s output) v.4 (omega (arith, seq_shorter s rest)))

-- Every block of the format that unpacks to the advertised size, within the limit, is decoded to
-- what it stands for.
pub lz4_decompress-block :
    (b : Block) (expected : ℕ)
    → IsBlock expected b
    → 1 ≤ expected
    → expected ≤ codec_max_size
    → lz4_decompress_block (block_bytes b) expected ≡ ok (run_block b)
unfolding lz4_decompress_block
lz4_decompress-block b expected v h k =
    let decoded =
      lz4_loop-seqs b.seqs (length (block_bytes b)) expected b.tail [] v.0 (omega arith) in
    rw decoded (ground (arith, v.1))
