-- ===== src/Usb/Lz4/Blocks.antt =====
-- The LZ4 block format as data: sequences of literals and a match, and a last run of literals.
use ydyun_vdesktop_linux_dri.Base.{
  ℕ, ◌+◌, ◌-◌, ◌*◌, ◌/◌, ◌%◌, ◌≤◌, ◌<◌, ◌≡◌, List, [], ◌∷◌, ◌++◌, Option, none, some, ltb,
  if◌then◌else◌, zero, suc, length, drop, replicate,
}

-- A match copies `extra + 4` bytes from `offset` bytes back.
pub record Seq : Type 0 where
  pub literals : List ℕ
  pub offset : ℕ
  pub extra : ℕ

-- The last token's low nibble is not read.
pub record Tail : Type 0 where
  pub literals : List ℕ
  pub ignored : ℕ

pub record Block : Type 0 where
  pub seqs : List Seq
  pub tail : Option Tail

-- A length in a nibble, and the bytes that extend a nibble 15.
abbrev pub nibble_of : ℕ → ℕ
nibble_of n = if ltb n 15 then n else 15

abbrev pub extension : ℕ → List ℕ
extension n = if ltb n 15 then [] else replicate ((n - 15) / 255) 255 ++ (n - 15) % 255 ∷ []

abbrev pub seq_bytes : Seq → List ℕ → List ℕ
seq_bytes s rest =
    (nibble_of (length s.literals) * 16 + nibble_of s.extra)
    ∷ (extension (length s.literals)
        ++ (s.literals ++ (s.offset % 256) ∷ (s.offset / 256) ∷ (extension s.extra ++ rest)))

abbrev pub tail_bytes : Option Tail → List ℕ
tail_bytes none = []
tail_bytes (some t) =
    (nibble_of (length t.literals) * 16 + t.ignored) ∷ (extension (length t.literals) ++ t.literals)

abbrev pub seqs_bytes : List Seq → Option Tail → List ℕ
seqs_bytes [] t = tail_bytes t
seqs_bytes (s ∷ ss) t = seq_bytes s (seqs_bytes ss t)

abbrev pub block_bytes : Block → List ℕ
block_bytes b = seqs_bytes b.seqs b.tail

-- The first bytes of a window that is repeated for ever.
unfoldable pub repeated : ℕ → List ℕ → List ℕ
repeated zero window = []
repeated (suc n) [] = []
repeated (suc n) (b ∷ window) = b ∷ repeated n (window ++ b ∷ [])

-- A match of `n` bytes at `offset`: the last `offset` bytes of the output, repeated.
abbrev pub match_bytes : ℕ → ℕ → List ℕ → List ℕ
match_bytes n offset output = repeated n (drop (length output - offset) output)

-- What a block stands for.
abbrev pub run_seq : Seq → List ℕ → List ℕ
run_seq s output =
    let before = output ++ s.literals in before ++ match_bytes (s.extra + 4) s.offset before

abbrev pub run_seqs : List Seq → Option Tail → List ℕ → List ℕ
run_seqs [] none output = output
run_seqs [] (some t) output = output ++ t.literals
run_seqs (s ∷ ss) t output = run_seqs ss t (run_seq s output)

abbrev pub run_block : Block → List ℕ
run_block b = run_seqs b.seqs b.tail []

-- Every match lies in what has been written, and no more than `expected` bytes are written.
abbrev pub AreSeqs : ℕ → List Seq → Option Tail → List ℕ → Type 0
AreSeqs expected [] none output = Unit {0}
AreSeqs expected [] (some t) output =
    (t.ignored < 16) × (length output + length t.literals ≤ expected)
AreSeqs expected (s ∷ ss) t output =
    (1 ≤ s.offset)
    × (s.offset < 65536)
    × (s.offset ≤ length output + length s.literals)
    × (length output + length s.literals + (s.extra + 4) ≤ expected)
    × AreSeqs expected ss t (run_seq s output)

-- A block that unpacks to exactly `expected` bytes.
abbrev pub IsBlock : ℕ → Block → Type 0
IsBlock expected b = AreSeqs expected b.seqs b.tail [] × (length (run_block b) ≡ expected)
