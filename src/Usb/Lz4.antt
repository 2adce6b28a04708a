-- ===== src/Usb/Lz4.antt =====
-- linux/src/ydyun_usbctl.py: the decoder of a raw LZ4 block. A position `index` in `data` is
-- modelled by the bytes from it on.
pub mod Blocks
pub mod Decode
pub mod Rounds
pub mod Accepted
pub mod Ends
pub mod Copies
use ydyun_vdesktop_linux_dri.Base.{
  ℕ, zero, suc, ◌+◌, ◌-◌, ◌*◌, ◌/◌, ◌%◌, Bool, ◌||◌, not, List, [], ◌∷◌, ◌++◌, ltb, ◌==◌,
  if◌then◌else◌, length, take, drop, get_or, Result, ok, err, ◌>>=◌, ◌>>◌, raise_if,
}
use ydyun_vdesktop_linux_dri.Usb.Errors.{
  UsbError, controller, out_of_fuel, lz4_size_out_of_bounds, lz4_truncated_length,
  lz4_literals_exceed, lz4_output_exceeds, lz4_truncated_offset, lz4_invalid_offset,
  lz4_match_exceeds, lz4_size_mismatch,
}

abbrev pub codec_max_size : ℕ
codec_max_size = 64 * 1024 * 1024

-- `_lz4_length`: bytes 255 are added up, and one byte below 255 ends the length.
pub lz4_length : List ℕ → ℕ → Result UsbError (ℕ × List ℕ)
lz4_length [] length = err (controller lz4_truncated_length)
lz4_length (b ∷ rest) length =
    let more = lz4_length rest (length + 255) in if b == 255 then more else ok (length + b, rest)

-- A nibble of the token that is 15 has an extended length behind it. `bonus` is 0 or 4.
unfoldable pub nibble_length : ℕ → ℕ → List ℕ → Result UsbError (ℕ × List ℕ)
nibble_length nibble bonus rest =
    if nibble == 15 then lz4_length rest (nibble + bonus) else ok (nibble + bonus, rest)

-- `for _ in range(match_length): output.append(output[-offset])`
unfoldable pub copy_match : ℕ → ℕ → List ℕ → List ℕ
copy_match zero offset output = output
copy_match (suc n) offset output =
    copy_match n offset (output ++ get_or output (length output - offset) 0 ∷ [])

-- What one round of the loop does: it breaks, or goes on behind the match.
pub data Round : Type 0 where
  stop : List ℕ → Round
  go_on : List ℕ → List ℕ → Round

-- From the match's offset on. The offset's two bytes are below 256, so `|` is `+`.
unfoldable pub lz4_match : ℕ → ℕ → List ℕ → List ℕ → Result UsbError Round
lz4_match expected token [] output = ok (stop output)
lz4_match expected token (low ∷ []) output = err (controller lz4_truncated_offset)
lz4_match expected token (low ∷ high ∷ rest) output = do
  let offset = low + high * 256
  raise_if (offset == 0 || ltb (length output) offset) (controller lz4_invalid_offset)
  (match_length, rest') ← nibble_length (token % 16) 4 rest
  raise_if (ltb expected (length output + match_length)) (controller lz4_match_exceeds)
  ok (go_on rest' (copy_match match_length offset output))

-- One round: the literals, and the match behind them.
unfoldable pub lz4_round : ℕ → ℕ → List ℕ → List ℕ → Result UsbError Round
lz4_round expected token rest output = do
  (literal_length, rest') ← nibble_length (token / 16) 0 rest
  raise_if (ltb (length rest') literal_length) (controller lz4_literals_exceed)
  let output' = output ++ take literal_length rest'
  raise_if (ltb expected (length output')) (controller lz4_output_exceeds)
  lz4_match expected token (drop literal_length rest') output'

-- `while index < len(data)`
unfoldable pub lz4_loop : ℕ → ℕ → List ℕ → List ℕ → Result UsbError (List ℕ)
lz4_loop fuel expected [] output = ok output
lz4_loop zero expected (token ∷ rest) output = err out_of_fuel
lz4_loop (suc fuel) expected (token ∷ rest) output = lz4_round expected token rest output >>= elim [
  | stop output' ↦ ok output'
  | go_on rest' output' ↦ lz4_loop fuel expected rest' output'
]

-- Each round takes the token at least, so as many rounds as bytes are enough.
unfoldable pub lz4_decompress_block : List ℕ → ℕ → Result UsbError (List ℕ)
lz4_decompress_block bytes expected = do
  raise_if (ltb expected 1 || ltb codec_max_size expected) (controller lz4_size_out_of_bounds)
  output ← lz4_loop (length bytes) expected bytes []
  raise_if (not (length output == expected)) (controller lz4_size_mismatch)
  ok output
