-- ===== src/Spice/Stream.antt =====
-- linux/src/ydyun_spice.py, class SpiceDataParser: a buffer that is fed chunks of a byte stream.
pub mod Loop
pub mod Chunks
pub mod Delivery
use ydyun_vdesktop_linux_dri.Base.{
  ℕ, zero, suc, ◌+◌, Bool, List, [], ◌∷◌, ◌++◌, length, drop, Result, ok, err,
}
use ydyun_vdesktop_linux_dri.Spice.Errors.{
  SpiceError, need_more_data, protocol, struct_error, index_error,
}
use ydyun_vdesktop_linux_dri.Spice.Frame.{SpiceDataFrame, header_size, parse_data_frame}

pub record SpiceDataParser : Type 0 where
  pub mini_header : Bool
  pub max_size : ℕ
  pub buffer : List ℕ

-- How a call of `feed` ends: with the frames, or with an exception, in which case the frames that
-- it had collected are lost. `out_of_fuel` is no Python value.
pub data Outcome : Type 0 where
  done : List SpiceDataFrame → Outcome
  raised : SpiceError → Outcome
  out_of_fuel : Outcome

unfoldable pub new_parser : Bool → ℕ → SpiceDataParser
new_parser mini max = record { mini_header = mini; max_size = max; buffer = [] }

-- `while self._buffer`: the buffer at the end, and the outcome. Only `NeedMoreData` is caught.
pub feed_loop : ℕ → Bool → ℕ → List ℕ → List SpiceDataFrame → List ℕ × Outcome
feed_loop zero mini max buffer frames = (buffer, out_of_fuel)
feed_loop (suc fuel) mini max [] frames = ([], done frames)
feed_loop (suc fuel) mini max (b ∷ bs) frames = elim (parse_data_frame (b ∷ bs) mini max) [
  | ok frame ↦
      feed_loop fuel mini max (drop (header_size mini + frame.size) (b ∷ bs)) (frames ++ frame ∷ [])
  | err need_more_data ↦ (b ∷ bs, done frames)
  | err (protocol r) ↦ (b ∷ bs, raised (protocol r))
  | err struct_error ↦ (b ∷ bs, raised struct_error)
  | err index_error ↦ (b ∷ bs, raised index_error)
]

-- Each round takes a header at least, so one round more than the bytes is enough.
unfoldable pub feed : SpiceDataParser → List ℕ → SpiceDataParser × Outcome
unfolding feed_loop
feed p bytes =
    let buffer = p.buffer ++ bytes in
    let (rest, outcome) = feed_loop (suc (length buffer)) p.mini_header p.max_size buffer [] in
    (record p { buffer = rest }, outcome)

abbrev pub buffered_bytes : SpiceDataParser → ℕ
buffered_bytes p = length p.buffer
