-- ===== src/Spice/Stream/Chunks.antt =====
-- `feed` on a stream that arrives in pieces.
use ydyun_vdesktop_linux_dri.Base.{
  ℕ, suc, ◌≡◌, refl, sym, ap, ◌∙◌, List, [], ◌++◌, arith, length, err, append_assoc, append-nil,
}
use ydyun_vdesktop_linux_dri.Spice.Errors.{SpiceError, Reason, protocol}
use ydyun_vdesktop_linux_dri.Spice.Frame.{SpiceDataFrame, parse_data_frame}
use ydyun_vdesktop_linux_dri.Spice.Frame.Laws.{parse_data_frame-append_protocol}
use ydyun_vdesktop_linux_dri.Spice.Stream.{
  SpiceDataParser, Outcome, done, raised, out_of_fuel, feed_loop, feed,
}
use ydyun_vdesktop_linux_dri.Spice.Stream.Loop.{
  Reads, Stops, Ends, feed_loop-Runs, feed_loop-Reads, Reads-append, prepend, feed_loop-prepend,
  feed_loop_refused, feed_loop-Stops,
}

-- The buffer holds no whole frame and nothing that is refused: what `feed` leaves when it returns.
abbrev pub IsReady : SpiceDataParser → Type 0
IsReady p = Stops p.mini_header p.max_size p.buffer

abbrev pub with_buffer : SpiceDataParser → List ℕ → SpiceDataParser
with_buffer p buffer = record p { buffer = buffer }

abbrev pub after : List SpiceDataFrame → SpiceDataParser × Outcome → SpiceDataParser × Outcome
after fs (q, done gs) = (q, done (fs ++ gs))
after fs (q, raised e) = (q, raised e)
after fs (q, out_of_fuel) = (q, out_of_fuel)

-- A call of `feed` always ends. It reads the frames that stand at the front of the old buffer and
-- the new bytes, leaves the rest in the buffer, and stops where no whole frame is left, or raises
-- the refusal of the bytes that it leaves.
pub feed-Runs :
    (p : SpiceDataParser) (bytes : List ℕ)
    → (fs : List SpiceDataFrame) × Reads p.mini_header p.max_size fs
        (p.buffer ++ bytes)
        (feed p bytes).0.buffer
      × Ends p.mini_header p.max_size (feed p bytes).0.buffer fs (feed p bytes).1
unfolding feed
feed-Runs p bytes =
    let buffer = p.buffer ++ bytes in
    feed_loop-Runs p.mini_header p.max_size (suc (length buffer)) buffer [] (omega arith)

pub feed-ready : (p : SpiceDataParser) → IsReady p → feed p [] ≡ (p, done [])
unfolding feed
feed-ready p s =
    let stops = feed_loop-Stops p.mini_header p.max_size (length p.buffer) p.buffer [] s in
    rw (append-nil p.buffer, stops)

pub feed_settings :
    (p : SpiceDataParser) (bytes : List ℕ)
    → (feed p bytes).0 ≡ with_buffer p (feed p bytes).0.buffer
unfolding feed
feed_settings p bytes = refl

-- The frames at the front are passed over.
pub feed_passes :
    (p : SpiceDataParser) (bytes rest : List ℕ) (fs : List SpiceDataFrame)
    → Reads p.mini_header p.max_size fs (p.buffer ++ bytes) rest
    → feed p bytes ≡ after fs (feed (with_buffer p []) rest)
unfolding feed
feed_passes p bytes rest fs r =
    let skip =
      feed_loop-Reads p.mini_header p.max_size fs (suc (length (p.buffer ++ bytes)))
        (suc (length rest)) (p.buffer ++ bytes) rest [] (omega arith) (omega arith) r in
    let collect = feed_loop-prepend p.mini_header p.max_size (suc (length rest)) rest fs in
    rw (skip, collect) (go (feed_loop (suc (length rest)) p.mini_header p.max_size rest []))
  where
    go :
        (r : List ℕ × Outcome)
        → (
          with_buffer p (prepend p.mini_header p.max_size fs r).0,
          (prepend p.mini_header p.max_size fs r).1,
        )
          ≡ after fs (with_buffer p r.0, r.1)
    go (rest, done gs) = refl
    go (rest, raised e) = refl
    go (rest, out_of_fuel) = refl

feed_buffer :
    (p : SpiceDataParser) (bytes : List ℕ)
    → feed p bytes ≡ feed (with_buffer p []) (p.buffer ++ bytes)
unfolding feed
feed_buffer p bytes = refl

-- A stream may be cut anywhere: feeding the two pieces gives the frames of the whole, in order,
-- and leaves the same parser, if the first call returns.
pub feed_chunks :
    (p q : SpiceDataParser) (a b : List ℕ) (fs : List SpiceDataFrame)
    → feed p a ≡ (q, done fs)
    → feed p (a ++ b) ≡ after fs (feed q b)
feed_chunks p q a b fs e =
    let (gs, reads, ends) = feed-Runs p a in
    let kept : with_buffer q [] ≡ with_buffer p [] =
      ap (λ r. with_buffer r []) (rw e at (feed_settings p a)) in
    let same : fs ≡ gs = (rw e at ends).0 in
    let reads' = Reads-append p.mini_header p.max_size gs (p.buffer ++ a) _ b reads in
    feed_passes p (a ++ b) (q.buffer ++ b) gs (rw (append_assoc p.buffer a b, e) at reads')
    ∙ rw (← same, ← kept) (ap (after fs) (sym (feed_buffer q b)))

feed_refused :
    (p : SpiceDataParser) (b : List ℕ) (r : Reason)
    → parse_data_frame p.buffer p.mini_header p.max_size ≡ err (protocol r)
    → feed p b ≡ (with_buffer p (p.buffer ++ b), raised (protocol r))
unfolding feed
feed_refused p b r e =
    let refused = parse_data_frame-append_protocol p.buffer b p.mini_header p.max_size r e in
    rw (
      feed_loop_refused p.mini_header p.max_size (length (p.buffer ++ b)) (p.buffer ++ b) [] r
        refused)

-- A refusal is final: once a call has raised, every later call raises the same exception, whatever
-- it is fed, and so does the whole stream in one call. Nothing is taken off the buffer again.
pub feed_poisoned :
    (p q : SpiceDataParser) (a b : List ℕ) (e : SpiceError)
    → feed p a ≡ (q, raised e)
    → (feed q b ≡ (with_buffer q (q.buffer ++ b), raised e))
      × (feed p (a ++ b) ≡ (with_buffer q (q.buffer ++ b), raised e))
feed_poisoned p q a b e h =
    let (gs, reads, ends) = feed-Runs p a in
    let kept : q ≡ with_buffer p q.buffer = rw h at (feed_settings p a) in
    let (r, is_r, refused) = rw h at ends in
    let reads' = Reads-append p.mini_header p.max_size gs (p.buffer ++ a) _ b reads in
    let later = feed_refused (with_buffer p q.buffer) b r refused in
    (
      rw (is_r, kept) later,
      feed_passes p (a ++ b) (q.buffer ++ b) gs (rw (append_assoc p.buffer a b, h) at reads')
          ∙ rw (is_r, kept) (ap (after gs) (sym (feed_buffer (with_buffer p q.buffer) b) ∙ later)),
    )
