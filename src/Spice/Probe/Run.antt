-- ===== src/Spice/Probe/Run.antt =====
-- What the probe has printed and written when it ends.
use ydyun_vdesktop_linux_dri.Base.{
  ℕ, ◌≡◌, ◌≢◌, refl, ◌∙◌, ap, List, [], ◌∷◌, ◌++◌, none, some, arith, ◌==◌, length, drop,
  Bool-cases, inl, inr, Result, err, ok, if◌then◌else◌,
}
use ydyun_vdesktop_linux_dri.Spice.Errors.{SpiceError}
use ydyun_vdesktop_linux_dri.Spice.Frame.{
  SpiceDataFrame, SpiceLinkHeader, link_header_size, max_frame_size,
}
use ydyun_vdesktop_linux_dri.Spice.Stream.{
  SpiceDataParser, Outcome, done, raised, out_of_fuel, new_parser, feed, buffered_bytes,
}
use ydyun_vdesktop_linux_dri.Spice.Stream.Chunks.{feed-Runs}
use ydyun_vdesktop_linux_dri.Spice.Probe.{
  Options, Line, link_line, status, out_of_rounds, Progress, Ended, frame_loop, ending, read_frames,
  after_link, read_link, main,
}
use ydyun_vdesktop_linux_dri.Spice.Probe.History.{samples, codec_of, count_of, IsHistory}
use ydyun_vdesktop_linux_dri.Spice.Probe.Steps.{line_frames, if_extracts, frame_loop-Adds}

-- The bytes that are read as frames.
abbrev pub body : Options → List ℕ → List ℕ
body o raw = if o.link_header then drop link_header_size raw else raw

-- What holds when main returns.
abbrev pub IsComplete : Options → List ℕ → Progress → Type 0
IsComplete o bytes p =
    (parser : SpiceDataParser) × (frames : List SpiceDataFrame) × (feed
        (new_parser o.mini_header max_frame_size) bytes
      ≡ (parser, done frames))
    × (parser.buffer ≡ [])
    × (line_frames p.lines ≡ frames)
    × (p.files ≡ if_extracts o (samples [] frames))

ending-status :
    (left : ℕ) (r : Ended) (p : Progress) (n : ℕ)
    → ending left r ≡ (p, status n)
    → (n ≡ 0) × (left ≡ 0) × (r ≡ (p, none))
ending-status left (q, some e) p n h = let h' = ap (λ x. x.1) h in absurd (ground arith)
ending-status left (q, none) p n h = elim (Bool-cases (left == 0)) [
  | inr more ↦ let h' = ap (λ x. x.1) (rw more at h) in absurd (ground arith)
  | inl nothing ↦
      let h' = rw nothing at h in
      let exit = ap (λ x. x.1) h' in (ground arith, ground arith, ap (λ x. (x.0, none)) h')
]

length-zero : (xs : List ℕ) → length xs ≡ 0 → xs ≡ []
length-zero [] h = refl
length-zero (x ∷ xs) h = absurd (omega arith)

read_frames-IsComplete :
    (o : Options) (bytes : List ℕ) (lines : List Line) (p : Progress) (n : ℕ)
    → line_frames lines ≡ []
    → read_frames o bytes lines ≡ (p, status n)
    → (n ≡ 0) × IsComplete o bytes p
unfolding read_frames codec_of count_of
read_frames-IsComplete o bytes lines p n empty e =
    go (feed (new_parser o.mini_header max_frame_size) bytes) refl
  where
    first : Progress
    first = record { codecs = []; counts = []; files = []; lines = lines }

    history : IsHistory o [] first
    history = (λ id. refl, λ on id. refl)

    go :
        (r : SpiceDataParser × Outcome)
        → feed (new_parser o.mini_header max_frame_size) bytes ≡ r
        → (n ≡ 0) × IsComplete o bytes p
    go (parser, raised x) h = let e' = ap (λ y. y.1) (rw h at e) in absurd (ground arith)
    go (parser, out_of_fuel) h = let e' = ap (λ y. y.1) (rw h at e) in absurd (ground arith)
    go (parser, done frames) h =
        let (zero', left, run) =
          ending-status (buffered_bytes parser) (frame_loop o frames first) p n (rw h at e) in
        let (printed, written) = frame_loop-Adds o [] frames first p history run in
        (
          zero',
          (
            parser,
            frames,
            h,
            length-zero parser.buffer left,
            printed ∙ ap (λ l. l ++ frames) empty,
            written,
          ),
        )

-- When main of the probe returns, which it does not on an exception (the script turns
-- SpiceProtocolError into the status 2), it returns 0. It has then read all bytes behind the link
-- header as whole frames, printed a line for each frame in order, and, if it was asked to, written for
-- each message that announces a sample exactly the announced bytes, in the order of the frames, to the
-- file named after the stream, the codec of its last creation before and the number of its samples
-- before.
pub main-IsComplete :
    (o : Options) (raw : List ℕ) (p : Progress) (n : ℕ)
    → main o raw ≡ (p, status n)
    → (n ≡ 0) × IsComplete o (body o raw) p
unfolding main
main-IsComplete o raw p n e = elim (Bool-cases o.link_header) [
  | inr off ↦ rw off (read_frames-IsComplete o raw [] p n refl (rw off at e))
  | inl on ↦ rw on (linked (read_link raw) (rw on at e))
]
  where
    linked :
        (r : Result SpiceError SpiceLinkHeader)
        → after_link o raw r ≡ (p, status n)
        → (n ≡ 0) × IsComplete o (drop link_header_size raw) p
    linked (err x) h = let h' = ap (λ y. y.1) h in absurd (ground arith)
    linked (ok link) h =
        read_frames-IsComplete o (drop link_header_size raw) (link_line link ∷ []) p n refl h

ending-rounds : (left : ℕ) (r : Ended) → (ending left r).1 ≢ out_of_rounds
ending-rounds left (q, some e) h = ground arith
ending-rounds left (q, none) h = ground arith

read_frames-rounds :
    (o : Options) (bytes : List ℕ) (lines : List Line)
    → (read_frames o bytes lines).1 ≢ out_of_rounds
unfolding read_frames
read_frames-rounds o bytes lines h = go (feed (new_parser o.mini_header max_frame_size) bytes) refl
  where
    go :
        (r : SpiceDataParser × Outcome)
        → feed (new_parser o.mini_header max_frame_size) bytes ≡ r
        → ⊥
    go (parser, raised x) e = let h' = rw e at h in ground arith
    go (parser, out_of_fuel) e =
        let (fs, reads, ends) = feed-Runs (new_parser o.mini_header max_frame_size) bytes in
        rw e at ends
    go (parser, done frames) e = ending-rounds (buffered_bytes parser) _ (rw e at h)

-- The probe ends on every input: with a status or with an exception.
pub main_ends : (o : Options) (raw : List ℕ) → (main o raw).1 ≢ out_of_rounds
unfolding main
main_ends o raw = elim (Bool-cases o.link_header) [
  | inr off ↦ rw off (read_frames-rounds o raw [])
  | inl on ↦ rw on (linked (read_link raw))
]
  where
    linked : (r : Result SpiceError SpiceLinkHeader) → (after_link o raw r).1 ≢ out_of_rounds
    linked (err x) h = ground arith
    linked (ok link) h = read_frames-rounds o (drop link_header_size raw) (link_line link ∷ []) h
