-- ===== src/Spice/Probe/Steps.antt =====
-- What a round of the probe's loop prints and writes.
use ydyun_vdesktop_linux_dri.Base.{
  ◌≡◌, refl, sym, ◌∙◌, ap, subst, List, [], ◌∷◌, ◌++◌, append_assoc, append-nil, Option, none, some,
  Bool-cases, inl, inr, ok, Result-cases, if◌then◌else◌, true,
}
use ydyun_vdesktop_linux_dri.Spice.Frame.{SpiceDataFrame}
use ydyun_vdesktop_linux_dri.Spice.Display.{
  DisplayMessage, StreamData, stream_create, stream_data, stream_destroy, surface_create,
  stream_data_sized, decode_display_message,
}
use ydyun_vdesktop_linux_dri.Spice.Display.Samples.{announced, extract-decode}
use ydyun_vdesktop_linux_dri.Spice.Probe.{
  Options, Line, link_line, data_line, Progress, Ended, sample_stream, add_codec, store,
  with_stream, frame_step, frame_loop,
}
use ydyun_vdesktop_linux_dri.Spice.Probe.History.{
  SampleFile, cut, message_sample, samples, Codecs, Counts, IsHistory, Codecs-step, Counts-step,
  uncounted,
}

-- The frames that have been printed.
abbrev pub line_frames : List Line → List SpiceDataFrame
line_frames [] = []
line_frames (link_line link ∷ lines) = line_frames lines
line_frames (data_line frame decoded name ∷ lines) = frame ∷ line_frames lines

line_frames-append : (xs ys : List Line) → line_frames (xs ++ ys) ≡ line_frames xs ++ line_frames ys
line_frames-append [] ys = refl
line_frames-append (link_line link ∷ xs) ys = line_frames-append xs ys
line_frames-append (data_line f d n ∷ xs) ys = ap (◌∷◌ f) (line_frames-append xs ys)

-- From one progress to the next: the frames have been printed, and the samples written.
abbrev pub Adds : Progress → Progress → List SpiceDataFrame → List SampleFile → Type 0
Adds p q frames files =
    (line_frames q.lines ≡ line_frames p.lines ++ frames) × (q.files ≡ p.files ++ files)

abbrev pub if_extracts : Options → List SampleFile → List SampleFile
if_extracts o files = if o.extract then files else []

if_extracts-none : (o : Options) → if_extracts o [] ≡ []
if_extracts-none o = elim (Bool-cases o.extract) [ inl t ↦ rw t refl | inr f ↦ rw f refl ]

-- A message without a sample: only a line is added.
module _ (o : Options) (before : List SpiceDataFrame) (frame : SpiceDataFrame)
    (decoded : Option DisplayMessage) (p q : Progress) where
  pub Adds-line :
      ◌≡◌ {A = Ended} (store frame decoded [] none p, none) (q, none)
      → Codecs (frame ∷ before) p.codecs
      → (o.extract ≡ true → Counts (frame ∷ before) p.counts)
      → Adds p q (frame ∷ []) [] × IsHistory o (frame ∷ before) q
  Adds-line e codecs counts =
      let same : store frame decoded [] none p ≡ q = ap (λ x. x.0) e in
      subst (λ x. Adds p x (frame ∷ []) [] × IsHistory o (frame ∷ before) x) same
        (
          (
            line_frames-append p.lines (data_line frame decoded none ∷ []),
            sym (append-nil p.files),
          ),
          (codecs, counts),
        )

-- A message with a sample: a line, and the sample if the option asks for it.
Adds-sample :
    (o : Options) (before : List SpiceDataFrame) (frame : SpiceDataFrame) (m : DisplayMessage)
    (d : StreamData) (p q : Progress)
    → decode_display_message frame ≡ ok (some m)
    → announced m ≡ some d
    → with_stream o frame (some m) (some d.stream_id) p ≡ (q, none)
    → Codecs before p.codecs
    → Codecs (frame ∷ before) p.codecs
    → (o.extract ≡ true → Counts before p.counts)
    → Adds p q (frame ∷ []) (if_extracts o (cut before frame.payload (some d)))
      × IsHistory o (frame ∷ before) q
Adds-sample o before frame m d p q decoded a e codecs codecs' counts = elim (Bool-cases o.extract) [
  | inl on ↦
      let sample = (extract-decode frame m d decoded a).0 in
      let e' = rw (on, sample) at e in
      let counts' = Counts-step frame m d before p.counts decoded a (counts on) in
      let both =
        subst
          (λ x.
            Adds p x (frame ∷ []) (cut before frame.payload (some d))
            × IsHistory o (frame ∷ before) x)
          (ap (λ x. x.0) e')
          (
            (
              line_frames-append p.lines (data_line frame (some m) _ ∷ []),
              rw (codecs d.stream_id, counts on d.stream_id) refl,
            ),
            (codecs', λ asked. counts'),
          ) in
      (rw on both.0, both.1)
  | inr off ↦
      let line =
        Adds-line o before frame (some m) p q (rw off at e) codecs' (λ on. cc (sym off ∙ on)) in
      (rw off line.0, line.1)
]

module _ (o : Options) (before : List SpiceDataFrame) (frame : SpiceDataFrame) (p q : Progress)
    (codecs : Codecs before p.codecs) (counts : o.extract ≡ true → Counts before p.counts) where
  with_stream-Adds :
      (decoded : Option DisplayMessage)
      → decode_display_message frame ≡ ok decoded
      → with_stream o frame decoded
          (sample_stream decoded)
          (record p { codecs = add_codec decoded p.codecs })
        ≡ (q, none)
      → Adds p q (frame ∷ []) (if_extracts o (message_sample before frame.payload (ok decoded)))
        × IsHistory o (frame ∷ before) q
  with_stream-Adds none h e =
      let line =
        Adds-line o before frame none p q e (Codecs-step frame none before p.codecs h codecs)
          (uncounted o frame before p.counts (λ id. rw h refl) counts) in
      (rw (if_extracts-none o) line.0, line.1)
  with_stream-Adds (some (stream_create c)) h e =
      let line =
        Adds-line o before frame (some (stream_create c))
          (record p { codecs = add_codec (some (stream_create c)) p.codecs }) q e
          (Codecs-step frame (some (stream_create c)) before p.codecs h codecs)
          (uncounted o frame before p.counts (λ id. rw h refl) counts) in
      (rw (if_extracts-none o) line.0, line.1)
  with_stream-Adds (some (stream_destroy c)) h e =
      let line =
        Adds-line o before frame (some (stream_destroy c)) p q e
          (Codecs-step frame (some (stream_destroy c)) before p.codecs h codecs)
          (uncounted o frame before p.counts (λ id. rw h refl) counts) in
      (rw (if_extracts-none o) line.0, line.1)
  with_stream-Adds (some (surface_create c)) h e =
      let line =
        Adds-line o before frame (some (surface_create c)) p q e
          (Codecs-step frame (some (surface_create c)) before p.codecs h codecs)
          (uncounted o frame before p.counts (λ id. rw h refl) counts) in
      (rw (if_extracts-none o) line.0, line.1)
  with_stream-Adds (some (stream_data d)) h e =
      Adds-sample o before frame (stream_data d) d p q h refl e codecs
        (Codecs-step frame (some (stream_data d)) before p.codecs h codecs) counts
  with_stream-Adds (some (stream_data_sized s)) h e =
      Adds-sample o before frame (stream_data_sized s) s.sample p q h refl e codecs
        (Codecs-step frame (some (stream_data_sized s)) before p.codecs h codecs) counts

  frame_step-Adds :
      frame_step o frame p ≡ (q, none)
      → Adds p q
          (frame ∷ [])
          (if_extracts o (message_sample before frame.payload (decode_display_message frame)))
        × IsHistory o (frame ∷ before) q
  unfolding frame_step
  frame_step-Adds e = elim (Result-cases (decode_display_message frame)) [
    | inr (x, bad) ↦ let e' = rw bad at e in absurd (cc (ap (λ r. r.1) e'))
    | inl (decoded, good) ↦
        let added = with_stream-Adds decoded good (rw good at e) in (rw good added.0, added.1)
  ]

if_extracts-append :
    (o : Options) (xs ys : List SampleFile)
    → if_extracts o xs ++ if_extracts o ys ≡ if_extracts o (xs ++ ys)
if_extracts-append o xs ys = elim (Bool-cases o.extract) [ inl t ↦ rw t refl | inr f ↦ rw f refl ]

pub frame_loop-Adds :
    (o : Options) (before frames : List SpiceDataFrame) (p q : Progress)
    → IsHistory o before p
    → frame_loop o frames p ≡ (q, none)
    → Adds p q frames (if_extracts o (samples before frames))
unfolding frame_loop samples
frame_loop-Adds o before [] p q history e =
    let same : p ≡ q = ap (λ x. x.0) e in
    subst (λ x. Adds p x [] (if_extracts o [])) same
      (sym (append-nil (line_frames p.lines)), rw (if_extracts-none o) (sym (append-nil p.files)))
frame_loop-Adds o before (frame ∷ frames) p q history e =
    go (frame_step o frame p) refl (λ p' h k. frame_loop-Adds o (frame ∷ before) frames p' q h k)
  where
    go :
        (r : Ended)
        → frame_step o frame p ≡ r
        → ((p' : Progress)
            → IsHistory o (frame ∷ before) p'
            → frame_loop o frames p' ≡ (q, none)
            → Adds p' q frames (if_extracts o (samples (frame ∷ before) frames)))
        → Adds p q (frame ∷ frames) (
            if_extracts o (
              message_sample before frame.payload (decode_display_message frame)
              ++ samples (frame ∷ before) frames))
    go (p', some x) h ih = let e' = rw h at e in absurd (cc (ap (λ r. r.1) e'))
    go (p', none) h ih =
        let sample = message_sample before frame.payload (decode_display_message frame) in
        let later = samples (frame ∷ before) frames in
        let ((lines, files), history') =
          frame_step-Adds o before frame p p' history.0 history.1 h in
        let (lines', files') = ih p' history' (rw h at e) in
        (
          lines'
              ∙ ap (λ l. l ++ frames) lines
              ∙ append_assoc (line_frames p.lines) (frame ∷ []) frames,
          files'
              ∙ ap (λ l. l ++ if_extracts o later) files
              ∙ append_assoc p.files (if_extracts o sample) (if_extracts o later)
              ∙ ap (λ l. p.files ++ l) (if_extracts-append o sample later),
        )
