-- ===== src/Spice/Probe/History.antt =====
-- What the frames before say: the codec of a stream, the number of its samples, and the names of the
-- files that the probe writes.
use Prim.Native.String.{String}
use ydyun_vdesktop_linux_dri.Base.{
  ◌==◌, ◌+◌, arith, ℕ, ◌≡◌, refl, ◌∙◌, ap, List, [], ◌∷◌, ◌++◌, Option, none, some, take, drop,
  Text, Bool-cases, inl, inr, Result, ok, if◌then◌else◌, true, suc,
}
use ydyun_vdesktop_linux_dri.Spice.Errors.{SpiceError}
use ydyun_vdesktop_linux_dri.Spice.Frame.{SpiceDataFrame}
use ydyun_vdesktop_linux_dri.Spice.Display.{
  DisplayMessage, StreamData, stream_create, stream_data, stream_destroy, surface_create,
  stream_data_sized, decode_display_message,
}
use ydyun_vdesktop_linux_dri.Spice.Display.Samples.{announced}
use ydyun_vdesktop_linux_dri.Spice.Probe.{Options, Progress, add_codec, sample_name, lookup}

-- The codec of the last message before that created the stream; the newest frame is the first.
abbrev pub created : ℕ → Result SpiceError (Option DisplayMessage) → String → String
created stream_id (ok (some (stream_create c))) earlier =
    if c.stream_id == stream_id then c.codec else earlier
created stream_id other earlier = earlier

unfoldable pub codec_of : ℕ → List SpiceDataFrame → String
codec_of stream_id [] = "unknown"
codec_of stream_id (frame ∷ before) =
    created stream_id (decode_display_message frame) (codec_of stream_id before)

-- How many of the frames before announce a sample of the stream.
abbrev pub in_stream : ℕ → Option StreamData → ℕ
in_stream stream_id none = 0
in_stream stream_id (some d) = if d.stream_id == stream_id then 1 else 0

abbrev pub counted : ℕ → Result SpiceError (Option DisplayMessage) → ℕ
counted stream_id (ok (some m)) = in_stream stream_id (announced m)
counted stream_id other = 0

unfoldable pub count_of : ℕ → List SpiceDataFrame → ℕ
count_of stream_id [] = 0
count_of stream_id (frame ∷ before) =
    counted stream_id (decode_display_message frame) + count_of stream_id before

-- A file: its name and its bytes.
abbrev pub SampleFile : Type 0
SampleFile = Text × List ℕ

-- The bytes of the payload that the decoded message announces as a sample, under the name of the
-- stream, its codec and the number of its samples before.
abbrev pub cut : List SpiceDataFrame → List ℕ → Option StreamData → List SampleFile
cut before payload none = []
cut before payload (some d) =
    (
      sample_name d.stream_id (codec_of d.stream_id before) (count_of d.stream_id before),
      take d.sample_size (drop d.sample_offset payload),
    )
    ∷ []

abbrev pub message_sample :
    List SpiceDataFrame → List ℕ → Result SpiceError (Option DisplayMessage) → List SampleFile
message_sample before payload (ok (some m)) = cut before payload (announced m)
message_sample before payload other = []

-- The samples of the frames, in order, behind other frames.
unfoldable pub samples : List SpiceDataFrame → List SpiceDataFrame → List SampleFile
samples before [] = []
samples before (frame ∷ frames) =
    message_sample before frame.payload (decode_display_message frame)
    ++ samples (frame ∷ before) frames

-- The dictionaries of the program hold what the frames before say.
abbrev pub Codecs : List SpiceDataFrame → List (ℕ × String) → Type 0
Codecs before codecs = (id : ℕ) → lookup codecs id "unknown" ≡ codec_of id before

abbrev pub Counts : List SpiceDataFrame → List (ℕ × ℕ) → Type 0
Counts before counts = (id : ℕ) → lookup counts id 0 ≡ count_of id before

abbrev pub IsHistory : Options → List SpiceDataFrame → Progress → Type 0
IsHistory o before p = Codecs before p.codecs × (o.extract ≡ true → Counts before p.counts)

pub Codecs-step :
    (frame : SpiceDataFrame) (decoded : Option DisplayMessage) (before : List SpiceDataFrame)
    (codecs : List (ℕ × String))
    → decode_display_message frame ≡ ok decoded
    → Codecs before codecs
    → Codecs (frame ∷ before) (add_codec decoded codecs)
unfolding codec_of
Codecs-step frame none before codecs d h id = rw (codec_of, d) (h id)
Codecs-step frame (some (stream_create c)) before codecs d h id = rw (codec_of, d, h id) refl
Codecs-step frame (some (stream_data c)) before codecs d h id = rw (codec_of, d) (h id)
Codecs-step frame (some (stream_destroy c)) before codecs d h id = rw (codec_of, d) (h id)
Codecs-step frame (some (surface_create c)) before codecs d h id = rw (codec_of, d) (h id)
Codecs-step frame (some (stream_data_sized c)) before codecs d h id = rw (codec_of, d) (h id)

pub Counts-step :
    (frame : SpiceDataFrame) (m : DisplayMessage) (d : StreamData) (before : List SpiceDataFrame)
    (counts : List (ℕ × ℕ))
    → decode_display_message frame ≡ ok (some m)
    → announced m ≡ some d
    → Counts before counts
    → Counts (frame ∷ before) ((d.stream_id, suc (lookup counts d.stream_id 0)) ∷ counts)
unfolding count_of
Counts-step frame m d before counts e a h id = elim (Bool-cases (d.stream_id == id)) [
  | inl same ↦
      let there : d.stream_id ≡ id = ground arith in
      let known = h d.stream_id ∙ ap (λ i. count_of i before) there in
      rw (count_of, e, a, same) (ap suc known ∙ omega arith)
  | inr other ↦ rw (count_of, e, a, other) (h id ∙ omega arith)
]

-- No sample is announced by this frame.
pub uncounted :
    (o : Options) (frame : SpiceDataFrame) (before : List SpiceDataFrame) (counts : List (ℕ × ℕ))
    → ((id : ℕ) → counted id (decode_display_message frame) ≡ 0)
    → (o.extract ≡ true → Counts before counts)
    → o.extract ≡ true
    → Counts (frame ∷ before) counts
unfolding count_of
uncounted o frame before counts none' h on id = rw (count_of, none' id) (h on id ∙ omega arith)
