-- ===== src/Spice/Stream/Delivery.antt =====
-- A whole stream of packed frames, delivered to the parser in any pieces.
use ydyun_vdesktop_linux_dri.Base.{
  concat, ℕ, ◌+◌, ◌≡◌, refl, sym, ◌∙◌, inl, Bool, List, [], ◌∷◌, ◌++◌, map, All, arith, length,
  drop, append-nil, drop-length, length-append,
}
use ydyun_vdesktop_linux_dri.Spice.Frame.{SpiceDataFrame, header_size}
use ydyun_vdesktop_linux_dri.Spice.Frame.Packets.{
  Packet, IsPacket, packet_bytes, packet_frame, packet_header, length-packet_header,
  parse_data_frame-packet_bytes,
}
use ydyun_vdesktop_linux_dri.Spice.Stream.{
  SpiceDataParser, new_parser, Outcome, done, raised, out_of_fuel, feed,
}
use ydyun_vdesktop_linux_dri.Spice.Stream.Loop.{Reads}
use ydyun_vdesktop_linux_dri.Spice.Stream.Chunks.{
  IsReady, feed-ready, feed_passes, feed_chunks, feed_poisoned, after, with_buffer, feed-Runs,
  feed_settings,
}

-- A reader that feeds one piece after the other and collects the frames.
abbrev pub on_done :
    SpiceDataParser × Outcome
    → (SpiceDataParser → SpiceDataParser × Outcome)
    → SpiceDataParser × Outcome
on_done (p, done fs) next = after fs (next p)
on_done (p, raised e) next = (p, raised e)
on_done (p, out_of_fuel) next = (p, out_of_fuel)

pub feed_all : SpiceDataParser → List (List ℕ) → SpiceDataParser × Outcome
feed_all p [] = (p, done [])
feed_all p (c ∷ cs) = on_done (feed p c) (λ q. feed_all q cs)

after-done :
    (fs gs : List SpiceDataFrame) (r : SpiceDataParser × Outcome) (q : SpiceDataParser)
    → after fs r ≡ (q, done gs)
    → (hs : List SpiceDataFrame) × (r ≡ (q, done hs)) × (gs ≡ fs ++ hs)
after-done fs gs (p, done hs) q e = (hs, cc, cc)
after-done fs gs (p, raised x) q e = cc
after-done fs gs (p, out_of_fuel) q e = cc

-- A call that returns leaves the parser ready.
pub feed-done-IsReady :
    (p q : SpiceDataParser) (bytes : List ℕ) (fs : List SpiceDataFrame)
    → feed p bytes ≡ (q, done fs)
    → IsReady q
feed-done-IsReady p q bytes fs e =
    let kept : q ≡ with_buffer p q.buffer = rw e at (feed_settings p bytes) in
    let ends = (feed-Runs p bytes).2 in rw kept (rw e at ends).1

first_piece :
    (p q : SpiceDataParser) (c rest : List ℕ) (fs : List SpiceDataFrame)
    (next : SpiceDataParser → SpiceDataParser × Outcome)
    → ((p' : SpiceDataParser) (gs : List SpiceDataFrame)
        → IsReady p'
        → feed p' rest ≡ (q, done gs)
        → next p' ≡ (q, done gs))
    → feed p (c ++ rest) ≡ (q, done fs)
    → on_done (feed p c) next ≡ (q, done fs)
first_piece p q c rest fs next ih e = go (feed p c) refl
  where
    go : (r : SpiceDataParser × Outcome) → feed p c ≡ r → on_done r next ≡ (q, done fs)
    go (p', done gs) h =
        let (hs, left, same) =
          after-done gs fs (feed p' rest) q (sym (feed_chunks p p' c rest gs h) ∙ e) in
        rw (ih p' hs (feed-done-IsReady p p' c gs h) left, same)
    go (p', raised x) h = cc ((feed_poisoned p p' c rest x h).1)
    go (p', out_of_fuel) h = absurd (rw h at ((feed-Runs p c).2))

-- The pieces do not matter: where a parser that holds no whole frame reads the whole stream
-- without an exception, feeding it the stream in any pieces returns the same frames and leaves
-- the same parser.
pub feed_all-concat :
    (cs : List (List ℕ)) (p q : SpiceDataParser) (fs : List SpiceDataFrame)
    → IsReady p
    → feed p (concat cs) ≡ (q, done fs)
    → feed_all p cs ≡ (q, done fs)
unfolding feed_all
feed_all-concat [] p q fs s e = sym (feed-ready p s) ∙ e
feed_all-concat (c ∷ cs) p q fs s e =
    first_piece p q c (concat cs) fs (λ p'. feed_all p' cs)
      (λ p' gs ready left. feed_all-concat cs p' q gs ready left) e

abbrev pub packets_bytes : Bool → List Packet → List ℕ
packets_bytes mini [] = []
packets_bytes mini (p ∷ ps) = packet_bytes mini p ++ packets_bytes mini ps

drop-packet_bytes :
    (mini : Bool) (p : Packet) (rest : List ℕ)
    → drop (header_size mini + length p.payload) (packet_bytes mini p ++ rest) ≡ rest
drop-packet_bytes mini p rest =
    let size : header_size mini + length p.payload ≡ length (packet_bytes mini p) =
      omega (arith, length-append (packet_header mini p) p.payload, length-packet_header mini p) in
    rw size (drop-length (packet_bytes mini p) rest)

Reads-packets :
    (mini : Bool) (max : ℕ) (ps : List Packet)
    → All (IsPacket max) ps
    → Reads mini max (map (packet_frame mini) ps) (packets_bytes mini ps) []
Reads-packets mini max [] v = refl
Reads-packets mini max (p ∷ ps) (v, vs) = (
  parse_data_frame-packet_bytes mini max p (packets_bytes mini ps) v,
  rw (drop-packet_bytes mini p (packets_bytes mini ps)) (Reads-packets mini max ps vs),
)

new_parser-IsReady : (mini : Bool) (max : ℕ) → IsReady (new_parser mini max)
unfolding new_parser
new_parser-IsReady mini max = inl refl

-- Packets whose fields fit their places in the header and whose payloads are within the parser's
-- limit, packed one behind the other, come out of a new parser as the same frames in the same
-- order, in whatever pieces their bytes arrive, and no byte is left over.
pub feed_all-packets :
    (mini : Bool) (max : ℕ) (ps : List Packet) (cs : List (List ℕ))
    → All (IsPacket max) ps
    → concat cs ≡ packets_bytes mini ps
    → feed_all (new_parser mini max) cs ≡ (new_parser mini max, done (map (packet_frame mini) ps))
feed_all-packets mini max ps cs v e =
    feed_all-concat cs (new_parser mini max) (new_parser mini max) _ (new_parser-IsReady mini max) (
      rw e (
        unfold new_parser in
        feed_passes (new_parser mini max) (packets_bytes mini ps) [] _ (Reads-packets mini max ps v)
        ∙ rw (feed-ready (new_parser mini max) (inl refl)) (rw append-nil)))
