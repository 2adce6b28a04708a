-- ===== src/Spice/Stream/Loop.antt =====
-- The loop of `feed` against a relation that reads frames off the front of a buffer.
use ydyun_vdesktop_linux_dri.Base.{
  ℕ, zero, suc, ◌+◌, ◌≤◌, ◌<◌, ◌≡◌, refl, sym, ap, ◌∙◌, ◌⊎◌, inl, inr, Bool, List, [], ◌∷◌, ◌++◌,
  arith, length, drop, Result, ok, err, append_assoc, append-nil, length-drop, drop-append,
}
use ydyun_vdesktop_linux_dri.Spice.Errors.{
  SpiceError, Reason, need_more_data, protocol, struct_error, index_error,
}
use ydyun_vdesktop_linux_dri.Spice.Frame.{SpiceDataFrame, header_size, parse_data_frame}
use ydyun_vdesktop_linux_dri.Spice.Frame.Laws.{
  parse_data_frame_fits, parse_data_frame-append_ok, parse_data_frame-ne-struct_error,
  parse_data_frame-ne-index_error,
}
use ydyun_vdesktop_linux_dri.Spice.Stream.{Outcome, done, raised, out_of_fuel, feed_loop}

module _ (mini : Bool) (max : ℕ) where
  -- The frames stand one behind the other at the front of the buffer, and `rest` is what is left.
  abbrev pub Reads : List SpiceDataFrame → List ℕ → List ℕ → Type 0
  Reads [] buffer rest = rest ≡ buffer
  Reads (f ∷ fs) buffer rest =
      (parse_data_frame buffer mini max ≡ ok f)
      × Reads fs (drop (header_size mini + f.size) buffer) rest

  -- The buffer holds no whole frame, and nothing that is refused.
  abbrev pub Stops : List ℕ → Type 0
  Stops buffer = (buffer ≡ []) ⊎ (parse_data_frame buffer mini max ≡ err need_more_data)

  -- How a run that has collected `frames` may end on the buffer `rest`.
  abbrev pub Ends : List ℕ → List SpiceDataFrame → Outcome → Type 0
  Ends rest frames (done fs) = (fs ≡ frames) × Stops rest
  Ends rest frames (raised e) =
      (r : Reason) × (e ≡ protocol r) × (parse_data_frame rest mini max ≡ err (protocol r))
  Ends rest frames out_of_fuel = ⊥

  abbrev pub Runs : List ℕ → List SpiceDataFrame → List ℕ × Outcome → Type 0
  Runs buffer frames (rest, o) =
      (fs : List SpiceDataFrame) × Reads fs buffer rest × Ends rest (frames ++ fs) o

  data Parsed (buffer : List ℕ) (r : Result SpiceError SpiceDataFrame) : Type 0 where
    frame : (f : SpiceDataFrame) → r ≡ ok f → Parsed buffer r
    short : r ≡ err need_more_data → Parsed buffer r
    refused : (e : Reason) → r ≡ err (protocol e) → Parsed buffer r

  parsed : (buffer : List ℕ) → Parsed buffer (parse_data_frame buffer mini max)
  parsed buffer = go (parse_data_frame buffer mini max) refl
    where
      go :
          (r : Result SpiceError SpiceDataFrame)
          → parse_data_frame buffer mini max ≡ r
          → Parsed buffer (parse_data_frame buffer mini max)
      go (ok f) e = frame f e
      go (err need_more_data) e = short e
      go (err (protocol x)) e = refused x e
      go (err struct_error) e = absurd (parse_data_frame-ne-struct_error buffer mini max e)
      go (err index_error) e = absurd (parse_data_frame-ne-index_error buffer mini max e)

  -- The bytes that a frame takes away.
  taken :
      (buffer : List ℕ) (f : SpiceDataFrame)
      → parse_data_frame buffer mini max ≡ ok f
      → (header_size mini + f.size ≤ length buffer)
        × (length (drop (header_size mini + f.size) buffer) < length buffer)
  taken buffer f e = go mini (parse_data_frame_fits buffer mini max f e).0
    where
      go :
          (m : Bool)
          → header_size m + f.size ≤ length buffer
          → (header_size m + f.size ≤ length buffer)
            × (length (drop (header_size m + f.size) buffer) < length buffer)
      go Bool.true h = (h, omega (arith, length-drop (6 + f.size) buffer))
      go Bool.false h = (h, omega (arith, length-drop (18 + f.size) buffer))

  -- With more fuel than bytes the loop reads frames until it stops or is refused.
  pub feed_loop-Runs :
      (fuel : ℕ) (buffer : List ℕ) (frames : List SpiceDataFrame)
      → length buffer < fuel
      → Runs buffer frames (feed_loop fuel mini max buffer frames)
  unfolding feed_loop
  feed_loop-Runs zero buffer frames h = absurd (omega arith)
  feed_loop-Runs (suc fuel) [] frames h = ([], refl, (sym (append-nil frames), inl refl))
  feed_loop-Runs (suc fuel) (b ∷ bs) frames h = elim (parsed (b ∷ bs)) [
    | frame f e ↦
        let rest = drop (header_size mini + f.size) (b ∷ bs) in
        let (fs, reads, ends) =
          feed_loop-Runs fuel rest (frames ++ f ∷ []) (omega (arith, taken (b ∷ bs) f e)) in
        rw (e, feed_loop) (f ∷ fs, (e, reads), rw (append_assoc frames (f ∷ []) fs) at ends)
    | short e ↦ rw (e, feed_loop) ([], refl, (sym (append-nil frames), inr e))
    | refused r e ↦ rw (e, feed_loop) ([], refl, (r, refl, e))
  ]

  -- Any fuel above the length gives the same run.
  pub feed_loop_fuel :
      (fuel fuel' : ℕ) (buffer : List ℕ) (frames : List SpiceDataFrame)
      → length buffer < fuel
      → length buffer < fuel'
      → feed_loop fuel mini max buffer frames ≡ feed_loop fuel' mini max buffer frames
  unfolding feed_loop
  feed_loop_fuel zero fuel' buffer frames h k = absurd (omega arith)
  feed_loop_fuel (suc fuel) zero buffer frames h k = absurd (omega arith)
  feed_loop_fuel (suc fuel) (suc fuel') [] frames h k = refl
  feed_loop_fuel (suc fuel) (suc fuel') (b ∷ bs) frames h k = elim (parsed (b ∷ bs)) [
    | frame f e ↦
        let rest = drop (header_size mini + f.size) (b ∷ bs) in
        rw (e, feed_loop)
          (feed_loop_fuel fuel fuel' rest (frames ++ f ∷ []) (omega (arith, taken (b ∷ bs) f e))
            (omega (arith, taken (b ∷ bs) f e)))
    | short e ↦ rw (e, feed_loop) refl
    | refused r e ↦ rw (e, feed_loop) refl
  ]

  feed_loop_step :
      (fuel : ℕ) (buffer : List ℕ) (f : SpiceDataFrame) (frames : List SpiceDataFrame)
      → parse_data_frame buffer mini max ≡ ok f
      → feed_loop (suc fuel) mini max buffer frames
        ≡ feed_loop fuel mini max (drop (header_size mini + f.size) buffer) (frames ++ f ∷ [])
  unfolding feed_loop
  feed_loop_step fuel [] f frames e = absurd (omega (arith, taken [] f e))
  feed_loop_step fuel (b ∷ bs) f frames e = rw (e, feed_loop)

  -- Frames that stand at the front are passed over, and the loop goes on with what is left.
  pub feed_loop-Reads :
      (fs : List SpiceDataFrame) (fuel fuel' : ℕ) (buffer rest : List ℕ)
      (frames : List SpiceDataFrame)
      → length buffer < fuel
      → length rest < fuel'
      → Reads fs buffer rest
      → feed_loop fuel mini max buffer frames ≡ feed_loop fuel' mini max rest (frames ++ fs)
  feed_loop-Reads [] fuel fuel' buffer rest frames h k r =
      rw (append-nil frames, r) (feed_loop_fuel fuel fuel' buffer frames h (rw r at k))
  feed_loop-Reads (f ∷ fs) zero fuel' buffer rest frames h k r = absurd (omega arith)
  feed_loop-Reads (f ∷ fs) (suc fuel) fuel' buffer rest frames h k (e, r) =
      feed_loop_step fuel buffer f frames e
      ∙ feed_loop-Reads fs fuel fuel' _ rest (frames ++ f ∷ []) (omega (arith, taken buffer f e)) k
          r
      ∙ ap (feed_loop fuel' mini max rest) (append_assoc frames (f ∷ []) fs)

  pub Reads-append :
      (fs : List SpiceDataFrame) (buffer rest more : List ℕ)
      → Reads fs buffer rest
      → Reads fs (buffer ++ more) (rest ++ more)
  Reads-append [] buffer rest more r = ap (λ l. l ++ more) r
  Reads-append (f ∷ fs) buffer rest more (e, r) = (
    parse_data_frame-append_ok buffer more mini max f e,
    rw (drop-append (header_size mini + f.size) buffer more (taken buffer f e).0)
        (Reads-append fs _ rest more r),
  )

  -- What was collected before a run comes first in what it returns.
  abbrev pub prepend : List SpiceDataFrame → List ℕ × Outcome → List ℕ × Outcome
  prepend fs (rest, done gs) = (rest, done (fs ++ gs))
  prepend fs (rest, raised e) = (rest, raised e)
  prepend fs (rest, out_of_fuel) = (rest, out_of_fuel)

  prepend_assoc :
      (fs gs : List SpiceDataFrame) (r : List ℕ × Outcome)
      → prepend (fs ++ gs) r ≡ prepend fs (prepend gs r)
  prepend_assoc fs gs (rest, done hs) = rw (append_assoc fs gs hs)
  prepend_assoc fs gs (rest, raised e) = refl
  prepend_assoc fs gs (rest, out_of_fuel) = refl

  pub feed_loop-prepend :
      (fuel : ℕ) (buffer : List ℕ) (frames : List SpiceDataFrame)
      → feed_loop fuel mini max buffer frames ≡ prepend frames (feed_loop fuel mini max buffer [])
  unfolding feed_loop
  feed_loop-prepend zero buffer frames = refl
  feed_loop-prepend (suc fuel) [] frames = rw (append-nil frames)
  feed_loop-prepend (suc fuel) (b ∷ bs) frames = elim (parsed (b ∷ bs)) [
    | frame f e ↦
        let rest = drop (header_size mini + f.size) (b ∷ bs) in
        rw (e, feed_loop)
          (feed_loop-prepend fuel rest (frames ++ f ∷ [])
            ∙ prepend_assoc frames (f ∷ []) (feed_loop fuel mini max rest [])
            ∙ ap (prepend frames) (sym (feed_loop-prepend fuel rest (f ∷ []))))
    | short e ↦ rw (e, feed_loop) (rw (append-nil frames))
    | refused r e ↦ rw (e, feed_loop) refl
  ]

  parse_empty : parse_data_frame [] mini max ≡ err need_more_data
  parse_empty = go mini
    where
      go : (m : Bool) → parse_data_frame [] m max ≡ err need_more_data
      go Bool.true = unfold parse_data_frame in refl
      go Bool.false = unfold parse_data_frame in refl

  -- A refused buffer stays as it is.
  pub feed_loop_refused :
      (fuel : ℕ) (buffer : List ℕ) (frames : List SpiceDataFrame) (r : Reason)
      → parse_data_frame buffer mini max ≡ err (protocol r)
      → feed_loop (suc fuel) mini max buffer frames ≡ (buffer, raised (protocol r))
  unfolding feed_loop
  feed_loop_refused fuel [] frames r e = cc parse_empty
  feed_loop_refused fuel (b ∷ bs) frames r e = rw (e, feed_loop)

  -- So does one that holds no whole frame.
  pub feed_loop-Stops :
      (fuel : ℕ) (buffer : List ℕ) (frames : List SpiceDataFrame)
      → Stops buffer
      → feed_loop (suc fuel) mini max buffer frames ≡ (buffer, done frames)
  unfolding feed_loop
  feed_loop-Stops fuel [] frames s = refl
  feed_loop-Stops fuel (b ∷ bs) frames (inl e) = cc
  feed_loop-Stops fuel (b ∷ bs) frames (inr e) = rw (e, feed_loop)
