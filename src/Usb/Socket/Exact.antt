-- ===== src/Usb/Socket/Exact.antt =====
-- `_recv_exact` against the byte stream that a socket delivers.
use ydyun_vdesktop_linux_dri.Base.{
  ℕ, zero, suc, ◌-◌, ◌≤◌, ◌<◌, ◌≡◌, ◌≢◌, refl, sym, ap, ◌∙◌, ◌⊎◌, inl, inr, List, [], ◌∷◌, ◌++◌,
  arith, leb, length, take, drop, Bool-cases, length-append, length-take, length-drop,
  take-append_right, drop-append_right, take-append-drop, take-length, drop-length, append_assoc,
  append-nil, Result, ok, err, Result-cases,
}
use ydyun_vdesktop_linux_dri.Usb.Errors.{UsbError, controller, os_error, connection_closed}
use ydyun_vdesktop_linux_dri.Usb.Socket.{chunk, failure, Socket, recv, recv_loop, recv_exact}

-- The bytes that arrive before the connection fails or is closed.
abbrev pub stream : Socket → List ℕ
stream [] = []
stream (chunk [] ∷ events) = []
stream (chunk (b ∷ bs) ∷ events) = (b ∷ bs) ++ stream events
stream (failure ∷ events) = []

-- What a receive of `size` bytes does: it returns the next `size` bytes of the stream and leaves what
-- follows them, or raises, if fewer arrive.
abbrev pub Receives : ℕ → List ℕ → List ℕ → Result UsbError (List ℕ × Socket) → Type 0
Receives size before bytes (ok (received, sock)) =
    (size ≤ length bytes) × (received ≡ before ++ take size bytes) × (stream sock ≡ drop size bytes)
Receives size before bytes (err e) =
    (length bytes < size) × ((e ≡ controller connection_closed) ⊎ (e ≡ os_error))

-- A received chunk is a prefix of the stream.
abbrev pub Gives : List ℕ → ℕ → Result UsbError (List ℕ × Socket) → Type 0
Gives bytes size (ok ([], sock)) = bytes ≡ []
Gives bytes size (ok (b ∷ bs, sock)) = (bytes ≡ (b ∷ bs) ++ stream sock) × (length (b ∷ bs) ≤ size)
Gives bytes size (err e) = (bytes ≡ []) × (e ≡ os_error)

stream-chunk :
    (bs : List ℕ) (events : Socket) → bs ≢ [] → stream (chunk bs ∷ events) ≡ bs ++ stream events
stream-chunk [] events h = absurd (h refl)
stream-chunk (b ∷ bs) events h = refl

pub recv-Gives : (size : ℕ) (sock : Socket) → Gives (stream sock) (suc size) (recv (suc size) sock)
unfolding recv
recv-Gives size [] = refl
recv-Gives size (failure ∷ events) = (refl, refl)
recv-Gives size (chunk [] ∷ events) = ground arith
recv-Gives size (chunk (b ∷ bs) ∷ events) = elim (Bool-cases (leb (length (b ∷ bs)) (suc size))) [
  | inl whole ↦ rw whole (refl, ground arith)
  | inr part ↦
      let left : drop size bs ≢ [] = λ e. ground (arith, length-drop size bs, ap length e) in
      rw part (
        rw (stream-chunk (drop size bs) events left) (
            rw (
              ← append_assoc (b ∷ take size bs) (drop size bs) (stream events),
              take-append-drop size bs,
            )),
        omega (arith, length-take size bs),
      )
]

Receives-chunk :
    (size : ℕ) (before c bytes : List ℕ) (r : Result UsbError (List ℕ × Socket))
    → length c ≤ size
    → Receives (size - length c) (before ++ c) bytes r
    → Receives size before (c ++ bytes) r
Receives-chunk size before c bytes (ok (received, sock)) h (fits, same, left) = (
  omega (arith, length-append c bytes),
  same
      ∙ append_assoc before c (take (size - length c) bytes)
      ∙ ap (◌++◌ before) (sym (take-append_right size (size - length c) c bytes (omega arith))),
  left ∙ sym (drop-append_right size (size - length c) c bytes (omega arith)),
)
Receives-chunk size before c bytes (err e) h (short, why) =
    (omega (arith, length-append c bytes), why)

recv_loop-Receives :
    (fuel size : ℕ) (sock : Socket) (before : List ℕ)
    → size ≤ fuel
    → Receives size before (stream sock) (recv_loop fuel size sock before)
unfolding recv_loop
recv_loop-Receives zero zero sock before h = (omega arith, sym (append-nil before), refl)
recv_loop-Receives (suc fuel) zero sock before h = (omega arith, sym (append-nil before), refl)
recv_loop-Receives zero (suc size) sock before h = absurd (omega arith)
recv_loop-Receives (suc fuel) (suc size) sock before h =
    let gives = recv-Gives size sock in
    elim (Result-cases (recv (suc size) sock)) [
      | inr (x, e) ↦ let g = rw e at gives in rw (e, recv_loop) (rw g.0 (omega arith), inr g.1)
      | inl (([], sock'), e) ↦
          let g = rw e at gives in rw (e, recv_loop) (rw g (omega arith), inl refl)
      | inl ((b ∷ bs, sock'), e) ↦
          let g = rw e at gives in
          let rest =
            recv_loop-Receives fuel (suc size - length (b ∷ bs)) sock' (before ++ b ∷ bs)
              (omega arith) in
          rw (e, recv_loop)
            (rw g.0 (Receives-chunk (suc size) before (b ∷ bs) (stream sock') _ g.1 rest))
    ]

-- A receive of `size` bytes always ends, and depends only on the byte stream, not on how the network
-- cut it into chunks: it returns exactly the next `size` bytes and leaves the rest of the stream, or,
-- if the stream ends before, raises the closing error or the socket's own.
pub recv_exact-Receives :
    (size : ℕ) (sock : Socket) → Receives size [] (stream sock) (recv_exact size sock)
unfolding recv_exact
recv_exact-Receives size sock = recv_loop-Receives size size sock [] (omega arith)

-- A receive of as many bytes as the first part of the stream has returns that part.
pub recv_exact_takes :
    (size : ℕ) (sock : Socket) (first rest : List ℕ)
    → stream sock ≡ first ++ rest
    → length first ≡ size
    → (sock' : Socket) × (recv_exact size sock ≡ ok (first, sock')) × (stream sock' ≡ rest)
recv_exact_takes size sock first rest e n =
    let received = recv_exact-Receives size sock in
    elim (Result-cases (recv_exact size sock)) [
      | inr (x, h) ↦
          let r = rw h at received in
          absurd (omega (arith, r.0, ap length e, length-append first rest))
      | inl ((bytes, sock'), h) ↦
          let r = rw h at received in
          let cut : take size (stream sock) ≡ first = rw (e, ← n) (take-length first rest) in
          let left : drop size (stream sock) ≡ rest = rw (e, ← n) (drop-length first rest) in
          (sock', h ∙ ap (λ l. ok (l, sock')) (r.1 ∙ cut), r.2 ∙ left)
    ]
