-- ===== src/Usb/Relay/Delivery.antt =====
-- What the relay sends against what it is sent.
use ydyun_vdesktop_linux_dri.Base.{
  ℕ, zero, suc, ◌≤◌, ◌<◌, ◌≡◌, refl, sym, ap, ◌∙◌, Bool, true, false, ◌⊎◌, inl, inr, List, [], ◌∷◌,
  ◌++◌, arith, codes, length, concat, append_assoc, length-append, Result, ok, err,
}
use ydyun_vdesktop_linux_dri.Usb.Errors.{UsbError}
use ydyun_vdesktop_linux_dri.Usb.Lz4.{codec_max_size}
use ydyun_vdesktop_linux_dri.Usb.Socket.{Socket, recv}
use ydyun_vdesktop_linux_dri.Usb.Socket.Exact.{stream, Gives, recv-Gives}
use ydyun_vdesktop_linux_dri.Usb.Codec.{encode_backward_compressed_frame}
use ydyun_vdesktop_linux_dri.Usb.Codec.RoundTrip.{IsSize, wrapped}
use ydyun_vdesktop_linux_dri.Usb.Codec.Receive.{
  recv-encode_frame, encode-wrapped, recv_wrapped_closed,
}
use ydyun_vdesktop_linux_dri.Usb.Relay.{
  chunk_max, sent_first, plain_relay, send_encoded, encode_rounds, plain_to_wrapped,
  wrapped_to_plain, relay_sockets,
}

-- The chunks are a prefix of the bytes.
abbrev pub IsPrefix : List (List ℕ) → List ℕ → Type 0
IsPrefix chunks bytes = (rest : List ℕ) × (bytes ≡ concat chunks ++ rest)

IsPrefix-cons :
    (c : List ℕ) (chunks : List (List ℕ)) (bytes whole : List ℕ)
    → whole ≡ c ++ bytes
    → IsPrefix chunks bytes
    → IsPrefix (c ∷ chunks) whole
IsPrefix-cons c chunks bytes whole e (rest, same) =
    (rest, rw (e, same) (sym (append_assoc c (concat chunks) rest)))

encoded_frame :
    (payload : List ℕ)
    → IsSize (length payload)
    → (frame : List ℕ) × (encode_backward_compressed_frame payload ≡ ok frame)
encoded_frame payload h = (wrapped 0 (length payload) payload, encode-wrapped payload h)

-- A receive of a chunk: nothing is left, or the front of the stream is received.
abbrev Received : Socket → Result UsbError (List ℕ × Socket) → Type 0
Received sock r =
    ((stream sock ≡ [])
      × (((e : UsbError) × (r ≡ err e)) ⊎ ((sock' : Socket) × (r ≡ ok ([], sock')))))
    ⊎ ((b : ℕ) × (bs : List ℕ) × (sock' : Socket) × (r ≡ ok (b ∷ bs, sock'))
        × (stream sock ≡ (b ∷ bs) ++ stream sock')
        × (length (b ∷ bs) ≤ chunk_max))

Gives-Received :
    (sock : Socket) (r : Result UsbError (List ℕ × Socket))
    → Gives (stream sock) chunk_max r
    → Received sock r
Gives-Received sock (err e) (none_left, why) = inl (none_left, inl (e, refl))
Gives-Received sock (ok ([], sock')) none_left = inl (none_left, inr (sock', refl))
Gives-Received sock (ok (b ∷ bs, sock')) (front, fits) = inr (b, bs, sock', refl, front, fits)

recv-Received : (sock : Socket) → Received sock (recv chunk_max sock)
recv-Received sock = Gives-Received sock (recv chunk_max sock) (recv-Gives 65535 sock)

plain_relay-IsPrefix :
    (turns : List Bool) (left right : Socket)
    → IsPrefix (plain_relay turns left right).0 (stream left)
      × IsPrefix (plain_relay turns left right).1 (stream right)
unfolding plain_relay
plain_relay-IsPrefix [] left right = ((stream left, refl), (stream right, refl))
plain_relay-IsPrefix (true ∷ turns) left right = elim (recv-Received left) [
  | inl (none_left, inl (e, read)) ↦
      rw (plain_relay, read) ((stream left, refl), (stream right, refl))
  | inl (none_left, inr (s, read)) ↦
      rw (plain_relay, read) ((stream left, refl), (stream right, refl))
  | inr (b, bs, left', read, front, fits) ↦
      let (l, r) = plain_relay-IsPrefix turns left' right in
      rw (plain_relay, read)
        (
          IsPrefix-cons (b ∷ bs) (plain_relay turns left' right).0 (stream left') (stream left)
              front l,
          r,
        )
]
plain_relay-IsPrefix (false ∷ turns) left right = elim (recv-Received right) [
  | inl (none_left, inl (e, read)) ↦
      rw (plain_relay, read) ((stream left, refl), (stream right, refl))
  | inl (none_left, inr (s, read)) ↦
      rw (plain_relay, read) ((stream left, refl), (stream right, refl))
  | inr (b, bs, right', read, front, fits) ↦
      let (l, r) = plain_relay-IsPrefix turns left right' in
      rw (plain_relay, read)
        (
          l,
          IsPrefix-cons (b ∷ bs) (plain_relay turns left right').1 (stream right') (stream right)
              front r,
        )
]

sent_first-IsPrefix :
    (initial bytes : List ℕ) (chunks : List (List ℕ))
    → IsPrefix chunks bytes
    → IsPrefix (sent_first initial chunks) (initial ++ bytes)
sent_first-IsPrefix [] bytes chunks v = v
sent_first-IsPrefix (b ∷ bs) bytes chunks v =
    IsPrefix-cons (b ∷ bs) chunks bytes ((b ∷ bs) ++ bytes) refl v

-- Without compression the relay sends to the right a prefix of the initial bytes and what it receives
-- from the left, and to the left a prefix of what it receives from the right, each in order, whatever
-- sockets become readable when.
pub relay_sockets-IsPrefix :
    (initial : List ℕ) (turns : List Bool) (up down : ℕ) (left right : Socket)
    → (to_right : List (List ℕ)) × (to_left : List (List ℕ)) × (relay_sockets
          (codes "off")
          initial
          turns
          up
          down
          left
          right
        ≡ ok (to_right, to_left))
      × IsPrefix to_right (initial ++ stream left)
      × IsPrefix to_left (stream right)
unfolding relay_sockets
relay_sockets-IsPrefix initial turns up down left right =
    let (l, r) = plain_relay-IsPrefix turns left right in
    let (to_right, to_left) = plain_relay turns left right in
    (
      sent_first initial to_right,
      to_left,
      refl,
      sent_first-IsPrefix initial (stream left) to_right l,
      r,
    )

-- `frames` are the encodings of `payloads`.
abbrev Encodes : List (List ℕ) → List (List ℕ) → Type 0
Encodes [] [] = Unit {0}
Encodes [] (f ∷ frames) = ⊥
Encodes (p ∷ payloads) [] = ⊥
Encodes (p ∷ payloads) (f ∷ frames) =
    (encode_backward_compressed_frame p ≡ ok f) × Encodes payloads frames

-- Frames that arrive one behind the other are decoded to their payloads.
wrapped_to_plain-Encodes :
    (payloads frames : List (List ℕ)) (m : ℕ) (peer : Socket)
    → Encodes payloads frames
    → stream peer ≡ concat frames
    → length frames ≤ m
    → wrapped_to_plain m peer ≡ payloads
unfolding wrapped_to_plain
wrapped_to_plain-Encodes [] [] zero peer v e h = refl
wrapped_to_plain-Encodes [] [] (suc m) peer v e h =
    let (why, read) = recv_wrapped_closed peer e in rw (wrapped_to_plain, read)
wrapped_to_plain-Encodes [] (f ∷ frames) m peer v e h = absurd v
wrapped_to_plain-Encodes (p ∷ payloads) [] m peer v e h = absurd v
wrapped_to_plain-Encodes (p ∷ payloads) (f ∷ frames) zero peer (v, vs) e h = absurd (omega arith)
wrapped_to_plain-Encodes (p ∷ payloads) (f ∷ frames) (suc m) peer (v, vs) e h =
    let (peer', left, read) = recv-encode_frame peer p f (concat frames) v e in
    rw (wrapped_to_plain, read)
      (ap (◌∷◌ p) (wrapped_to_plain-Encodes payloads frames m peer' vs left (omega arith)))

-- What a direction encodes, and what it leaves.
abbrev Sends : List ℕ → Type 0 → List (List ℕ) → Type 0
Sends bytes Whole frames =
    (payloads : List (List ℕ)) × (rest : List ℕ) × Encodes payloads frames
    × (bytes ≡ concat payloads ++ rest)
    × (Whole → rest ≡ [])

send_encoded-Sends :
    (payload bytes whole : List ℕ) (Whole Whole' : Type 0) (later : List (List ℕ))
    → IsSize (length payload)
    → whole ≡ payload ++ bytes
    → (Whole' → Whole)
    → Sends bytes Whole later
    → Sends whole Whole' (send_encoded payload later)
unfolding send_encoded
send_encoded-Sends payload bytes whole Whole Whole' later size e more
      (payloads, rest, v, same, all) =
    let (frame, made) = encoded_frame payload size in
    rw (send_encoded, made)
      (
        payload ∷ payloads,
        rest,
        (made, v),
        e ∙ rw same (sym (append_assoc payload (concat payloads) rest)),
        λ w. all (more w),
      )

encode_rounds-Sends :
    (n : ℕ) (left : Socket) → Sends (stream left) (length (stream left) < n) (encode_rounds n left)
unfolding encode_rounds
encode_rounds-Sends zero left = ([], stream left, tt, refl, λ h. absurd (omega arith))
encode_rounds-Sends (suc n) left = elim (recv-Received left) [
  | inl (none_left, inl (e, read)) ↦
      rw (encode_rounds, read) ([], stream left, tt, refl, λ h. none_left)
  | inl (none_left, inr (s, read)) ↦
      rw (encode_rounds, read) ([], stream left, tt, refl, λ h. none_left)
  | inr (b, bs, left', read, front, fits) ↦
      rw (encode_rounds, read)
        (send_encoded-Sends (b ∷ bs) (stream left') (stream left) (length (stream left') < n)
          (length (stream left) < suc n) (encode_rounds n left') (omega arith, omega arith) front
          (λ h. omega (arith, ap length front, length-append (b ∷ bs) (stream left')))
          (encode_rounds-Sends n left'))
]

plain_to_wrapped-Sends :
    (n : ℕ) (initial : List ℕ) (left : Socket)
    → length initial ≤ codec_max_size
    → Sends (initial ++ stream left) (length (stream left) < n) (plain_to_wrapped n initial left)
unfolding plain_to_wrapped
plain_to_wrapped-Sends n [] left h = encode_rounds-Sends n left
plain_to_wrapped-Sends n (b ∷ bs) left h =
    send_encoded-Sends (b ∷ bs) (stream left) ((b ∷ bs) ++ stream left) (length (stream left) < n)
      (length (stream left) < n) (encode_rounds n left) (omega arith, h) refl (λ k. k)
      (encode_rounds-Sends n left)

-- With compression and at most 64 MiB of initial bytes, a peer whose stream holds exactly the
-- frames that one direction sends, and that runs for as many rounds at least, decodes from them
-- a prefix of the initial bytes and what the direction receives, in order; and all of it, if the
-- direction runs for more rounds than it receives bytes before it is stopped.
pub wrapped_to_plain-plain_to_wrapped :
    (n m : ℕ) (initial : List ℕ) (left peer : Socket)
    → length initial ≤ codec_max_size
    → stream peer ≡ concat (plain_to_wrapped n initial left)
    → length (plain_to_wrapped n initial left) ≤ m
    → (rest : List ℕ) × (initial ++ stream left ≡ concat (wrapped_to_plain m peer) ++ rest)
      × (length (stream left) < n → rest ≡ [])
wrapped_to_plain-plain_to_wrapped n m initial left peer h e k =
    let (payloads, rest, v, same, all) = plain_to_wrapped-Sends n initial left h in
    let decoded =
      wrapped_to_plain-Encodes payloads (plain_to_wrapped n initial left) m peer v e k in
    (rest, rw decoded same, all)
