-- ===== src/Usb/Codec/RoundTrip.antt =====
-- Frames of the wrapper: what is sent is received, and what is received is within bounds.
use ydyun_vdesktop_linux_dri.Base.{
  ℕ, ◌^◌, ◌≤◌, ◌<◌, ◌≡◌, refl, ◌∙◌, true, false, List, ◌++◌, arith, ltb, ◌==◌, length, field_be,
  unpack_be-pack_be, ok, ◌>>=◌,
}
use ydyun_vdesktop_linux_dri.Usb.Lz4.{codec_max_size}
use ydyun_vdesktop_linux_dri.Usb.Lz4.Blocks.{Block, IsBlock, block_bytes, run_block}
use ydyun_vdesktop_linux_dri.Usb.Lz4.Decode.{lz4_decompress-block}
use ydyun_vdesktop_linux_dri.Usb.Codec.{
  codec_header_size, out_of_bounds, pack_codec_header, decode_payload,
  decode_backward_compressed_frame, encode_backward_compressed_frame,
}

pub length-pack_codec_header : (t u c : ℕ) → length (pack_codec_header t u c) ≡ 9
length-pack_codec_header t u c = refl

pub fields-pack :
    (t u c : ℕ) (payload : List ℕ)
    → t < 256
    → u < 2 ^ 32
    → c < 2 ^ 32
    → (field_be 0 1 (pack_codec_header t u c ++ payload) ≡ t)
      × (field_be 1 4 (pack_codec_header t u c ++ payload) ≡ u)
      × (field_be 5 4 (pack_codec_header t u c ++ payload) ≡ c)
fields-pack t u c payload ht hu hc =
    (unpack_be-pack_be 1 t ht, unpack_be-pack_be 4 u hu, unpack_be-pack_be 4 c hc)

abbrev pub IsSize : ℕ → Type 0
IsSize n = (1 ≤ n) × (n ≤ codec_max_size)

pub in_bounds : (n : ℕ) → IsSize n → out_of_bounds n ≡ false
in_bounds n h = ground arith

-- A frame with this header and payload.
abbrev pub wrapped : ℕ → ℕ → List ℕ → List ℕ
wrapped t u payload = pack_codec_header t u (length payload) ++ payload

decode-wrapped :
    (t u : ℕ) (payload : List ℕ)
    → t < 256
    → IsSize u
    → IsSize (length payload)
    → decode_backward_compressed_frame (wrapped t u payload)
      ≡ decode_payload t u (length payload) payload
unfolding decode_backward_compressed_frame
decode-wrapped t u payload ht hu hp =
    let n = length payload in
    let (type_read, u_read, n_read) = fields-pack t u n payload ht (omega arith) (omega arith) in
    let long : ltb (length (wrapped t u payload)) codec_header_size ≡ false = ground arith in
    let same : (n == n) ≡ true = ground arith in
    rw (long, u_read, n_read, type_read, in_bounds u hu, in_bounds n hp, same)

-- A payload of 1 byte to 64 MiB that is wrapped as a type-0 frame is unwrapped to itself.
pub decode-encode_frame :
    (payload : List ℕ)
    → IsSize (length payload)
    → (do frame ← encode_backward_compressed_frame payload; decode_backward_compressed_frame frame)
      ≡ ok payload
unfolding encode_backward_compressed_frame decode_payload
decode-encode_frame payload h =
    let n = length payload in
    let same : (n == n) ≡ true = ground arith in
    rw (in_bounds n h, decode-wrapped 0 n payload (omega arith) h h, same)

-- A type-1 frame around a block of the LZ4 format that unpacks to the advertised size is unwrapped to
-- what the block stands for.
pub decode-lz4_frame :
    (b : Block) (expected : ℕ)
    → IsBlock expected b
    → IsSize expected
    → IsSize (length (block_bytes b))
    → decode_backward_compressed_frame (wrapped 1 expected (block_bytes b)) ≡ ok (run_block b)
unfolding decode_payload
decode-lz4_frame b expected v h k =
    decode-wrapped 1 expected (block_bytes b) (omega arith) h k
    ∙ lz4_decompress-block b expected v h.0 h.1
