-- ===== src/Tests/Compression.antt =====
-- Runs of the LZ4 decoder and of the wrapped frames of linux/src/ydyun_usbctl.py.
use ydyun_vdesktop_linux_dri.Base.{
  ℕ, ◌≤◌, ◌≡◌, refl, List, [], ◌∷◌, some, arith, All, IsByte, ok, err,
}
use ydyun_vdesktop_linux_dri.Usb.Errors.{controller, connection_closed}
use ydyun_vdesktop_linux_dri.Usb.Lz4.{
  codec_max_size, nibble_length, copy_match, lz4_match, lz4_round, lz4_loop, lz4_decompress_block,
}
use ydyun_vdesktop_linux_dri.Usb.Lz4.Blocks.{repeated, Block, IsBlock, block_bytes, run_block}
use ydyun_vdesktop_linux_dri.Usb.Lz4.Decode.{lz4_decompress-block}
use ydyun_vdesktop_linux_dri.Usb.Lz4.Accepted.{lz4_decompress_accepts}
use ydyun_vdesktop_linux_dri.Usb.Socket.{Socket, chunk, failure, recv, recv_loop, recv_exact}
use ydyun_vdesktop_linux_dri.Usb.Socket.Exact.{stream, Receives, recv_exact-Receives}
use ydyun_vdesktop_linux_dri.Usb.Codec.{
  decode_backward_compressed_frame, encode_backward_compressed_frame,
  recv_backward_compressed_frame,
}
use ydyun_vdesktop_linux_dri.Usb.Codec.RoundTrip.{wrapped}
use ydyun_vdesktop_linux_dri.Usb.Codec.Receive.{recv-encode_frame}

-- Three literals, a match of five bytes that runs into itself, and one literal.
abbrev abcab : Block
abcab = record {
  seqs = record { literals = 97 ∷ 98 ∷ 99 ∷ []; offset = 2; extra = 1 } ∷ [];
  tail = some (record { literals = 33 ∷ []; ignored = 0 });
}

abbrev abcab_bytes : List ℕ
abcab_bytes = 0x31 ∷ 97 ∷ 98 ∷ 99 ∷ 2 ∷ 0 ∷ 0x10 ∷ 33 ∷ []

abbrev abcab_text : List ℕ
abcab_text = 97 ∷ 98 ∷ 99 ∷ 98 ∷ 99 ∷ 98 ∷ 99 ∷ 98 ∷ 33 ∷ []

abcab-IsBlock : IsBlock 9 abcab
unfolding repeated
abcab-IsBlock =
    ((omega arith, omega arith, omega arith, omega arith, (omega arith, omega arith)), refl)

abcab_unpacked : lz4_decompress_block abcab_bytes 9 ≡ ok abcab_text
unfolding lz4_decompress_block lz4_loop lz4_round lz4_match nibble_length copy_match
abcab_unpacked = refl

lz4_decompress-block_example : lz4_decompress_block (block_bytes abcab) 9 ≡ ok (run_block abcab)
lz4_decompress-block_example =
    lz4_decompress-block abcab 9 abcab-IsBlock (omega arith) (omega arith)

abcab-AreBytes : All IsByte abcab_bytes
abcab-AreBytes = (
  omega arith,
  (
    omega arith,
    (omega arith, (omega arith, (omega arith, (omega arith, (omega arith, (omega arith, tt)))))),
  ),
)

lz4_decompress_accepts_example :
    (b : Block) × IsBlock 9 b
    × (abcab_bytes ≡ block_bytes b)
    × (abcab_text ≡ run_block b)
    × (1 ≤ 9)
    × (9 ≤ codec_max_size)
lz4_decompress_accepts_example =
    lz4_decompress_accepts abcab_bytes abcab_text 9 abcab-AreBytes abcab_unpacked

-- Four bytes in two chunks, and a failure behind them.
abbrev choppy : Socket
choppy = chunk (1 ∷ 2 ∷ 3 ∷ []) ∷ chunk (4 ∷ []) ∷ failure ∷ []

recv_exact-Receives_example : Receives 2 [] (1 ∷ 2 ∷ 3 ∷ 4 ∷ []) (recv_exact 2 choppy)
recv_exact-Receives_example = recv_exact-Receives 2 choppy

closed_early : recv_exact 2 (chunk (1 ∷ []) ∷ []) ≡ err (controller connection_closed)
unfolding recv_exact recv_loop recv
closed_early = refl

abcab_unwrapped : decode_backward_compressed_frame (wrapped 1 9 abcab_bytes) ≡ ok abcab_text
unfolding decode_backward_compressed_frame lz4_decompress_block lz4_loop lz4_round lz4_match
    nibble_length copy_match
abcab_unwrapped = refl

-- A wrapped frame of two bytes that is cut in its header, with one byte behind it.
abbrev two_chunks : Socket
two_chunks = chunk (0 ∷ 0 ∷ 0 ∷ 0 ∷ 2 ∷ 0 ∷ 0 ∷ []) ∷ chunk (0 ∷ 2 ∷ 5 ∷ 6 ∷ 7 ∷ []) ∷ []

encoded : encode_backward_compressed_frame (5 ∷ 6 ∷ []) ≡ ok (wrapped 0 2 (5 ∷ 6 ∷ []))
unfolding encode_backward_compressed_frame
encoded = refl

recv-encode_frame_example :
    (sock : Socket) × (stream sock ≡ 7 ∷ [])
    × (recv_backward_compressed_frame two_chunks ≡ ok (5 ∷ 6 ∷ [], sock))
recv-encode_frame_example =
    recv-encode_frame two_chunks (5 ∷ 6 ∷ []) (wrapped 0 2 (5 ∷ 6 ∷ [])) (7 ∷ []) encoded refl
