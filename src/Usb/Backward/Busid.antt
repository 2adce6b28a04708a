-- ===== src/Usb/Backward/Busid.antt =====
-- What the bus ID of a backward-link frame can be.
use ydyun_vdesktop_linux_dri.Base.{
  ℕ, ◌≤◌, ◌≡◌, refl, ap, ◌∙◌, false, ◌⊎◌, inl, inr, List, [], ◌∷◌, arith, ltb, ◌==◌, any, length,
  drop, length-take, field_le, Text, is_space, strip_none, Bool-cases, ok, ◌>>=◌, ◌>>◌, raise_if,
  >>=-eq-ok,
}
use ydyun_vdesktop_linux_dri.Usb.Errors.{controller, busid_empty, busid_not_ascii}
use ydyun_vdesktop_linux_dri.Usb.Names.{validate_busid, IsBusid, validate_busid-IsBusid}
use ydyun_vdesktop_linux_dri.Usb.Backward.{
  backward_frame_size, backward_allowed_ops, parse_backward_frame, before_nul, not_printable,
  busid_field, decode_ascii, backward_frame_busid,
}

length-before_nul : (bs : List ℕ) → length (before_nul bs) ≤ length bs
unfolding before_nul
length-before_nul [] = omega arith
length-before_nul (b ∷ bs) = ground (arith, length-before_nul bs)

-- The field holds 127 bytes at most, one less than the limit on a bus ID.
busid_field_bound : (frame : List ℕ) → length (before_nul (busid_field frame)) ≤ 127
busid_field_bound frame =
    omega (arith, length-before_nul (busid_field frame), length-take 127 (drop 0x190 frame))

printable_char : (c : ℕ) → not_printable c ≡ false → (is_space c ≡ false) × (ltb 127 c ≡ false)
unfolding is_space
printable_char c h = ground arith

printable :
    (s : List ℕ)
    → any not_printable s ≡ false
    → (any is_space s ≡ false) × (any (λ b. ltb 127 b) s ≡ false)
printable [] h = (refl, refl)
printable (c ∷ s) h = ground (arith, printable_char c, printable s)

parse_backward_frame_inv :
    (frame : List ℕ) (command : ℕ)
    → parse_backward_frame frame backward_allowed_ops ≡ ok command
    → (length frame ≡ backward_frame_size) × ((field_le 8 4 frame ≡ 1) ⊎ (field_le 8 4 frame ≡ 2))
unfolding parse_backward_frame
parse_backward_frame_inv frame command e = ground arith

value_checked :
    (value busid : Text)
    → any (λ b. ltb 127 b) value ≡ false
    → (decode_ascii (controller busid_not_ascii) value >>= λ busid'.
        raise_if (length busid' == 0) (controller busid_empty) >> validate_busid busid')
      ≡ ok busid
    → validate_busid value ≡ ok busid
value_checked value busid ascii e = rest (rw ascii at e)
  where
    rest :
        (raise_if (length value == 0) (controller busid_empty) >> validate_busid value) ≡ ok busid
        → validate_busid value ≡ ok busid
    rest h = ground arith

-- A bus ID that is accepted is the field up to its first NUL, unchanged, has 1 to 127 characters, is
-- printable and keeps every promise of a bus ID; the frame is one of the allowed operations 1 and 2.
pub backward_frame_busid-IsBusid :
    (frame : List ℕ) (busid : Text)
    → backward_frame_busid frame ≡ ok busid
    → (busid ≡ before_nul (busid_field frame))
      × (length busid ≤ 127)
      × (any not_printable busid ≡ false)
      × IsBusid busid
      × (length frame ≡ backward_frame_size)
      × ((field_le 8 4 frame ≡ 1) ⊎ (field_le 8 4 frame ≡ 2))
unfolding backward_frame_busid
backward_frame_busid-IsBusid frame busid e =
    let (command, parsed, e1) = >>=-eq-ok (parse_backward_frame frame backward_allowed_ops) _ e in
    let (size, ops) = parse_backward_frame_inv frame command parsed in
    let value = before_nul (busid_field frame) in
    elim (Bool-cases (any not_printable value)) [
      | inl bad ↦ cc (rw bad at e1)
      | inr good ↦
          let (spaceless, ascii) = printable value good in
          let checked : validate_busid value ≡ ok busid =
            value_checked value busid ascii (rw good at e1) in
          let (same, v) = validate_busid-IsBusid value busid checked in
          let same' : busid ≡ value = same ∙ strip_none value spaceless in
          (
            same',
            omega (arith, ap length same', busid_field_bound frame),
            rw same' good,
            v,
            size,
            ops,
          )
    ]
