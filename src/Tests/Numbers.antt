-- ===== src/Tests/Numbers.antt =====
-- Runs of the texts that Python reads as addresses and numbers.
use ydyun_vdesktop_linux_dri.Base.{
  ◌≡◌, refl, true, false, [], ◌∷◌, none, some, codes, map, is_space, ◌^◌, ◌*◌, lower_char,
}
use ydyun_vdesktop_linux_dri.Base.Int.{pos, negsuc}
use ydyun_vdesktop_linux_dri.Base.Decimal.{int_text, str_int, int_strip, digit_value}
use ydyun_vdesktop_linux_dri.Base.Address.{is_address, is_ipv4, split_on, is_ipv6}
use ydyun_vdesktop_linux_dri.Base.Floats.{infinite, float_text, finite, nan}

good_addresses :
    map is_address (
      codes "10.0.0.1"
      ∷ codes "::1"
      ∷ codes "::"
      ∷ codes "fe80::1%eth0"
      ∷ codes "1:2:3:4:5:6:7:8"
      ∷ codes "::ffff:1.2.3.4"
      ∷ codes "1::"
      ∷ codes "fe80::1%$(x)"
      ∷ [])
    ≡ (true ∷ true ∷ true ∷ true ∷ true ∷ true ∷ true ∷ true ∷ [])
unfolding is_address is_ipv4 split_on is_ipv6
good_addresses = refl

bad_addresses :
    map is_address (
      codes "10.0.0"
      ∷ codes "10.0.0.01"
      ∷ codes "256.0.0.1"
      ∷ codes "1:2:3:4:5:6:7"
      ∷ codes "1::2::3"
      ∷ codes ":1:2:3:4:5:6:7"
      ∷ codes "1:2:3:4:5:6:7:8::"
      ∷ codes "::1%"
      ∷ codes "host"
      ∷ []
      ∷ [])
    ≡ (false ∷ false ∷ false ∷ false ∷ false ∷ false ∷ false ∷ false ∷ false ∷ false ∷ [])
unfolding is_address is_ipv4 split_on is_ipv6
bad_addresses = refl

integers :
    map int_text (
      codes " 12 "
      ∷ codes "-1_0"
      ∷ codes "+7"
      ∷ codes "1__0"
      ∷ codes ""
      ∷ codes "1.0"
      ∷ codes "- 1"
      ∷ (0x661 ∷ [])
      ∷ [])
    ≡ (some (pos 12)
        ∷ some (negsuc 9)
        ∷ some (pos 7)
        ∷ none
        ∷ none
        ∷ none
        ∷ none
        ∷ some (pos 1)
        ∷ [])
unfolding int_text is_space
integers = refl

printed_integers :
    map str_int (pos 0 ∷ pos 65535 ∷ negsuc 9 ∷ []) ≡ (codes "0" ∷ codes "65535" ∷ codes "-10" ∷ [])
unfolding str_int
printed_integers = refl

floats :
    map float_text (
      codes "0.5"
      ∷ codes " 3600 "
      ∷ codes "1e-400"
      ∷ codes "1e400"
      ∷ codes "-Inf"
      ∷ codes "nan"
      ∷ codes "1_0.e0"
      ∷ codes "."
      ∷ codes "1e"
      ∷ codes "0x1"
      ∷ [])
    ≡ (some (finite false (2 ^ 1073))
        ∷ some (finite false (3600 * 2 ^ 1074))
        ∷ some (finite false 0)
        ∷ some (infinite false)
        ∷ some (infinite true)
        ∷ some nan
        ∷ some (finite false (10 * 2 ^ 1074))
        ∷ none
        ∷ none
        ∷ none
        ∷ [])
unfolding float_text int_strip is_space digit_value lower_char
floats = refl

-- 0.1 is the binary64 number 3602879701896397 / 2 ^ 55.
tenth : float_text (codes "0.1") ≡ some (finite false (3602879701896397 * 2 ^ 1019))
unfolding float_text int_strip is_space digit_value lower_char
tenth = refl
