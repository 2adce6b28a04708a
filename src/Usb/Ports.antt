-- ===== src/Usb/Ports.antt =====
-- linux/src/ydyun_usbctl.py: what is read from the listing that `usbip port` prints. `str.isdigit` of
-- a character is an argument, since it follows the tables of Unicode.
pub mod Blocks
pub mod Substrings
pub mod Headings
use ydyun_vdesktop_linux_dri.Base.{
  ℕ, Bool, true, false, ◌&&◌, ◌||◌, not, List, [], ◌∷◌, ◌++◌, reverse, Option, none, some, leb,
  ◌==◌, if◌then◌else◌, length, any, Text, text_eq, one_of, is_space, drop_spaces, strip,
  starts_with, contains, Result, ok, err, ◌>>=◌,
}
use ydyun_vdesktop_linux_dri.Usb.Errors.{UsbError, index_error}

-- The characters at which `str.splitlines` ends a line; "\r\n" is one end.
abbrev pub is_line_break : ℕ → Bool
is_line_break c =
    (leb 10 c && leb c 13) || (leb 28 c && leb c 30) || c == 0x85 || c == 0x2028 || c == 0x2029

unfoldable pub lines_from : Bool → Text → Text → List Text
lines_from after_return [] [] = []
lines_from after_return (d ∷ line) [] = (d ∷ line) ∷ []
lines_from after_return line (c ∷ s) =
    let skipped = after_return && c == 10 in
    let ends = is_line_break c && not skipped in
    let rest =
      lines_from (c == 13) (if ends then [] else if skipped then line else line ++ c ∷ []) s in
    if ends then line ∷ rest else rest

-- `str.splitlines()`
unfoldable pub split_lines : Text → List Text
split_lines = lines_from false []

-- The first word of a text, and what is behind it.
unfoldable pub word : Text → Text
word [] = []
word (c ∷ s) = if is_space c then [] else c ∷ word s

unfoldable pub behind_word : Text → Text
behind_word [] = []
behind_word (c ∷ s) = if is_space c then c ∷ s else behind_word s

-- `s.split()[1]`
unfoldable pub second_word : Text → Result UsbError Text
unfolding drop_spaces word behind_word
second_word s =
    let found = word (drop_spaces (behind_word (drop_spaces s))) in
    if length found == 0 then err index_error else ok found

unfoldable pub drop_colons : Text → Text
drop_colons [] = []
drop_colons (c ∷ s) = if c == b':' then drop_colons s else c ∷ s

-- "Port "
abbrev pub port_word : Text
port_word = b'P' ∷ b'o' ∷ b'r' ∷ b't' ∷ b' ' ∷ []

-- The new value of `current`: a line "Port 00: ..." starts the block of that index.
unfoldable pub current_index : Option Text → Text → Result UsbError (Option Text)
unfolding strip starts_with second_word drop_colons
current_index current line =
    if starts_with port_word (strip line)
    then (do index ← second_word (strip line); ok (some (reverse (drop_colons (reverse index)))))
    else ok current

-- `any(busid in line for busid in wanted)`
abbrev pub names_one : List Text → Text → Bool
names_one wanted line = any (λ busid. contains busid line) wanted

-- `current.isdigit()`
abbrev pub is_index : (ℕ → Bool) → Text → Bool
is_index is_digit s = not (length s == 0) && not (any (λ c. not (is_digit c)) s)

-- The new value of `matches`.
unfoldable pub add_match : (ℕ → Bool) → List Text → Text → Option Text → List Text → List Text
add_match is_digit wanted line none matches = matches
add_match is_digit wanted line (some current) matches =
    if names_one wanted line && is_index is_digit current && not (one_of current matches)
    then matches ++ current ∷ []
    else matches

unfoldable pub port_loop :
    (ℕ → Bool) → List Text → List Text → Option Text → List Text → Result UsbError (List Text)
port_loop is_digit wanted [] current matches = ok matches
port_loop is_digit wanted (line ∷ lines) current matches = do
  current' ← current_index current line
  port_loop is_digit wanted lines current' (add_match is_digit wanted line current' matches)

unfoldable pub port_indexes_for_busids : (ℕ → Bool) → Text → List Text → Result UsbError (List Text)
unfolding port_loop
port_indexes_for_busids is_digit output busids =
    port_loop is_digit busids (split_lines output) none []

-- The bus IDs of a set that occur in the listing.
unfoldable pub busids_in_ports : Text → List Text → List Text
busids_in_ports output [] = []
busids_in_ports output (busid ∷ busids) =
    let rest = busids_in_ports output busids in if contains busid output then busid ∷ rest else rest
