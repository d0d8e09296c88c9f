-- ===== src/Http/Paths.antt =====
-- components/http_server/http_server_utils.c: the decoding of a query value and the paths below the
-- storage. A text is the bytes of a C string, so none of them is 0; the one exception is what the
-- decoding writes, whose C string ends at the first byte 0.
pub mod Decode
pub mod Contained
mod Tests
use esp_mosaico_claw.Base.{
  ℕ, ◌+◌, ◌-◌, ◌*◌, Bool, true, false, not, ◌&&◌, ◌||◌, Option, none, some, List, [], ◌∷◌, ◌++◌,
  if◌then◌else◌, ◌==◌, leb, length, Ptr, Text, text, text_eq, EspErr, ok, invalid_arg, invalid_size,
  ◌>>=◌,
}

-- The test `strstr(path, "..") != NULL`.
unfoldable pub has_parent : Text → Bool
has_parent [] = false
has_parent (c ∷ []) = false
has_parent (c ∷ d ∷ s) = c == b'.' && d == b'.' || has_parent (d ∷ s)

abbrev pub starts_with_slash : Text → Bool
starts_with_slash [] = false
starts_with_slash (c ∷ s) = c == b'/'

unfoldable pub path_is_safe : Ptr Text → Bool
path_is_safe none = false
path_is_safe (some path) = starts_with_slash path && not (has_parent path)

-- The value of a hexadecimal digit.
unfoldable pub hex_value : ℕ → Option ℕ
hex_value c =
    if leb b'0' c && leb c b'9'
    then some (c - b'0')
    else if leb b'A' c && leb c b'F'
    then some (c - b'A' + 10)
    else if leb b'a' c && leb c b'f'
    then some (c - b'a' + 10)
    else none

-- The byte of two digits. The four low bits of the shifted digit are 0, so `|=` adds.
unfoldable pub escaped : ℕ → ℕ → Option ℕ
escaped hi lo = do h ← hex_value hi; l ← hex_value lo; some (h * 16 + l)

unfoldable pub plain : ℕ → ℕ
plain c = if c == b'+' then b' ' else c

abbrev pub decode_step : Option ℕ → ℕ → Text → Text → Text
decode_step none c rest after = c ∷ rest
decode_step (some b) c rest after = b ∷ after

-- The bytes that the loop writes.
unfoldable pub decode : Text → Text
decode [] = []
decode (c ∷ []) = plain c ∷ []
decode (c ∷ hi ∷ []) = plain c ∷ decode (hi ∷ [])
decode (c ∷ hi ∷ lo ∷ s) =
    let rest = decode (hi ∷ lo ∷ s) in
    let after = decode s in
    if c == b'%' then decode_step (escaped hi lo) c rest after else plain c ∷ rest

-- The bytes before the first 0.
unfoldable pub c_string : Text → Text
c_string [] = []
c_string (c ∷ s) = let rest = c_string s in if c == 0 then [] else c ∷ rest

-- The text that the buffer holds after the decoding in place.
unfoldable pub url_decode_inplace : Ptr Text → Ptr Text
url_decode_inplace none = none
url_decode_inplace (some value) = some (c_string (decode value))

-- The full path that `snprintf` with "%s%s" leaves, if it was not cut: its result is the length of
-- the whole text. What the buffer holds after an error no caller reads.
unfoldable pub resolve_storage_path : Text → Ptr Text → ℕ → EspErr × Option Text
resolve_storage_path base none size = (invalid_arg, none)
resolve_storage_path base (some relative) size =
    let full = base ++ relative in
    if not (path_is_safe (some relative))
    then (invalid_arg, none)
    else if length full == 0 || leb size (length full)
    then (invalid_size, none)
    else (ok, some full)

-- `strlcpy` and `strlcat` cut the text to the size; the result tells whether the text was whole.
unfoldable pub build_child_relative_path : Ptr Text → Ptr Text → Bool → ℕ → Option Text
build_child_relative_path none name out size = none
build_child_relative_path (some base) none out size = none
build_child_relative_path (some base) (some name) out size =
    let slash = if text_eq base (text "/") then [] else text "/" in
    if not out || size == 0
    then none
    else if leb size (length base)
    then none
    else if leb size (length (base ++ slash))
    then none
    else if leb size (length ((base ++ slash) ++ name))
    then none
    else some ((base ++ slash) ++ name)
