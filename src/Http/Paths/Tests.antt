-- ===== src/Http/Paths/Tests.antt =====
-- Tests of the paths, and their theorems at concrete texts.
use esp_mosaico_claw.Base.{
  ◌<◌, ◌≡◌, refl, true, false, none, some, List, [], ◌∷◌, ◌++◌, arith, text, text_eq, length, ok,
  invalid_arg,
}
use esp_mosaico_claw.Http.Paths.{
  has_parent, path_is_safe, hex_value, escaped, plain, decode, c_string, url_decode_inplace,
  resolve_storage_path, build_child_relative_path,
}
use esp_mosaico_claw.Http.Paths.Decode.{Spelled, Spelling, encode, url_decode-encode}
use esp_mosaico_claw.Http.Paths.Contained.{split, walk, Below, resolve-Below}

-- An escape that is not one stays as it is.
half_escaped : url_decode_inplace (some (text "a%2gb%4")) ≡ some (text "a%2gb%4")
unfolding url_decode_inplace decode c_string escaped hex_value plain
half_escaped = refl

-- A decoded byte 0 ends the text, and an escaped parent is still refused after the decoding.
nul_ends : url_decode_inplace (some (text "/a%00/%2e%2E")) ≡ some (text "/a")
unfolding url_decode_inplace decode c_string escaped hex_value plain
nul_ends = refl

parent_refused :
    resolve_storage_path (text "/fatfs") (some (text "/a/../b")) 256 ≡ (invalid_arg, none)
unfolding resolve_storage_path path_is_safe has_parent
parent_refused = refl

child : build_child_relative_path (some (text "/a")) (some (text "b")) true 5 ≡ some (text "/a/b")
unfolding build_child_relative_path text_eq
child = refl

child_cut : build_child_relative_path (some (text "/a")) (some (text "b")) true 4 ≡ none
unfolding build_child_relative_path text_eq
child_cut = refl

abbrev query : List Spelled
query =
    (b'/', Spelling.percent true false)
    ∷ (b'a', Spelling.kept)
    ∷ (b' ', Spelling.plus)
    ∷ (b'+', Spelling.percent true true)
    ∷ []

url_decode-encode_example : url_decode_inplace (some (encode query)) ≡ some (text "/a +")
url_decode-encode_example = url_decode-encode query (
  (omega arith, omega arith),
  ((omega arith, omega arith, omega arith, omega arith), (refl, ((omega arith, omega arith), tt))),
)

resolves :
    resolve_storage_path (text "/fatfs") (some (text "/a/b")) 256 ≡ (ok, some (text "/fatfs/a/b"))
unfolding resolve_storage_path path_is_safe has_parent
resolves = refl

resolve-Below_example :
    (text "/fatfs/a/b" ≡ text "/fatfs" ++ text "/a/b")
    × (length (text "/fatfs/a/b") < 256)
    × Below (walk (split (text "/fatfs")) []) (walk (split (text "/fatfs/a/b")) [])
resolve-Below_example =
    resolve-Below (text "/fatfs") (text "/a/b") (text "/fatfs/a/b") 256 [] resolves
