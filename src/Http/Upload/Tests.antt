-- ===== src/Http/Upload/Tests.antt =====
-- Tests of the upload, and its theorem at a concrete request.
use esp_mosaico_claw.Base.{◌≡◌, refl, true, some, [], ◌∷◌, arith, text, text_eq}
use esp_mosaico_claw.Http.Paths.{
  has_parent, path_is_safe, hex_value, escaped, plain, decode, c_string, url_decode_inplace,
  resolve_storage_path,
}
use esp_mosaico_claw.Http.Upload.{
  Answer, FileOp, Upload, receive_body, store_body, upload_to, upload, parent_path,
}
use esp_mosaico_claw.Http.Upload.Stored.{Outcome, upload-Stores}

abbrev request : Upload
request = record {
  query = some (text "%2fa.txt");
  content_len = 3;
  is_dir = λ p. text_eq p (text "/fatfs");
  opened = true;
  scratch = true;
  chunks =
      record { bytes = text "ab"; written = 2 } ∷ record { bytes = text "c"; written = 1 } ∷ [];
  closed = true;
}

stored : upload (text "/fatfs") request ≡ (
  Answer.done,
  FileOp.opens (text "/fatfs/a.txt")
      ∷ FileOp.writes (text "/fatfs/a.txt") (text "ab")
      ∷ FileOp.writes (text "/fatfs/a.txt") (text "c")
      ∷ FileOp.closes (text "/fatfs/a.txt")
      ∷ [],
)
unfolding upload upload_to store_body receive_body parent_path resolve_storage_path path_is_safe
    has_parent url_decode_inplace decode c_string escaped hex_value plain text_eq
stored = refl

-- A write that falls short removes the file.
short_write :
    store_body
      (text "f")
      (record request { chunks = record { bytes = text "ab"; written = 1 } ∷ [] })
    ≡ (
      Answer.server_error,
      FileOp.writes (text "f") (text "ab")
          ∷ FileOp.closes (text "f")
          ∷ FileOp.unlinks (text "f")
          ∷ [],
    )
unfolding store_body receive_body
short_write = refl

upload-Stores_example :
    Outcome (text "/fatfs") [] request (some (text "old")) (upload (text "/fatfs") request)
upload-Stores_example =
    upload-Stores (text "/fatfs") request (some (text "old")) [] (omega arith)
      (omega arith, (omega arith, tt))
