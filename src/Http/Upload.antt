-- ===== src/Http/Upload.antt =====
-- components/http_server/http_server_files_api.c: the upload of a file. The server's answers (the raw
-- query value, the chunks that `httpd_req_recv` gives, with what `fwrite` made of them) and those of
-- the file system are inputs; the calls that change a file are the operations that it returns, in
-- order. A `size_t` has 32 bits.
pub mod Stored
mod Tests
use esp_mosaico_claw.Base.{
  ℕ, ◌+◌, ◌-◌, ◌%◌, Bool, true, false, not, ◌&&◌, ◌||◌, Option, none, some, List, [], ◌∷◌,
  if◌then◌else◌, ◌==◌, ltb, length, ◌*◌, ◌++◌, Ptr, Text, is_ok, u32_mod,
}
use esp_mosaico_claw.Http.Paths.{url_decode_inplace, resolve_storage_path}

-- The answer to the client.
pub data Answer : Type 0 where
  done bad_request server_error no_mem : Answer

-- A call that changes a file.
pub data FileOp : Type 0 where
  opens closes unlinks : Text → FileOp
  writes : Text → List ℕ → FileOp

-- A chunk of the body, empty after an error of the receipt, and the number of its bytes written.
pub record Chunk : Type 0 where
  pub bytes : List ℕ
  pub written : ℕ

-- The answers to one upload.
pub record Upload : Type 0 where
  pub query : Ptr Text
  pub content_len : ℕ
  pub is_dir : Text → Bool
  pub opened : Bool
  pub scratch : Bool
  pub chunks : List Chunk
  pub closed : Bool

abbrev pub path_max : ℕ
path_max = 256

abbrev pub upload_max_size : ℕ
upload_max_size = 64 * 1024 * 1024

-- The text before the last slash, if there is a slash.
unfoldable pub parent_path : Text → Option Text
parent_path [] = none
parent_path (c ∷ s) = elim (parent_path s) [
  | some p ↦ some (c ∷ p)
  | none ↦ if c == b'/' then some [] else none
]

-- The loop over the chunks: whether all of the body arrived, and the writes. A receipt beyond the
-- last chunk is an error.
unfoldable pub receive_body : Text → ℕ → List Chunk → Bool × List FileOp
receive_body path remaining [] = (remaining == 0, [])
receive_body path remaining (c ∷ cs) =
    let (whole, ops) = receive_body path ((remaining + (u32_mod - length c.bytes)) % u32_mod) cs in
    if remaining == 0
    then (true, [])
    else if length c.bytes == 0
    then (false, [])
    else if not (c.written == length c.bytes)
    then (false, writes path c.bytes ∷ [])
    else (whole, writes path c.bytes ∷ ops)

-- What follows the creation of the file.
unfoldable pub store_body : Text → Upload → Answer × List FileOp
store_body path u =
    let (whole, ops) = receive_body path u.content_len u.chunks in
    if not (u.content_len == 0) && not u.scratch
    then (no_mem, closes path ∷ unlinks path ∷ [])
    else if not whole
    then (server_error, ops ++ closes path ∷ unlinks path ∷ [])
    else if not u.closed
    then (server_error, ops ++ closes path ∷ unlinks path ∷ [])
    else (done, ops ++ closes path ∷ [])

-- The checks on the place of the file, and its creation.
unfoldable pub upload_to : Text → Upload → Answer × List FileOp
upload_to path u = elim (parent_path path) [
  | none ↦ (bad_request, [])
  | some parent ↦
      let (answer, ops) = store_body path u in
      if length parent == 0 || not (u.is_dir parent)
      then (bad_request, [])
      else if not u.opened
      then (server_error, [])
      else (answer, opens path ∷ ops)
]

-- The handler; `base` is the path of the storage. A path is there whenever the error is ESP_OK.
unfoldable pub upload : Text → Upload → Answer × List FileOp
upload base u = elim u.query [
  | none ↦ (bad_request, [])
  | some value ↦
      let (e, full) = resolve_storage_path base (url_decode_inplace (some value)) path_max in
      if ltb upload_max_size u.content_len || not (is_ok e)
      then (bad_request, [])
      else elim full [ none ↦ (bad_request, []) | some path ↦ upload_to path u ]
]
