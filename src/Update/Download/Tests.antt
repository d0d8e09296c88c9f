-- ===== src/Update/Download/Tests.antt =====
-- Tests of the response, and the theorem about an append at a concrete chunk.
use esp_mosaico_claw.Base.{◌≡◌, refl, true, false, some, [], ◌∷◌, arith, text, ok, inr}
use esp_mosaico_claw.Update.Download.{
  Response, grow, first_capacity, clamp_capacity, needed_size, copied, http_append, http_event,
  receive,
}
use esp_mosaico_claw.Update.Download.Append.{Appends, http_append-Appends}

abbrev fresh : Response
fresh = record { body = []; capacity = 0; maximum = 4096; append_error = ok }

abbrev begun : Response
begun = record { body = text "{}"; capacity = 4; maximum = 6; append_error = ok }

first_allocates :
    http_append 2 fresh (text "ab") true
    ≡ some (ok, record fresh { body = text "ab"; capacity = 1024 })
unfolding http_append grow first_capacity clamp_capacity needed_size copied
first_allocates = refl

-- The capacity stops at the maximum and one.
clamped :
    http_append 2 begun (text "abcd") true
    ≡ some (ok, record begun { body = text "{}abcd"; capacity = 7 })
unfolding http_append grow first_capacity clamp_capacity needed_size copied
clamped = refl

-- A chunk that memory has no room for is lost, and the next one clears its error.
lost_chunk :
    receive 8 begun ((text "abc", false) ∷ (text "}", true) ∷ [])
    ≡ some (record begun { body = text "{}}"; capacity = 4 })
unfolding receive http_event http_append grow first_capacity clamp_capacity needed_size copied
lost_chunk = refl

http_append-Appends_example :
    Appends begun (text "abcd") true (http_append 8 begun (text "abcd") true)
http_append-Appends_example =
    http_append-Appends 8 begun (text "abcd") true
      (record { counted = omega arith; bounded = omega arith; terminated = inr (omega arith) })
      (omega arith)
