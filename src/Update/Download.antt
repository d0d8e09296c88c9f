-- ===== src/Update/Download.antt =====
-- components/update_check_service/update_check_service.c: the body of the response, collected chunk
-- by chunk. A `size_t` has 32 bits, and its sums wrap. The bytes that `memcpy` copies are those of
-- the chunk, and whether `realloc` succeeds is an input.
pub mod Growth
pub mod Append
pub mod Receive
mod Tests
use esp_mosaico_claw.Base.{
  ℕ, zero, suc, ◌+◌, ◌-◌, ◌*◌, ◌%◌, Bool, true, false, not, ◌&&◌, ◌||◌, Option, none, some, List,
  [], ◌∷◌, ◌++◌, if◌then◌else◌, ◌==◌, ltb, length, EspErr, ok, no_mem, invalid_size, u32_mod,
}

-- `update_check_http_response_t`; the list holds the first `length` bytes of its buffer.
pub record Response : Type 0 where
  pub body : List ℕ
  pub capacity : ℕ
  pub maximum : ℕ
  pub append_error : EspErr

-- The loop that doubles the capacity; `none` means that the fuel ran out.
unfoldable pub grow : ℕ → ℕ → ℕ → ℕ → Option ℕ
grow zero needed maximum next = none
grow (suc f) needed maximum next =
    let rest = grow f needed maximum (next * 2 % u32_mod) in
    if ltb next needed && ltb next ((maximum + 1) % u32_mod) then rest else some next

unfoldable pub first_capacity : ℕ → ℕ
first_capacity capacity = if not (capacity == 0) then capacity else 1024

unfoldable pub clamp_capacity : ℕ → ℕ → ℕ
clamp_capacity maximum next =
    if ltb ((maximum + 1) % u32_mod) next then (maximum + 1) % u32_mod else next

unfoldable pub needed_size : Response → List ℕ → ℕ
needed_size r chunk = (length r.body + length chunk + 1) % u32_mod

-- The copy into a buffer that is large enough.
unfoldable pub copied : Response → List ℕ → ℕ → Response
copied r chunk capacity = record r { body = r.body ++ chunk; capacity = capacity }

-- An append with fuel for its loop. The response is given; no chunk at all is the empty one.
unfoldable pub http_append : ℕ → Response → List ℕ → Bool → Option (EspErr × Response)
http_append fuel r chunk realloc =
    if length chunk == 0
    then some (ok, r)
    else if ltb r.maximum (length r.body) || ltb (r.maximum - length r.body) (length chunk)
    then some (invalid_size, r)
    else if ltb r.capacity (needed_size r chunk)
    then elim (grow fuel (needed_size r chunk) r.maximum (first_capacity r.capacity)) [
      | none ↦ none
      | some next ↦
          some
            (if realloc then (ok, copied r chunk (clamp_capacity r.maximum next)) else (no_mem, r))
    ]
    else some (ok, copied r chunk r.capacity)

-- The event of a chunk that has arrived.
unfoldable pub http_event : ℕ → Response → List ℕ → Bool → Option (EspErr × Response)
http_event fuel r chunk realloc =
    if length chunk == 0 then some (ok, r) else elim (http_append fuel r chunk realloc) [
      | none ↦ none
      | some (e, r') ↦ some (e, record r' { append_error = e })
    ]

-- The events of a transfer, in order.
unfoldable pub receive : ℕ → Response → List (List ℕ × Bool) → Option Response
receive fuel r [] = some r
receive fuel r ((chunk, realloc) ∷ rest) = elim (http_event fuel r chunk realloc) [
  | none ↦ none
  | some (e, r') ↦ receive fuel r' rest
]
