-- ===== src/Http/Upload/Stored.antt =====
-- What an upload leaves of the file.
use mathlib.Core.List.{append-nil, append_assoc}
use esp_mosaico_claw.Base.{
  ℕ, zero, suc, ◌+◌, ◌-◌, ◌%◌, ◌≤◌, ◌<◌, ◌≡◌, refl, sym, ap, ◌∙◌, ◌≢◌, ◌⊎◌, inl, inr, Bool, true,
  not, ◌&&◌, ◌||◌, Option-cases, Option, none, some, List, [], ◌∷◌, ◌++◌, arith, if_cases, ◌==◌,
  All, All-append, take, length, length-append, Ptr, Text, EspErr, ok, u32_mod, is_ok, ltb,
}
use esp_mosaico_claw.Http.Paths.{resolve_storage_path, url_decode_inplace}
use esp_mosaico_claw.Http.Paths.Contained.{split, walk, Below, resolve-Below}
use esp_mosaico_claw.Http.Upload.{
  Answer, FileOp, Chunk, Upload, path_max, upload_max_size, receive_body, store_body, upload_to,
  upload, parent_path,
}

-- The bytes of a file after an operation; `none` is no file.
abbrev pub apply : FileOp → Option (List ℕ) → Option (List ℕ)
apply (FileOp.opens p) file = some []
apply (FileOp.closes p) file = file
apply (FileOp.unlinks p) file = none
apply (FileOp.writes p s) none = none
apply (FileOp.writes p s) (some t) = some (t ++ s)

pub replay : List FileOp → Option (List ℕ) → Option (List ℕ)
replay [] file = file
replay (o ∷ os) file = replay os (apply o file)

-- The file that an operation is about.
abbrev pub target : FileOp → Text
target (FileOp.opens p) = p
target (FileOp.closes p) = p
target (FileOp.unlinks p) = p
target (FileOp.writes p s) = p

-- A receipt gives at most what is left of the body.
abbrev pub Measured : ℕ → List Chunk → Type 0
Measured remaining [] = Unit
Measured remaining (c ∷ cs) =
    (length c.bytes ≤ remaining) × Measured (remaining - length c.bytes) cs

replay-append :
    (os ps : List FileOp) (file : Option (List ℕ))
    → replay (os ++ ps) file ≡ replay ps (replay os file)
unfolding replay
replay-append [] ps file = refl
replay-append (o ∷ os) ps file = replay-append os ps (apply o file)

-- The bytes of the chunks, in order.
abbrev pub sent : List Chunk → List ℕ
sent [] = []
sent (c ∷ cs) = c.bytes ++ sent cs

take_beyond :
    (n : ℕ) (xs ys : List ℕ) → length xs ≤ n → take n (xs ++ ys) ≡ xs ++ take (n - length xs) ys
take_beyond n [] ys h = ap (λ m. take m ys) (omega arith)
take_beyond zero (x ∷ xs) ys h = ground arith
take_beyond (suc n) (x ∷ xs) ys h =
    ap (◌∷◌ x) (take_beyond n xs ys (omega arith) ∙ ap (λ m. xs ++ take m ys) (omega arith))

-- A body that was received whole is what the writes append.
abbrev Whole : ℕ → List Chunk → List ℕ → Bool × List FileOp → Type 0
Whole remaining cs start r =
    r.0 ≡ true
    → (replay r.1 (some start) ≡ some (start ++ take remaining (sent cs)))
      × (length (take remaining (sent cs)) ≡ remaining)

nothing :
    (remaining : ℕ) (cs : List Chunk) (start : List ℕ)
    → remaining ≡ 0
    → Whole remaining cs start (true, [])
unfolding replay
nothing remaining cs start z w =
    let e : take remaining (sent cs) ≡ [] = ap (λ n. take n (sent cs)) z in
    (ap some (sym (append-nil start)) ∙ ap (λ x. some (start ++ x)) (sym e), ap length e ∙ sym z)

receive_body-Whole :
    (path : Text) (remaining : ℕ) (cs : List Chunk) (start : List ℕ)
    → remaining < u32_mod
    → Measured remaining cs
    → Whole remaining cs start (receive_body path remaining cs)
unfolding receive_body replay
receive_body-Whole path remaining [] start b m = λ w. nothing remaining [] start (ground arith) refl
receive_body-Whole path remaining (c ∷ cs) start b m =
    let P = Whole remaining (c ∷ cs) start in
    let next : (remaining + (u32_mod - length c.bytes)) % u32_mod ≡ remaining - length c.bytes =
      omega (arith, m.0) in
    let t : take remaining (sent (c ∷ cs))
        ≡ c.bytes ++ take (remaining - length c.bytes) (sent cs) =
      take_beyond remaining c.bytes (sent cs) m.0 in
    if_cases P (remaining == 0) (λ z. nothing remaining (c ∷ cs) start (ground arith))
      (λ z.
        if_cases P (length c.bytes == 0) (λ _. λ w. cc)
          (λ _.
            if_cases P (not (c.written == length c.bytes)) (λ _. λ w. cc)
              (λ _. λ w.
                let (q, n) =
                  receive_body-Whole path (remaining - length c.bytes) cs (start ++ c.bytes)
                    (omega arith) m.1 (ap (λ x. (receive_body path x cs).0) (sym next) ∙ w) in
                (
                  ap (λ x. replay ((receive_body path x cs).1) (some (start ++ c.bytes))) next
                      ∙ q
                      ∙ ap some
                          (append_assoc start c.bytes (take (remaining - length c.bytes) (sent cs)))
                      ∙ ap (λ x. some (start ++ x)) (sym t),
                  ap length t
                      ∙ omega (
                        arith,
                        length-append c.bytes (take (remaining - length c.bytes) (sent cs)),
                        m.0,
                      ),
                ))))

abbrev Targets : Text → List FileOp → Type 0
Targets path os = All (λ o. target o ≡ path) os

receive_body-Targets :
    (path : Text) (remaining : ℕ) (cs : List Chunk)
    → Targets path ((receive_body path remaining cs).1)
unfolding receive_body
receive_body-Targets path remaining [] = tt
receive_body-Targets path remaining (c ∷ cs) =
    let P = λ (r : Bool × List FileOp). Targets path r.1 in
    let t = receive_body-Targets path ((remaining + (u32_mod - length c.bytes)) % u32_mod) cs in
    if_cases P (remaining == 0) (λ _. tt)
      (λ _.
        if_cases P (length c.bytes == 0) (λ _. tt)
          (λ _. if_cases P (not (c.written == length c.bytes)) (λ _. (refl, tt)) (λ _. (refl, t))))

-- What an upload leaves: the file with the bytes received, as many as the request announced,
-- or after a failure what was there or no file; nothing but the file is touched.
abbrev pub Stores : Upload → Text → Option (List ℕ) → Answer × List FileOp → Type 0
Stores u path file r =
    Targets path r.1
    × (((r.0 ≡ Answer.done)
          × (replay r.1 file ≡ some (take u.content_len (sent u.chunks)))
          × (length (take u.content_len (sent u.chunks)) ≡ u.content_len))
        ⊎ ((r.0 ≢ Answer.done) × ((r.1 ≡ []) ⊎ (replay r.1 file ≡ none))))

-- What becomes of the file once it is open and empty.
abbrev Ends : Upload → Text → Answer × List FileOp → Type 0
Ends u path r =
    Targets path r.1
    × (((r.0 ≡ Answer.done)
          × (replay r.1 (some []) ≡ some (take u.content_len (sent u.chunks)))
          × (length (take u.content_len (sent u.chunks)) ≡ u.content_len))
        ⊎ ((r.0 ≢ Answer.done) × (replay r.1 (some []) ≡ none)))

fails :
    (u : Upload) (path : Text) (os : List FileOp) (a : Answer)
    → a ≢ Answer.done
    → Targets path os
    → Ends u path (a, os ++ FileOp.closes path ∷ FileOp.unlinks path ∷ [])
unfolding replay
fails u path os a h t = (
  All-append (λ o. target o ≡ path) os (FileOp.closes path ∷ FileOp.unlinks path ∷ []) t
      (refl, (refl, tt)),
  inr (h, replay-append os (FileOp.closes path ∷ FileOp.unlinks path ∷ []) (some [])),
)

store_body-Ends :
    (path : Text) (u : Upload)
    → u.content_len < u32_mod
    → Measured u.content_len u.chunks
    → Ends u path (store_body path u)
unfolding store_body replay
store_body-Ends path u b m =
    let P = Ends u path in
    let r = receive_body path u.content_len u.chunks in
    let t : Targets path r.1 = receive_body-Targets path u.content_len u.chunks in
    if_cases P (not (u.content_len == 0) && not u.scratch)
      (λ _. fails u path [] Answer.no_mem (λ e. cc) tt)
      (λ _.
        if_cases P (not r.0) (λ _. fails u path r.1 Answer.server_error (λ e. cc) t)
          (λ w.
            if_cases P (not u.closed) (λ _. fails u path r.1 Answer.server_error (λ e. cc) t)
              (λ _.
                let (q, n) = receive_body-Whole path u.content_len u.chunks [] b m (ground arith) in
                (
                  All-append (λ o. target o ≡ path) r.1 (FileOp.closes path ∷ []) t (refl, tt),
                  inl (refl, replay-append r.1 (FileOp.closes path ∷ []) (some []) ∙ q, n),
                ))))

opened :
    (path : Text) (u : Upload) (file : Option (List ℕ)) (r : Answer × List FileOp)
    → Ends u path r
    → Stores u path file (r.0, FileOp.opens path ∷ r.1)
unfolding replay
opened path u file r (t, inl (a, q, n)) = ((refl, t), inl (a, q, n))
opened path u file r (t, inr (a, q)) = ((refl, t), inr (a, inr q))

upload_to-Stores :
    (path : Text) (u : Upload) (file : Option (List ℕ))
    → u.content_len < u32_mod
    → Measured u.content_len u.chunks
    → Stores u path file (upload_to path u)
unfolding upload_to replay
upload_to-Stores path u file b m = elim (Option-cases (parent_path path)) [
  | inl e ↦ rw (e, upload_to) (tt, inr (λ x. cc, inl refl))
  | inr (parent, e) ↦
      rw (e, upload_to)
        (if_cases (Stores u path file) (length parent == 0 || not (u.is_dir parent))
          (λ _. (tt, inr (λ x. cc, inl refl)))
          (λ _.
            if_cases (Stores u path file) (not u.opened) (λ _. (tt, inr (λ x. cc, inl refl)))
              (λ _. opened path u file (store_body path u) (store_body-Ends path u b m))))
]

abbrev pub Outcome : Text → List Text → Upload → Option (List ℕ) → Answer × List FileOp → Type 0
Outcome base place u file r =
    ((r.0 ≢ Answer.done) × (r.1 ≡ []))
    ⊎ ((path : Text) × Below (walk (split base) place) (walk (split path) place)
        × Stores u path file r)

ok_pair : (r : EspErr × Option Text) (t : Text) → is_ok r.0 ≡ true → r.1 ≡ some t → r ≡ (ok, some t)
ok_pair (e, o) t k f = ground arith

resolved-Below :
    (base : Text) (relative : Ptr Text) (full : Text) (size : ℕ) (place : List Text)
    → is_ok ((resolve_storage_path base relative size).0) ≡ true
    → (resolve_storage_path base relative size).1 ≡ some full
    → Below (walk (split base) place) (walk (split full) place)
unfolding resolve_storage_path
resolved-Below base none full size place k f = ground arith
resolved-Below base (some relative) full size place k f =
    (resolve-Below base relative full size place
      (ok_pair (resolve_storage_path base (some relative) size) full k f)).2

-- An upload touches at most one file, at a place of the storage or below it. If it answers that it
-- is done, that file holds the bytes received, as many as the request announced, whatever it held
-- before; if not, nothing has been done to the file, or it is gone. (A receipt gives at most what is
-- left of the body.)
pub upload-Stores :
    (base : Text) (u : Upload) (file : Option (List ℕ)) (place : List Text)
    → u.content_len < u32_mod
    → Measured u.content_len u.chunks
    → Outcome base place u file (upload base u)
unfolding upload
upload-Stores base u file place b m =
    let P = Outcome base place u file in
    elim (Option-cases u.query) [
      | inl e ↦ rw (e, upload) (inl (λ x. cc, refl))
      | inr (value, e) ↦
          let d = url_decode_inplace (some value) in
          let r = resolve_storage_path base d path_max in
          rw (e, upload)
            (if_cases P (ltb upload_max_size u.content_len || not (is_ok r.0))
              (λ _. inl (λ x. cc, refl))
              (λ k. elim (Option-cases r.1) [
                | inl f ↦ rw f (inl (λ x. cc, refl))
                | inr (path, f) ↦ rw f (
                    inr (
                      path,
                      resolved-Below base d path path_max place (ground arith) f,
                      upload_to-Stores path u file b m,
                    ))
              ]))
    ]
