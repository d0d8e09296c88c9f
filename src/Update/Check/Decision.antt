-- ===== src/Update/Check/Decision.antt =====
-- A check from the transfer to the verdict.
use Prim.Native.Nat.{Ordering}
use esp_mosaico_claw.Base.{
  strlcpy, strlcpy_all, ℕ, ◌+◌, ◌%◌, ◌≤◌, ◌≡◌, refl, sym, ap, subst, ◌∙◌, inl, inr, ◌↔◌, Bool, true,
  false, not, some, List, arith, if_cases, ◌==◌, length, Text, EspErr, ok, no_mem, u32_mod,
}
use esp_mosaico_claw.Update.Version.{compare_versions}
use esp_mosaico_claw.Update.Version.Printed.{Version, print, IsSmall, Before, compare-print}
use esp_mosaico_claw.Update.Download.{Response}
use esp_mosaico_claw.Update.Download.Append.{IsValid}
use esp_mosaico_claw.Update.Download.Receive.{joined, Plentiful, receive-IsValid, receive_whole}
use esp_mosaico_claw.Update.Check.Manifest.{
  CheckState, Snapshot, CJson, blank, verdict, copy_texts, required, parse_latest, parse_root,
  parse_manifest,
}
use esp_mosaico_claw.Update.Check.Worker.{required_fits, copy_texts_keeps}
use esp_mosaico_claw.Update.Check.{
  Checker, Notice, Transfer, no_response, http_result, http_get, notify, finish, with_error, assess,
  worker,
}

no_response-IsValid : (maximum : ℕ) → maximum + 1 ≤ 2147483648 → IsValid (no_response maximum)
no_response-IsValid maximum m = record { counted = m; bounded = omega arith; terminated = inl refl }

-- The transfer is received whole.
pub record Delivers (maximum : ℕ) (t : Transfer) (json : List ℕ) : Type 0 where
  pub counted : maximum + 1 ≤ 2147483648
  pub client : t.client ≡ true
  pub performed : t.performed ≡ ok
  pub status_code : t.status_code ≡ 200
  pub plentiful : Plentiful t.chunks
  pub whole : joined t.chunks ≡ json
  pub positive : 1 ≤ length json
  pub bounded : length json ≤ maximum

http_get-Delivers :
    (maximum : ℕ) (t : Transfer) (json : List ℕ)
    → Delivers maximum t json
    → (r : Response) × (http_get (maximum + 2) maximum t ≡ some (ok, r)) × (r.body ≡ json)
unfolding http_get http_result
http_get-Delivers maximum t json d =
    let (r, q, v, a, b) =
      receive_whole (maximum + 2) (no_response maximum) t.chunks
        (no_response-IsValid maximum d.counted) (omega arith) d.plentiful refl
        (omega (arith, ap length d.whole, d.bounded)) in
    let p : length r.body ≡ length json = ap length (b ∙ d.whole) in
    let c : (r.capacity == 0) ≡ false = elim v.terminated [
      | inl h ↦ absurd (omega (arith, d.positive))
      | inr h ↦ ground arith
    ] in
    (r, rw (http_get, d.client, q, d.performed, a, d.status_code, c, http_result) refl, b ∙ d.whole)

http_get_ends :
    (maximum : ℕ) (t : Transfer)
    → maximum + 1 ≤ 2147483648
    → (p : EspErr × Response) × (http_get (maximum + 2) maximum t ≡ some p)
unfolding http_get
http_get_ends maximum t m =
    let (r, q, v, n) =
      receive-IsValid (maximum + 2) (no_response maximum) t.chunks (no_response-IsValid maximum m)
        (omega arith) in
    if_cases (λ x. (p : EspErr × Response) × (x ≡ some p)) (not t.client)
      (λ _. ((no_mem, no_response maximum), refl)) (λ _. ((http_result t r, r), rw q refl))

verdict_cases :
    (o : Ordering)
    → ((verdict (some o) ≡ CheckState.available) ↔ (o ≡ Ordering.lt))
      × ((verdict (some o) ≡ CheckState.up_to_date) ↔ (o ≡ Ordering.eq))
      × ((verdict (some o) ≡ CheckState.device_ahead) ↔ (o ≡ Ordering.gt))
verdict_cases Ordering.lt = ((λ e. refl, λ e. refl), (λ e. cc, λ e. cc), (λ e. cc, λ e. cc))
verdict_cases Ordering.eq = ((λ e. cc, λ e. cc), (λ e. refl, λ e. refl), (λ e. cc, λ e. cc))
verdict_cases Ordering.gt = ((λ e. cc, λ e. cc), (λ e. cc, λ e. cc), (λ e. refl, λ e. refl))

-- What a check shows of the two versions.
pub record Tells (v w : Version) (r : Snapshot) : Type 0 where
  pub last_error : r.last_error ≡ ok
  pub latest : r.latest_version ≡ print w
  pub available : (r.state ≡ CheckState.available) ↔ Before v w
  pub up_to_date : (r.state ≡ CheckState.up_to_date) ↔ (v ≡ w)
  pub device_ahead : (r.state ≡ CheckState.device_ahead) ↔ Before w v

module _ {J : Type 0} (k : CJson J) where
  -- The document is a manifest of the product that offers a version.
  pub record Offers (product : Text) (json : List ℕ) (w : Version) : Type 0 where
    pub root : J
    pub parsed : k.parse_with_length json ≡ some root
    pub object : k.is_object root ≡ true
    pub complete : required k product root ≡ some (print w)
    pub fitting : (r : Snapshot) → (copy_texts k root r).0 ≡ true

iff_trans : {A B C : Type 0} → A ↔ B → B ↔ C → A ↔ C
iff_trans (f, g) (h, i) = (λ a. h (f a), λ c. g (i c))

module _ (ulong_max : ℕ) (wide : u32_mod ≤ ulong_max + 1) {J : Type 0} (k : CJson J) where
  -- The snapshot that a manifest in order makes of a start.
  parsed :
      (product : Text) (json : List ℕ) (w : Version) (r : Snapshot) (o : Ordering)
      → Offers k product json w
      → compare_versions ulong_max (some r.current_version) (some (print w)) true ≡ (ok, some o)
      → (r' : Snapshot) × (parse_manifest ulong_max k product json r ≡ (ok, r'))
        × (r'.latest_version ≡ print w)
        × (r'.state ≡ verdict (some o))
  unfolding parse_manifest parse_root parse_latest
  parsed product json w r o f e =
      let start : Snapshot = record r { latest_version = strlcpy 32 (print w) } in
      (
        record ((copy_texts k f.root start).1) { state = verdict (some o) },
        rw
            (
              parse_manifest,
              f.parsed,
              f.object,
              parse_root,
              f.complete,
              parse_latest,
              e,
              f.fitting start,
            )
            refl,
        (copy_texts_keeps ulong_max k f.root start).1
            ∙ strlcpy_all 31 (print w)
                (required_fits ulong_max k product f.root (print w) f.complete),
        refl,
      )

  -- A worker whose transfer delivers a manifest of the product always ends, with the lock: the task
  -- is gone, the snapshot has the latest version and the next sequence number and no error, and is
  -- available, up to date or device ahead exactly if the device's version comes before the latest,
  -- is the same, or comes after it; and each observer is called once with it.
  pub worker-Tells :
      (s : Checker) (t : Transfer) (json : List ℕ) (v w : Version)
      → IsSmall v
      → IsSmall w
      → s.current_version ≡ print v
      → length (print v) ≤ 31
      → Delivers s.max_body_size t json
      → Offers k s.product json w
      → (r : Snapshot) × (worker ulong_max k (s.max_body_size + 2) s t true
          ≡ some (record s { snapshot = r; task = false }, notify r s.observers))
        × (r.sequence ≡ (s.snapshot.sequence + 1) % u32_mod)
        × Tells v w r
  unfolding worker assess finish with_error
  worker-Tells s t json v w a b c l d f =
      let (o, e, lt, eq, gt) = compare-print ulong_max wide v w a b in
      let (p, g, q) = http_get-Delivers s.max_body_size t json d in
      let start : Snapshot = record blank { current_version = strlcpy 32 s.current_version } in
      let cur : strlcpy 32 s.current_version ≡ print v =
        ap (strlcpy 32) c ∙ strlcpy_all 31 (print v) (ground arith) in
      let (r, m, n, st) =
        parsed s.product json w start o f
          (ap (λ x. compare_versions ulong_max (some x) (some (print w)) true) cur ∙ e) in
      let z : parse_manifest ulong_max k s.product p.body start ≡ (ok, r) =
        ap (λ x. parse_manifest ulong_max k s.product x start) q ∙ m in
      let (x1, x2, x3) = verdict_cases o in
      (
        record r { last_error = ok; sequence = (s.snapshot.sequence + 1) % u32_mod },
        rw (worker, g, assess, z) refl,
        refl,
        record {
          last_error = refl;
          latest = n;
          available =
              iff_trans (subst (λ y. (y ≡ CheckState.available) ↔ (o ≡ Ordering.lt)) (sym st) x1)
                lt;
          up_to_date =
              iff_trans (subst (λ y. (y ≡ CheckState.up_to_date) ↔ (o ≡ Ordering.eq)) (sym st) x2)
                eq;
          device_ahead =
              iff_trans (subst (λ y. (y ≡ CheckState.device_ahead) ↔ (o ≡ Ordering.gt)) (sym st) x3)
                gt;
        },
      )

  -- The worker ends whatever the transfer does, if the maximum of the body is below 2 ^ 31.
  pub worker_ends :
      (s : Checker) (t : Transfer) (lock : Bool)
      → s.max_body_size + 1 ≤ 2147483648
      → (p : Checker × List Notice) × (worker ulong_max k (s.max_body_size + 2) s t lock ≡ some p)
  unfolding worker
  worker_ends s t lock m =
      let (p, q) = http_get_ends s.max_body_size t m in
      (finish s (assess ulong_max k s p.0 p.1) lock, rw (worker, q) refl)
