-- ===== src/Update/Check/Worker.antt =====
-- What the worker makes of a transfer and of a manifest.
use Prim.Native.Nat.{Ordering}
use esp_mosaico_claw.Base.{
  strlcpy, strlcpy_all, ℕ, ◌≡◌, refl, sym, ap, ◌∙◌, ◌≢◌, ◌⊎◌, inl, inr, Bool, true, false, not,
  Option-cases, some, List, arith, if_cases, leb, length, Text, text, EspErr, ok, invalid_response,
  is_ok,
}
use esp_mosaico_claw.Update.Version.{compare_versions}
use esp_mosaico_claw.Update.Version.Order.{compare_ok}
use esp_mosaico_claw.Update.Download.{Response}
use esp_mosaico_claw.Update.Check.Manifest.{
  CheckState, Snapshot, CJson, blank, verdict, copy_optional, copy_texts, required, parse_latest,
  parse_root, parse_manifest,
}
use esp_mosaico_claw.Update.Check.{Checker, with_error, assess}

module _ (ulong_max : ℕ) where
  -- The state is what the comparison of the two versions calls for.
  pub Decided : Snapshot → Type 0
  Decided r =
      (o : Ordering) × (compare_versions ulong_max (some r.current_version) (some r.latest_version)
          true
        ≡ (ok, some o))
      × (r.state ≡ verdict (some o))

module _ (ulong_max : ℕ) {J : Type 0} (k : CJson J) where
  abbrev pub Kept : Snapshot → Bool × Snapshot → Type 0
  Kept r p = (p.1.current_version ≡ r.current_version) × (p.1.latest_version ≡ r.latest_version)

  pub copy_texts_keeps : (root : J) (r : Snapshot) → Kept r (copy_texts k root r)
  unfolding copy_texts
  copy_texts_keeps root r =
      if_cases (Kept r) (not (is_ok ((copy_optional k root (text "title") r.title 96).0)))
        (λ _. (refl, refl))
        (λ _.
          if_cases (Kept r) (not (is_ok ((copy_optional k root (text "summary") r.summary 256).0)))
            (λ _. (refl, refl)) (λ _. (refl, refl)))

  -- The outcome of a manifest: a decision about the version at hand, or the error of a response.
  abbrev pub Parses : Snapshot → EspErr × Snapshot → Type 0
  Parses r p =
      (p.1.current_version ≡ r.current_version)
      × (((p.0 ≡ ok) × Decided ulong_max p.1) ⊎ (p.0 ≡ invalid_response))

  pub required_fits :
      (product : Text) (root : J) (latest : Text)
      → required k product root ≡ some latest
      → leb 32 (length latest) ≡ false
  unfolding required
  required_fits product root latest e =
      elim (Option-cases (k.string_value (k.get_item root (text "product")))) [
        | inl a ↦ ground arith
        | inr (p, a) ↦
            elim (Option-cases (k.string_value (k.get_item root (text "latest_version")))) [
              | inl b ↦ ground arith
              | inr (l, b) ↦ ground arith
            ]
      ]

  parse_latest-Parses :
      (root : J) (latest : Text) (r : Snapshot)
      → leb 32 (length latest) ≡ false
      → Parses r (parse_latest ulong_max k root latest r)
  unfolding parse_latest Decided
  parse_latest-Parses root latest r h =
      let start : Snapshot = record r { latest_version = strlcpy 32 latest } in
      let (c, l) = copy_texts_keeps root start in
      if_cases (Parses r)
        (not (is_ok ((compare_versions ulong_max (some r.current_version) (some latest) true).0)))
        (λ _. (refl, inr refl))
        (λ a.
          if_cases (Parses r) (not ((copy_texts k root start).0)) (λ _. (c, inr refl))
            (λ _.
              let (o, q) = compare_ok ulong_max r.current_version latest (ground arith) in
              let d : Decided ulong_max (record ((copy_texts k root start).1) {
                state =
                    verdict
                      ((compare_versions ulong_max (some r.current_version) (some latest) true).1);
              }) =
                (
                  o,
                  ap
                        (λ x.
                          compare_versions ulong_max (some x)
                            (some ((copy_texts k root start).1.latest_version)) true)
                        c
                      ∙ ap (λ x. compare_versions ulong_max (some r.current_version) (some x) true)
                          (l ∙ strlcpy_all 31 latest h)
                      ∙ q,
                  ap (λ x. verdict x.1) q,
                ) in
              (c, inl (refl, d))))

  pub parse_manifest-Parses :
      (product : Text) (json : List ℕ) (r : Snapshot)
      → Parses r (parse_manifest ulong_max k product json r)
  unfolding parse_manifest parse_root
  parse_manifest-Parses product json r = elim (Option-cases (k.parse_with_length json)) [
    | inl a ↦ rw (a, parse_manifest) (refl, inr refl)
    | inr (root, a) ↦
        rw (a, parse_manifest)
          (if_cases (Parses r) (not (k.is_object root)) (λ _. (refl, inr refl))
            (λ _. elim (Option-cases (required k product root)) [
              | inl b ↦ rw (b, parse_root) (refl, inr refl)
              | inr (latest, b) ↦
                  rw (b, parse_root)
                    (parse_latest-Parses root latest r (required_fits product root latest b))
            ]))
  ]

  -- The result of a worker: a failure with its error, or a decision without one.
  abbrev pub Settled : Snapshot → Type 0
  Settled r =
      ((r.state ≡ CheckState.failed) × (r.last_error ≢ ok))
      ⊎ ((r.last_error ≡ ok) × Decided ulong_max r)

  pub assess-Settled :
      (s : Checker) (e : EspErr) (r : Response) → Settled (assess ulong_max k s e r)
  unfolding assess with_error Decided
  assess-Settled s e r =
      let start : Snapshot = record blank { current_version = strlcpy 32 s.current_version } in
      let p = parse_manifest ulong_max k s.product r.body start in
      if_cases Settled (is_ok e)
        (λ _.
          if_cases Settled (is_ok p.0)
            (λ a. elim (parse_manifest-Parses s.product r.body start).1 [
              | inl (q, d) ↦ inr (q, d)
              | inr q ↦ ground arith
            ])
            (λ a. inl (refl, λ q. ground arith)))
        (λ a. if_cases Settled (is_ok e) (λ b. ground arith) (λ b. inl (refl, λ q. ground arith)))

  -- The sequence number does not matter to it, and the check is over.
  pub Settled-sequence : (r : Snapshot) (n : ℕ) → Settled r → Settled (record r { sequence = n })
  unfolding Decided
  Settled-sequence r n (inl a) = inl a
  Settled-sequence r n (inr a) = inr a

  verdict_decides : (o : Ordering) → verdict (some o) ≢ CheckState.checking
  verdict_decides Ordering.lt = λ e. cc
  verdict_decides Ordering.eq = λ e. cc
  verdict_decides Ordering.gt = λ e. cc

  pub Settled-over : (r : Snapshot) → Settled r → r.state ≢ CheckState.checking
  unfolding Decided
  Settled-over r (inl (a, b)) = λ e. cc
  Settled-over r (inr (a, d)) = λ e. verdict_decides d.0 (sym d.2 ∙ e)
