-- ===== src/AiCreate/History/Told.antt =====
-- The messages of a history that is loaded: their roles, their texts, and which of them they are.
use esp_mosaico_claw.Base.{
  ℕ, ◌+◌, ◌-◌, ◌%◌, ◌≤◌, ◌≡◌, refl, sym, ap, subst, ◌∙◌, inl, inr, Bool, true, false, not, ◌&&◌,
  ◌||◌, Bool-cases, Option-cases, some, List, [], ◌∷◌, ◌++◌, arith, if◌then◌else◌, if_cases, ◌==◌,
  leb, length, drop, length-drop, All, All-append, Ptr, Text, text, is_blank, EspErr, ok,
}
use esp_mosaico_claw.AiCreate.Transcript.{
  Role, Message, is_user, history_max, text_size, expected, same_role, roles_valid,
  transcript_valid,
}
use esp_mosaico_claw.AiCreate.History.{
  HistoryJson, extend_last, fresh, add_message, append_message, copy_content, load_records,
  load_json, load_history,
}
use esp_mosaico_claw.AiCreate.History.Texts.{
  append_text-length, append_text-is_blank, copy_content-length,
}
use esp_mosaico_claw.AiCreate.History.Turns.{
  Entry, tell, tell_all, Latest, Readable, append_message-Latest, entry_of, entries, load_entry,
  load_record-entry,
}

alternates-append :
    (i : ℕ) (ms : List Message) (m : Message)
    → roles_valid i ms ≡ true
    → same_role m.role (expected (i + length ms)) ≡ true
    → roles_valid i (ms ++ m ∷ []) ≡ true
unfolding roles_valid
alternates-append i [] m a e = ground arith
alternates-append i (n ∷ ms) m a e = ground (arith, alternates-append (i + 1) ms m)

roles_valid-shift : (i : ℕ) (ms : List Message) → roles_valid (i + 2) ms ≡ roles_valid i ms
unfolding roles_valid
roles_valid-shift i [] = refl
roles_valid-shift i (m ∷ ms) =
    let rest = roles_valid (i + 2 + 1) ms in
    ap (λ n. same_role m.role (if n == 0 then Role.user else Role.assistant) && rest) (omega arith)
    ∙ ap (λ n. same_role m.role (expected i) && roles_valid n ms) (omega arith)
    ∙ ap (λ b. same_role m.role (expected i) && b) (roles_valid-shift (i + 1) ms)

roles_valid-extend :
    (t : Text) (i : ℕ) (ms : List Message) → roles_valid i (extend_last t ms) ≡ roles_valid i ms
unfolding roles_valid extend_last
roles_valid-extend t i [] = refl
roles_valid-extend t i (m ∷ []) = refl
roles_valid-extend t i (m ∷ n ∷ ms) =
    ap (λ b. same_role m.role (expected i) && b) (roles_valid-extend t (i + 1) (n ∷ ms))

-- The messages that are loaded so far: the latest of what has been told, the roles in turns, every
-- text readable.
pub record Loaded (whole ms : List Message) : Type 0 where
  pub latest : Latest whole ms
  pub turns : roles_valid 0 ms ≡ true
  pub readable : All Readable ms

Readable-drop : (ms : List Message) → All Readable ms → All Readable (drop 2 ms)
Readable-drop [] a = tt
Readable-drop (m ∷ []) a = tt
Readable-drop (m ∷ n ∷ ms) a = a.1.1

turns-drop : (ms : List Message) → roles_valid 0 ms ≡ true → roles_valid 0 (drop 2 ms) ≡ true
unfolding roles_valid
turns-drop [] a = refl
turns-drop (m ∷ []) a = refl
turns-drop (m ∷ n ∷ ms) a = sym (roles_valid-shift 0 ms) ∙ ground arith

Readable-extend : (t : Text) (ms : List Message) → All Readable ms → All Readable (extend_last t ms)
unfolding extend_last
Readable-extend t [] a = tt
Readable-extend t (m ∷ []) ((p, q), a) =
    ((append_text-is_blank m.text t p, append_text-length m.text t q), tt)
Readable-extend t (m ∷ n ∷ ms) (p, a) = (p, Readable-extend t (n ∷ ms) a)

-- The roles and the texts of a list of messages.
abbrev Fine : List Message → Type 0
Fine ms = (roles_valid 0 ms ≡ true) × All Readable ms

Fine-add :
    (role : Role) (t : Text) (ms : List Message)
    → length t ≤ 511
    → same_role role (expected (length ms)) ≡ true
    → Fine ms
    → Fine (add_message role t ms)
Fine-add role t ms b e (r, a) =
    if_cases Fine (is_blank t) (λ _. (r, a))
      (λ n. (
        alternates-append 0 ms (fresh role t) r
            (ap (λ i. same_role role (expected i)) (omega arith) ∙ e),
        All-append Readable ms (fresh role t ∷ []) a ((n, b), tt),
      ))

user_due : (n : ℕ) → (n % 2 == 0) ≡ true → same_role Role.user (expected n) ≡ true
user_due n e = ap (λ b. is_user (if b then Role.user else Role.assistant)) e

assistant_due : (n : ℕ) → (n % 2 == 0) ≡ false → same_role Role.assistant (expected n) ≡ true
assistant_due n e = ap (λ b. not (is_user (if b then Role.user else Role.assistant))) e

full : (ms : List Message) → (length ms == history_max) ≡ true → length ms ≡ 10
full ms e = ground arith

append_message-Fine :
    (ms : List Message) (role : Role) (t : Text)
    → length t ≤ 511
    → Fine ms
    → Fine (append_message ms role t)
unfolding append_message
append_message-Fine ms Role.user t b (r, a) =
    if_cases Fine (not (length ms % 2 == 0))
      (λ _. (roles_valid-extend t 0 ms ∙ r, Readable-extend t ms a))
      (λ e. elim (Bool-cases (length ms == history_max)) [
        | inl f ↦ rw f (
            Fine-add Role.user t (drop 2 ms) b
              (user_due (length (drop 2 ms))
                (ap (λ n. n % 2 == 0) (length-drop 2 ms ∙ ap (λ n. n - 2) (full ms f))))
              (turns-drop ms r, Readable-drop ms a))
        | inr f ↦ rw f (Fine-add Role.user t ms b (user_due (length ms) (ground arith)) (r, a))
      ])
append_message-Fine ms Role.assistant t b (r, a) =
    if_cases Fine (length ms == 0 || length ms % 2 == 0) (λ _. (r, a))
      (λ e. Fine-add Role.assistant t ms b (assistant_due (length ms) (ground arith)) (r, a))

module _ {J : Type 0} (k : HistoryJson J) where
  -- The text of an entry fits a message.
  entry_of-length : (r : J) (e : Entry) → entry_of k r ≡ some e → length e.1 ≤ 511
  unfolding entry_of
  entry_of-length r e q =
      let c = copy_content-length k (k.get_item r (text "content")) in
      let t = copy_content k text_size (k.get_item r (text "content")) in
      elim (Option-cases (k.string_of (k.get_item r (text "role")))) [
        | inl f ↦ cc
        | inr (role, f) ↦ ground (arith, c)
      ]

  load_records-Loaded :
      (whole ms : List Message) (rs : List J)
      → Loaded whole ms
      → Loaded (tell_all whole (entries k rs)) (load_records k ms rs)
  unfolding load_records entries tell_all
  load_records-Loaded whole ms [] l = l
  load_records-Loaded whole ms (r ∷ rs) l = elim (Option-cases (entry_of k r)) [
    | inl q ↦ rw q (
        subst (λ x. Loaded (tell_all whole (entries k rs)) (load_records k x rs))
          (sym (load_record-entry k ms r ∙ ap (load_entry k ms) q))
          (load_records-Loaded whole ms rs l))
    | inr (e, q) ↦
        let (a, b) = append_message-Fine ms e.0 e.1 (entry_of-length r e q) (l.turns, l.readable) in
        rw q (
          subst (λ x. Loaded (tell_all (tell whole e) (entries k rs)) (load_records k x rs))
            (sym (load_record-entry k ms r ∙ ap (load_entry k ms) q))
            (load_records-Loaded (tell whole e) (append_message ms e.0 e.1) rs (record {
              latest = append_message-Latest whole ms e l.latest;
              turns = a;
              readable = b;
            })))
  ]

  -- A history that is loaded holds the latest messages of the conversation that the JSON tells, in
  -- whole turns, at most ten and at least eight if any is left out; users and the assistant take
  -- turns, the user first, and every text is there and fits its buffer. The controller accepts it
  -- exactly if the last turn has been answered.
  pub load_history-Loaded :
      (chat_id session_alias : Ptr Text) (calloc : Bool) (a : EspErr × ℕ) (e : EspErr) (json : Text)
      (ms : List Message)
      → load_history k chat_id session_alias calloc a (e, json) ≡ (ok, ms)
      → Loaded (tell_all [] (entries k (k.items (k.parse json)))) ms
        × (1 ≤ length ms)
        × (transcript_valid ms ≡ (length ms % 2 == 0))
  unfolding load_history load_json transcript_valid roles_valid
  load_history-Loaded chat_id session_alias calloc (a, n) e json ms h =
      let loaded = load_records k [] (k.items (k.parse json)) in
      let q : loaded ≡ ms = ground arith in
      let p : 1 ≤ length ms = ground arith in
      let l : Loaded (tell_all [] (entries k (k.items (k.parse json)))) ms =
        subst (Loaded (tell_all [] (entries k (k.items (k.parse json))))) q (
          load_records-Loaded [] [] (k.items (k.parse json)) (record {
            latest = record {
              old = [];
              split = refl;
              even = refl;
              bounded = omega arith;
              enough = inl refl;
            };
            turns = refl;
            readable = tt;
          })) in
      let b : leb (length ms) history_max ≡ true = ground (arith, l.latest.bounded) in
      (l, p, ground (arith, b, l.turns))
