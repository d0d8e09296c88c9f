-- ===== src/AiCreate/History/Turns.antt =====
-- The history that is loaded against the whole conversation. The reference tells a conversation entry
-- by entry and forgets nothing.
use mathlib.Core.List.{append_assoc}
use esp_mosaico_claw.Base.{
  suc, ◌%◌, ◌≤◌, ◌≡◌, refl, sym, ap, ◌∙◌, ◌⊎◌, inl, inr, Bool, true, false, not, ◌||◌, Bool-cases,
  Option, none, some, List, [], ◌∷◌, ◌++◌, arith, if◌then◌else◌, ◌==◌, length, length-append, drop,
  length-drop, Text, text, text_eq, is_blank,
}
use esp_mosaico_claw.AiCreate.Transcript.{Role, Message, history_max, text_size}
use esp_mosaico_claw.AiCreate.History.{
  HistoryJson, extend_last, fresh, add_message, append_message, copy_content, load_record,
}

-- An entry of the history: a role and a text.
abbrev pub Entry : Type 0
Entry = Role × Text

-- A user's entry behind another one continues it, and an assistant's needs a user's before it. An
-- empty text tells nothing.
unfoldable pub tell : List Message → Entry → List Message
tell ms (Role.user, t) =
    if not (length ms % 2 == 0) then extend_last t ms else add_message Role.user t ms
tell ms (Role.assistant, t) = if length ms % 2 == 0 then ms else add_message Role.assistant t ms

unfoldable pub tell_all : List Message → List Entry → List Message
tell_all ms [] = ms
tell_all ms (e ∷ es) = tell_all (tell ms e) es

-- The messages are the latest of a conversation, in whole turns: all of them, or at least eight.
pub record Latest (whole ms : List Message) : Type 0 where
  pub old : List Message
  pub split : whole ≡ old ++ ms
  pub even : length old % 2 ≡ 0
  pub bounded : length ms ≤ 10
  pub enough : (length old ≡ 0) ⊎ (8 ≤ length ms)

-- Every message has a text, and it fits its buffer.
abbrev pub Readable : Message → Type 0
Readable m = (is_blank m.text ≡ false) × (length m.text ≤ 511)

extend_last-append :
    (t : Text) (os : List Message) (m : Message) (ms : List Message)
    → extend_last t (os ++ m ∷ ms) ≡ os ++ extend_last t (m ∷ ms)
unfolding extend_last
extend_last-append t [] m ms = refl
extend_last-append t (o ∷ []) m ms = refl
extend_last-append t (o ∷ p ∷ os) m ms = ap (◌∷◌ o) (extend_last-append t (p ∷ os) m ms)

extend_last-length : (t : Text) (ms : List Message) → length (extend_last t ms) ≡ length ms
unfolding extend_last
extend_last-length t [] = refl
extend_last-length t (m ∷ []) = refl
extend_last-length t (m ∷ n ∷ ms) = ap suc (extend_last-length t (n ∷ ms))

odd-append :
    (os ms : List Message) → length os % 2 ≡ 0 → (length (os ++ ms) % 2 == 0) ≡ (length ms % 2 == 0)
odd-append os ms e =
    let q : length (os ++ ms) % 2 ≡ length ms % 2 = omega (arith, length-append os ms) in
    ap (λ n. n == 0) q

-- What a text adds to the latest messages it adds to the whole conversation.
Latest-add :
    (role : Role) (t : Text) (whole ms : List Message)
    → Latest whole ms
    → length ms ≤ 9
    → Latest (add_message role t whole) (add_message role t ms)
Latest-add role t whole ms l b = elim (Bool-cases (is_blank t)) [
  | inl e ↦ rw e l
  | inr e ↦ rw e (record {
    old = l.old;
    split = ap (λ x. x ++ fresh role t ∷ []) l.split ∙ append_assoc l.old ms (fresh role t ∷ []);
    even = l.even;
    bounded = omega (arith, length-append ms (fresh role t ∷ []));
    enough = elim l.enough [
      | inl z ↦ inl z
      | inr z ↦ inr (omega (arith, length-append ms (fresh role t ∷ [])))
    ];
  })
]

-- A full transcript lets its oldest turn go.
Latest-drop :
    (whole ms : List Message) → Latest whole ms → length ms ≡ 10 → Latest whole (drop 2 ms)
Latest-drop whole [] l e = ground arith
Latest-drop whole (m ∷ []) l e = ground arith
Latest-drop whole (m ∷ n ∷ ms) l e = record {
  old = l.old ++ m ∷ n ∷ [];
  split = l.split ∙ sym (append_assoc l.old (m ∷ n ∷ []) ms);
  even = omega (arith, length-append l.old (m ∷ n ∷ []), l.even);
  bounded = omega arith;
  enough = inr (omega arith);
}

Latest-extend :
    (t : Text) (whole ms : List Message)
    → Latest whole ms
    → (length ms % 2 == 0) ≡ false
    → Latest (extend_last t whole) (extend_last t ms)
Latest-extend t whole [] l o = ground arith
Latest-extend t whole (m ∷ ms) l o =
    let n : length (extend_last t (m ∷ ms)) ≡ length (m ∷ ms) = extend_last-length t (m ∷ ms) in
    record {
      old = l.old;
      split = ap (extend_last t) l.split ∙ extend_last-append t l.old m ms;
      even = l.even;
      bounded = omega (arith, l.bounded);
      enough = elim l.enough [ inl z ↦ inl z | inr z ↦ inr (omega arith) ];
    }

-- Two conditionals on the same test.
both :
    (R : List Message → List Message → Type 0) (b c : Bool) {x y u v : List Message}
    → b ≡ c
    → (c ≡ true → R x u)
    → (c ≡ false → R y v)
    → R (if b then x else y) (if c then u else v)
both R true true e f g = f refl
both R true false e f g = cc
both R false true e f g = cc
both R false false e f g = g refl

Latest-parity :
    (whole ms : List Message) → Latest whole ms → (length whole % 2 == 0) ≡ (length ms % 2 == 0)
Latest-parity whole ms l = ap (λ x. length x % 2 == 0) l.split ∙ odd-append l.old ms l.even

pub append_message-Latest :
    (whole ms : List Message) (e : Entry)
    → Latest whole ms
    → Latest (tell whole e) (append_message ms e.0 e.1)
unfolding append_message tell
append_message-Latest whole ms (Role.user, t) l =
    both Latest (not (length whole % 2 == 0)) (not (length ms % 2 == 0))
      (ap not (Latest-parity whole ms l)) (λ o. Latest-extend t whole ms l (ground arith))
      (λ o. elim (Bool-cases (length ms == history_max)) [
        | inl f ↦ rw f (
            Latest-add Role.user t whole (drop 2 ms) (Latest-drop whole ms l (ground arith))
              (omega (arith, length-drop 2 ms, l.bounded)))
        | inr f ↦ rw f (Latest-add Role.user t whole ms l (ground arith))
      ])
append_message-Latest whole ms (Role.assistant, t) l =
    both Latest (length whole % 2 == 0) (length ms == 0 || length ms % 2 == 0)
      (Latest-parity whole ms l ∙ ground arith) (λ o. l)
      (λ o. Latest-add Role.assistant t whole ms l (ground arith))

-- The entries of the history's JSON, as the records tell them.
module _ {J : Type 0} (k : HistoryJson J) where
  unfoldable pub entry_of : J → Option Entry
  entry_of r =
      let t = copy_content k text_size (k.get_item r (text "content")) in
      elim (k.string_of (k.get_item r (text "role"))) [
        | none ↦ none
        | some role ↦
            if text_eq role (text "user")
            then some (Role.user, t)
            else if text_eq role (text "assistant")
            then some (Role.assistant, t)
            else none
      ]

  abbrev pub cons_entry : Option Entry → List Entry → List Entry
  cons_entry none es = es
  cons_entry (some e) es = e ∷ es

  unfoldable pub entries : List J → List Entry
  entries [] = []
  entries (r ∷ rs) = cons_entry (entry_of r) (entries rs)

  abbrev pub load_entry : List Message → Option Entry → List Message
  load_entry ms none = ms
  load_entry ms (some e) = append_message ms e.0 e.1

  pub load_record-entry :
      (ms : List Message) (r : J) → load_record k ms r ≡ load_entry ms (entry_of r)
  unfolding load_record entry_of
  load_record-entry ms r = ground arith
