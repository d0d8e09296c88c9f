-- ===== src/Update/Download/Append.antt =====
-- What an append leaves behind, with the fuel that its loop needs.
use mathlib.Core.List.{append-nil}
use esp_mosaico_claw.Base.{
  ℕ, ◌+◌, ◌-◌, ◌≤◌, ◌<◌, ◌≡◌, refl, sym, subst, ◌⊎◌, inl, inr, Bool, true, false, ◌||◌, Option,
  some, List, [], ◌∷◌, ◌++◌, arith, if◌then◌else◌, if_cases, ltb, ◌==◌, length, length-append,
  EspErr, ok, no_mem, invalid_size,
}
use esp_mosaico_claw.Update.Download.{
  Response, first_capacity, clamp_capacity, needed_size, copied, http_append,
}
use esp_mosaico_claw.Update.Download.Growth.{grow_ends}

-- The bytes and their terminator lie within the buffer, and the buffer within the maximum.
pub record IsValid (r : Response) : Type 0 where
  pub counted : r.maximum + 1 ≤ 2147483648
  pub bounded : r.capacity ≤ r.maximum + 1
  pub terminated : (length r.body ≡ 0) ⊎ (length r.body + 1 ≤ r.capacity)

-- The outcome of an append: the chunk is kept whole within the bounds, or nothing changes.
abbrev pub Appends : Response → List ℕ → Bool → Option (EspErr × Response) → Type 0
Appends r chunk realloc o =
    (e : EspErr) × (r' : Response) × (o ≡ some (e, r'))
    × IsValid r'
    × (r'.maximum ≡ r.maximum)
    × (((e ≡ ok) × (r'.body ≡ r.body ++ chunk))
        ⊎ ((e ≡ invalid_size) × (r' ≡ r) × (r.maximum < length r.body + length chunk))
        ⊎ ((e ≡ no_mem) × (r' ≡ r) × (realloc ≡ false)))

IsValid-copied :
    (r : Response) (chunk : List ℕ) (n : ℕ)
    → r.maximum + 1 ≤ 2147483648
    → n ≤ r.maximum + 1
    → length r.body + length chunk + 1 ≤ n
    → IsValid (copied r chunk n)
unfolding copied
IsValid-copied r chunk n m b h = record {
  counted = m;
  bounded = b;
  terminated = inr (omega (arith, length-append r.body chunk, h));
}

pub append-empty : (xs ys : List ℕ) → (length ys == 0) ≡ true → xs ≡ xs ++ ys
append-empty xs [] e = sym (append-nil xs)
append-empty xs (y ∷ ys) e = ground arith

fits :
    (r : Response) (chunk : List ℕ) (realloc : Bool) (n : ℕ)
    → IsValid r
    → n ≤ r.maximum + 1
    → length r.body + length chunk + 1 ≤ n
    → Appends r chunk realloc (some (ok, copied r chunk n))
unfolding copied
fits r chunk realloc n v b h =
    (ok, copied r chunk n, refl, IsValid-copied r chunk n v.counted b h, refl, inl (refl, refl))

clamp_capacity-bounds :
    (maximum needed next : ℕ)
    → maximum + 1 ≤ 2147483648
    → needed ≤ maximum + 1
    → (needed ≤ next) ⊎ (maximum + 1 ≤ next)
    → (clamp_capacity maximum next ≤ maximum + 1) × (needed ≤ clamp_capacity maximum next)
unfolding clamp_capacity
clamp_capacity-bounds maximum needed next m b h = ground arith

needed_size-bounds :
    (r : Response) (chunk : List ℕ)
    → IsValid r
    → length r.body + length chunk ≤ r.maximum
    → needed_size r chunk ≡ length r.body + length chunk + 1
unfolding needed_size
needed_size-bounds r chunk v b = omega (arith, v.counted)

first_capacity-positive : (capacity : ℕ) → 1 ≤ first_capacity capacity
unfolding first_capacity
first_capacity-positive capacity = ground arith

grown :
    (r : Response) (chunk : List ℕ) (realloc : Bool) (next : ℕ)
    → IsValid r
    → length r.body + length chunk ≤ r.maximum
    → (needed_size r chunk ≤ next) ⊎ (r.maximum + 1 ≤ next)
    → Appends r chunk realloc (
        some
          (if realloc then (ok, copied r chunk (clamp_capacity r.maximum next)) else (no_mem, r)))
grown r chunk false next v b h = (no_mem, r, refl, v, refl, inr (inr (refl, refl, refl)))
grown r chunk true next v b h =
    let (c, d) =
      clamp_capacity-bounds r.maximum (length r.body + length chunk + 1) next v.counted
        (omega arith)
        (subst (λ x. (x ≤ next) ⊎ (r.maximum + 1 ≤ next)) (needed_size-bounds r chunk v b) h) in
    fits r chunk true (clamp_capacity r.maximum next) v c d

inside : (maximum m n : ℕ) → (ltb maximum m || ltb (maximum - m) n) ≡ false → m + n ≤ maximum
inside maximum m n e = ground arith

-- A response in order stays in order, and an append always returns: fuel for the maximum and two
-- more is enough for its loop. It keeps the chunk whole, or it changes nothing; it refuses only a
-- chunk that would exceed the maximum, or for a `realloc` that fails.
pub http_append-Appends :
    (fuel : ℕ) (r : Response) (chunk : List ℕ) (realloc : Bool)
    → IsValid r
    → r.maximum + 2 ≤ fuel
    → Appends r chunk realloc (http_append fuel r chunk realloc)
unfolding http_append
http_append-Appends fuel r chunk realloc v f =
    if_cases (Appends r chunk realloc) (length chunk == 0)
      (λ z. (ok, r, refl, v, refl, inl (refl, append-empty r.body chunk z)))
      (λ z.
        if_cases (Appends r chunk realloc)
          (ltb r.maximum (length r.body) || ltb (r.maximum - length r.body) (length chunk))
          (λ b. (invalid_size, r, refl, v, refl, inr (inl (refl, refl, ground arith))))
          (λ b.
            let l : length r.body + length chunk ≤ r.maximum =
              inside r.maximum (length r.body) (length chunk) b in
            let w : needed_size r chunk ≡ length r.body + length chunk + 1 =
              needed_size-bounds r chunk v l in
            let p : 1 ≤ first_capacity r.capacity = first_capacity-positive r.capacity in
            if_cases (Appends r chunk realloc) (ltb r.capacity (needed_size r chunk))
              (λ g.
                let (n, e, h) =
                  grow_ends fuel (needed_size r chunk) r.maximum (first_capacity r.capacity)
                    v.counted p (omega arith) (omega arith) in
                rw e (grown r chunk realloc n v l h))
              (λ g. fits r chunk realloc r.capacity v v.bounded (ground arith))))
