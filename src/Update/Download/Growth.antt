-- ===== src/Update/Download/Growth.antt =====
-- The end of the loop that doubles the capacity.
use esp_mosaico_claw.Base.{
  ℕ, zero, suc, ◌+◌, ◌*◌, ◌%◌, ◌≤◌, ◌<◌, ◌≡◌, refl, ◌⊎◌, inl, inr, ◌&&◌, some, arith, ltb,
  Bool-cases, u32_mod,
}
use esp_mosaico_claw.Update.Download.{grow}

-- With a maximum below 2 ^ 31, a first capacity of at least 1 and fuel for the distance to the
-- needed size, the loop of the growth ends with a size that serves, or with one beyond the maximum.
pub grow_ends :
    (f needed maximum next : ℕ)
    → maximum + 1 ≤ 2147483648
    → 1 ≤ next
    → 1 ≤ f
    → needed < next + f
    → (n : ℕ) × (grow f needed maximum next ≡ some n) × ((needed ≤ n) ⊎ (maximum + 1 ≤ n))
unfolding grow
grow_ends zero needed maximum next m p q h = ground arith
grow_ends (suc f) needed maximum next m p q h =
    elim (Bool-cases (ltb next needed && ltb next ((maximum + 1) % u32_mod))) [
      | inl t ↦
          let (n, e, g) =
            grow_ends f needed maximum (next * 2 % u32_mod) m (ground arith) (ground arith)
              (ground arith) in
          (n, rw (t, grow) e, g)
      | inr t ↦ (next, rw (t, grow) refl, ground arith)
    ]
