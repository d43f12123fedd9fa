-- ===== src/Startup/Laws.antt =====
-- The retries of the migrations end, and how.
use rust_local_storage_cdn.Prelude.{
  ℕ, zero, suc, ◌+◌, ◌≤◌, ◌<◌, Text, Option, none, some, ◌≡◌, ◌⊎◌, inl, inr, refl, arith,
  Option-cases,
}
use rust_local_storage_cdn.Startup.{Migration, max_attempts, migrate}

-- The first n runs fail.
abbrev pub AllFail : (ℕ → Option Text) → ℕ → Type 0
AllFail run zero = Unit
AllFail run (suc n) = ((e : Text) × (run n ≡ some e)) × AllFail run n

abbrev pub Ended : (ℕ → Option Text) → Option Migration → Type 0
Ended run outcome =
    ((n : ℕ) × (outcome ≡ some (Migration.applied n))
      × (n ≤ max_attempts)
      × (run n ≡ none)
      × AllFail run n)
    ⊎ ((e : Text) × (outcome ≡ some (Migration.failed max_attempts e)) × AllFail run 31)

lt_or_eq : (n : ℕ) → n ≤ 30 → (n < 30) ⊎ (n ≡ 30)
lt_or_eq n h = ground arith

module _ (run : ℕ → Option Text) (fuel attempts : ℕ) where
  migrate-fine :
      run attempts ≡ none → migrate run (suc fuel) attempts ≡ some (Migration.applied attempts)
  unfolding migrate
  migrate-fine fine = rw (migrate, fine)

  migrate-again :
      (e : Text)
      → run attempts ≡ some e
      → attempts < 30
      → migrate run (suc fuel) attempts ≡ migrate run fuel (suc attempts)
  unfolding migrate
  migrate-again e bad more = ground (arith, bad)

  migrate-last :
      (e : Text)
      → run attempts ≡ some e
      → attempts ≡ 30
      → migrate run (suc fuel) attempts ≡ some (Migration.failed max_attempts e)
  unfolding migrate
  migrate-last e bad last = ground (arith, bad)

all_failed :
    (run : ℕ → Option Text) (attempts : ℕ) (e : Text)
    → attempts ≡ 30
    → run attempts ≡ some e
    → AllFail run attempts
    → AllFail run 31
all_failed run attempts e last bad before = ((e, rw last at bad), rw last at before)

migrate-Ended :
    (run : ℕ → Option Text) (fuel attempts : ℕ)
    → fuel + attempts ≡ 31
    → attempts ≤ 30
    → AllFail run attempts
    → Ended run (migrate run fuel attempts)
migrate-Ended run zero attempts sum bound before = absurd (omega arith)
migrate-Ended run (suc fuel) attempts sum bound before = elim (Option-cases (run attempts)) [
  | inl fine ↦ inl (attempts, migrate-fine run fuel attempts fine, bound, fine, before)
  | inr (e, bad) ↦ elim (lt_or_eq attempts bound) [
    | inl more ↦
        rw (migrate-again run fuel attempts e bad more)
          (migrate-Ended run fuel (suc attempts) (omega arith) (omega arith) ((e, bad), before))
    | inr last ↦
        inr
          (e, migrate-last run fuel attempts e bad last, all_failed run attempts e last bad before)
  ]
]

-- With fuel for 31 runs the retries end, whatever the runs say: with the first run that succeeds, all
-- runs before it having failed; or, after all 31 runs have failed, with an error.
pub migrate-total : (run : ℕ → Option Text) → Ended run (migrate run 31 0)
migrate-total run = migrate-Ended run 31 0 refl (omega arith) tt
