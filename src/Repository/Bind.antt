-- ===== src/Repository/Bind.antt =====
-- What a step of a transaction returns, as a case distinction.
use mite.Prelude.{◌≡◌, refl, ◌⊎◌, inl, inr, ok, err}
use mite.Domain.Errors.{Error, Res}
use mite.Repository.{Db}

-- Every step ends in an error or in a value, and in some state.
pub Step-cases {ℓ} :
    {A : Type ℓ} (x : Res A × Db)
    → ((e : Error) × (db' : Db) × (x ≡ (err e, db'))) ⊎ ((a : A) × (db' : Db) × (x ≡ (ok a, db')))
Step-cases (err e, db') = inl (e, db', refl)
Step-cases (ok a, db') = inr (a, db', refl)
