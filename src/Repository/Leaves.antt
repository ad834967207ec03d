-- ===== src/Repository/Leaves.antt =====
-- What a transaction leaves behind where it commits: rules that follow a `Tx` statement by statement.
use mite.Prelude.{◌≡◌, refl, Bool, true, false, ok, err, if◌then◌else◌, fail_if}
use mite.Domain.Errors.{Error, Res}
use mite.Repository.{Db, Tx, go_on, guarded, settle, transact}

-- A statement that reads.
abbrev pub asks {ℓ} : {A : Type ℓ} → (Db → Res A) → Tx A
asks f db = (f db, db)

-- If a step ends in a value, the value and the state that it leaves satisfy Q.
pub Leaves {ℓ} : {A : Type ℓ} → (A → Db → Type 0) → Res A × Db → Type 0
Leaves Q (ok a, db) = Q a db
Leaves Q (err e, db) = Unit

pub Leaves-pure {ℓ} :
    {A : Type ℓ} (Q : A → Db → Type 0) (a : A) (db : Db) → Q a db → Leaves Q (ok a, db)
unfolding Leaves
Leaves-pure Q a db h = h

pub Leaves-err {ℓ} : {A : Type ℓ} (Q : A → Db → Type 0) (e : Error) (db : Db) → Leaves Q (err e, db)
unfolding Leaves
Leaves-err Q e db = tt

-- What holds of the state however a step ends.
pub Leaves-state {ℓ} :
    {A : Type ℓ} (R : Db → Type 0) (x : Res A × Db) → R x.1 → Leaves (λ _ db. R db) x
unfolding Leaves
Leaves-state R (ok a, db) h = h
Leaves-state R (err e, db) h = tt

-- What a step leaves, weakened.
pub Leaves-weaken {ℓ} :
    {A : Type ℓ} (P Q : A → Db → Type 0) (x : Res A × Db)
    → Leaves P x
    → ((a : A) (db : Db) → P a db → Q a db)
    → Leaves Q x
unfolding Leaves
Leaves-weaken P Q (ok a, db) h f = f a db h
Leaves-weaken P Q (err e, db) h f = tt

pub Leaves-ok {ℓ} :
    {A : Type ℓ} (Q : A → Db → Type 0) (a : A) (db : Db) → Leaves Q (ok a, db) → Q a db
unfolding Leaves
Leaves-ok Q a db h = h

module _ {ℓ κ} {A : Type ℓ} {B : Type κ} (Q : B → Db → Type 0) where
  pub Leaves-go_on :
      (P : A → Db → Type 0) (x : Res A × Db) (k : A → Tx B)
      → Leaves P x
      → ((a : A) (db : Db) → P a db → Leaves Q (k a db))
      → Leaves Q (go_on x k)
  unfolding Leaves
  Leaves-go_on P (ok a, db) k h step = step a db h
  Leaves-go_on P (err e, db) k h step = tt

  pub Leaves-lift :
      (r : Res A) (k : A → Tx B) (db : Db)
      → ((a : A) → r ≡ ok a → Leaves Q (k a db))
      → Leaves Q (go_on (r, db) k)
  unfolding Leaves
  Leaves-lift (ok a) k db step = step a refl
  Leaves-lift (err e) k db step = tt

  -- A refused statement leaves nothing.
  pub Leaves-ask :
      (refused : Bool) (f : Db → Res A) (k : A → Tx B) (db : Db)
      → ((a : A) → f db ≡ ok a → Leaves Q (k a db))
      → Leaves Q (go_on (guarded refused (asks f) db) k)
  unfolding Leaves
  Leaves-ask true f k db step = tt
  Leaves-ask false f k db step = Leaves-lift (f db) k db step

-- A check goes on where it does not fail.
pub Leaves-check {κ} :
    {B : Type κ} (Q : B → Db → Type 0) (bad : Bool) (e : Error) (k : Unit {0} → Tx B) (db : Db)
    → (bad ≡ false → Leaves Q (k tt db))
    → Leaves Q (go_on (fail_if bad e, db) k)
unfolding Leaves
Leaves-check Q true e k db step = tt
Leaves-check Q false e k db step = step refl

pub Leaves-guarded {ℓ} :
    {A : Type ℓ} (Q : A → Db → Type 0) (refused : Bool) (m : Tx A) (db : Db)
    → Leaves Q (m db)
    → Leaves Q (guarded refused m db)
unfolding Leaves
Leaves-guarded Q true m db h = tt
Leaves-guarded Q false m db h = h

pub Leaves-if {ℓ} :
    {A : Type ℓ} (Q : A → Db → Type 0) (b : Bool) (m n : Tx A) (db : Db)
    → (b ≡ true → Leaves Q (m db))
    → (b ≡ false → Leaves Q (n db))
    → Leaves Q ((if b then m else n) db)
Leaves-if Q true m n db h k = h refl
Leaves-if Q false m n db h k = k refl

settled {ℓ} :
    {A : Type ℓ} (refused : Bool) (db : Db) (R : Db → Type 0) (x : Res A × Db)
    → R db
    → Leaves (λ _ db'. R db') x
    → R (settle refused db x).1
unfolding Leaves
settled refused db R (err e, db') h l = h
settled true db R (ok a, db') h l = h
settled false db R (ok a, db') h l = l

-- What held before a transaction, and what its work leaves, holds after it.
pub Leaves-transact {ℓ} :
    {A : Type ℓ} (refused : Bool) (work : Tx A) (db : Db) (R : Db → Type 0)
    → R db
    → Leaves (λ _ db'. R db') (work db)
    → R (transact refused work db).1
unfolding transact
Leaves-transact refused work db R h l = settled refused db R (work db) h l
