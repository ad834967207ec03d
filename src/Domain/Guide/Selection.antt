-- ===== src/Domain/Guide/Selection.antt =====
-- `SelectGuideMaterialIndexes` of server/internal/domain/guide.go: which images go to the AI.
use mite.Prelude.{
  if◌then◌else◌, ltb, ltb_iff, Option, none, ℕ, zero, suc, ◌+◌, ◌-◌, ◌*◌, ◌/◌, ◌≤◌, ◌<◌, ◌≡◌, refl,
  arith, List, [], ◌∷◌, length, get_elem?, some, leb, Bool-cases, inl, inr, ap, ◌∙◌,
}
use Prim.Native.Nat.{min}
use mite.Domain.Guide.{fill, select_material_indexes}

length-fill : (f : ℕ → ℕ) (i n : ℕ) → length (fill f i n) ≡ n
unfolding fill
length-fill f i zero = refl
length-fill f i (suc n) = ap suc (length-fill f (i + 1) n)

get_elem?-fill : (f : ℕ → ℕ) (i n k : ℕ) → k < n → get_elem? (fill f i n) k ≡ some (f (i + k))
unfolding fill
get_elem?-fill f i zero k h = absurd (omega arith)
get_elem?-fill f i (suc n) zero h = ground arith
get_elem?-fill f i (suc n) (suc k) h = ground (arith, get_elem?-fill f (i + 1) n k)

-- The list grows strictly.
abbrev pub IsIncreasing : List ℕ → Type 0
IsIncreasing [] = Unit
IsIncreasing (x ∷ []) = Unit
IsIncreasing (x ∷ y ∷ xs) = (x < y) × IsIncreasing (y ∷ xs)

fill-IsIncreasing : (f : ℕ → ℕ) (i n : ℕ) → ((k : ℕ) → f k < f (k + 1)) → IsIncreasing (fill f i n)
unfolding fill
fill-IsIncreasing f i zero h = tt
fill-IsIncreasing f i (suc zero) h = tt
fill-IsIncreasing f i (suc (suc n)) h = (h i, fill-IsIncreasing f (i + 1) (suc n) h)

spread_grows : (last k : ℕ) → 29 ≤ last → k * last / 29 < (k + 1) * last / 29
spread_grows last k h = omega arith

-- The last entry of a list.
abbrev pub last_elem? : List ℕ → Option ℕ
last_elem? [] = none
last_elem? (x ∷ xs) = get_elem? (x ∷ xs) (length xs)

-- A selection among `total` images.
abbrev pub Selects : ℕ → List ℕ → Type 0
Selects total s =
    (length s ≡ min total 30)
    × IsIncreasing s
    × (get_elem? s 0 ≡ (if ltb 0 total then some 0 else none))
    × (last_elem? s ≡ (if ltb 0 total then some (total - 1) else none))

last-fill : (f : ℕ → ℕ) (n : ℕ) → 0 < n → last_elem? (fill f 0 n) ≡ some (f (n - 1))
unfolding fill
last-fill f zero h = elim h [ ]
last-fill f (suc n) h =
    rw (length-fill f 1 n)
      (get_elem?-fill f 0 (suc n) n (omega arith) ∙ ap some (ap f (omega arith)))

fill-Selects :
    (f : ℕ → ℕ) (total n : ℕ)
    → n ≡ min total 30
    → ((k : ℕ) → f k < f (k + 1))
    → 0 < n
    → f 0 ≡ 0
    → f (n - 1) ≡ total - 1
    → Selects total (fill f 0 n)
fill-Selects f total n size grows pos first last = (
  length-fill f 0 n ∙ size,
  fill-IsIncreasing f 0 n grows,
  rw ((ltb_iff 0 total).1 (omega arith)) (get_elem?-fill f 0 n 0 pos ∙ ap some first),
  rw ((ltb_iff 0 total).1 (omega arith)) (last-fill f n pos ∙ ap some last),
)

select_few : (total : ℕ) → 0 < total → total ≤ 30 → Selects total (fill (λ index. index) 0 total)
select_few total pos few =
    fill-Selects (λ index. index) total total (omega arith) (λ k. omega arith) pos refl refl

select_many :
    (total : ℕ) → 30 < total → Selects total (fill (λ index. index * (total - 1) / 29) 0 30)
select_many total many =
    fill-Selects (λ index. index * (total - 1) / 29) total 30 (omega arith)
      (λ k. spread_grows (total - 1) k (omega arith)) (omega arith) (omega arith) (omega arith)

-- For every number of images the selection has the smaller of that number and 30 entries, grows
-- strictly, begins with the first image, and ends with the last one.
pub select_material_indexes-Selects : (total : ℕ) → Selects total (select_material_indexes total)
unfolding select_material_indexes
select_material_indexes-Selects total = elim (Bool-cases (leb total 0)) [
  | inl empty ↦ rw empty (ground arith)
  | inr some_image ↦ rw some_image (elim (Bool-cases (leb total 30)) [
    | inl few ↦ rw few (select_few total (ground arith) (ground arith))
    | inr many ↦ rw many (select_many total (ground arith))
  ])
]
