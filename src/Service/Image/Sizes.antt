-- ===== src/Service/Image/Sizes.antt =====
-- The sizes of the images of server/internal/service/guide_worker.go.
use mite.Prelude.{
  ℕ, ◌+◌, ◌*◌, ◌/◌, ◌≤◌, ◌<◌, ◌≡◌, refl, ◌⊎◌, inl, inr, false, Bool-cases, ◌&&◌, ltb, leb, arith,
}
use native.Mathlib.Nat.{
  div-lt_iff_lt-mul, div-mul-le_self, lt-div-mul-add, mul-le-mul_left, mul-lt-mul_of_pos_right,
  mul_comm, add-mul, le_of_mul-le-mul_right, mul-le-mul_right, mul-le-mul,
}
use mite.Service.Image.{fit_dimensions, max_of}

-- A point of n scales to one of m.
-- A side that is scaled with the other one is as long as it may be, and at least 1.
abbrev pub IsScaled : ℕ → ℕ → ℕ → ℕ → Type 0
IsScaled a b side other =
    (1 ≤ a) × (a ≤ side) × (b * side < (a + 1) * other) × ((a * other ≤ b * side) ⊎ (a ≡ 1))

one_cases : (q : ℕ) → ((q ≤ 1) × (max_of 1 q ≡ 1)) ⊎ ((1 < q) × (max_of 1 q ≡ q))
one_cases q = elim (Bool-cases (ltb 1 q)) [
  | inl t ↦ inr (ground arith, rw t refl)
  | inr f ↦ inl (ground arith, rw f refl)
]

-- `side * b / other`, at least 1.
max_of-IsScaled :
    (side other b : ℕ)
    → 0 < side
    → 0 < other
    → b ≤ other
    → IsScaled (max_of 1 (side * b / other)) b side other
max_of-IsScaled side other b pos pos' le =
    rounded (side * b / other) (div-mul-le_self (side * b) other)
      (lt-div-mul-add {a = side * b} pos')
  where
    rounded :
        (q : ℕ)
        → q * other ≤ side * b
        → side * b < q * other + other
        → IsScaled (max_of 1 q) b side other
    rounded q below above = elim (one_cases q) [
      | inl (small, m) ↦ rw m (
        omega arith,
        pos,
        omega (arith, above, mul_comm side b, mul-le-mul_right other small),
        inr refl,
      )
      | inr (big, m) ↦ rw m (
        omega (arith, big),
        le_of_mul-le-mul_right {k = other} (omega (arith, below, mul-le-mul_left side le)) pos',
        omega (arith, above, mul_comm side b, add-mul q 1 other),
        inl (omega (arith, below, mul_comm side b)),
      )
    ]

-- A quotient that is below a limit, at least 1.
limited : (n k limit : ℕ) → 0 < k → 0 < limit → n < (limit + 1) * k → max_of 1 (n / k) ≤ limit
limited n k limit pos some h =
    let q : n / k < limit + 1 = (div-lt_iff_lt-mul pos).1 h in
    elim (one_cases (n / k)) [ inl (small, m) ↦ rw m some | inr (big, m) ↦ rw m (omega (arith, q)) ]

-- A size that has no empty side and is in a box: the original one, or with the whole width or the
-- whole height of the box and in proportion, where that makes no side longer.
abbrev pub IsFit : ℕ → ℕ → ℕ → ℕ → ℕ × ℕ → Type 0
IsFit width height max_width max_height target =
    (1 ≤ target.0)
    × (1 ≤ target.1)
    × (target.0 ≤ max_width)
    × (target.1 ≤ max_height)
    × ((target ≡ (width, height))
        ⊎ ((target.0 ≡ max_width) × (max_width ≤ width) × IsScaled target.1 max_width height width)
        ⊎ ((target.1 ≡ max_height)
            × (max_height ≤ height)
            × IsScaled target.0 max_height width height))

-- The size that fits a box, neither of which is empty, is in the box and in proportion: it is the
-- size itself, or takes up the whole width or the whole height of the box. No side grows or gets to 0.
pub fit_dimensions-IsFit :
    (width height max_width max_height : ℕ)
    → 0 < width
    → 0 < height
    → 0 < max_width
    → 0 < max_height
    → IsFit width height max_width max_height (fit_dimensions width height max_width max_height)
unfolding fit_dimensions
fit_dimensions-IsFit width height max_width max_height w h mw mh =
    elim (Bool-cases (leb width max_width && leb height max_height)) [
      | inl fits ↦ rw fits (w, h, ground arith, ground arith, inl refl)
      | inr over ↦ elim (Bool-cases (ltb (height * max_width) (width * max_height))) [
        | inl wide ↦
            let below : height * max_width < width * max_height = ground arith in
            let broad : max_width ≤ width = broad_of over below in
            rw (over, wide)
              (
                mw,
                (max_of-IsScaled height width max_width h w broad).0,
                omega arith,
                limited (height * max_width) width max_height w mh
                    (omega (arith, below, add-mul max_height 1 width, mul_comm width max_height)),
                inr (inl (refl, broad, max_of-IsScaled height width max_width h w broad)),
              )
        | inr tall ↦
            let beyond : width * max_height ≤ height * max_width = ground arith in
            let high : max_height ≤ height = high_of over beyond in
            rw (over, tall)
              (
                (max_of-IsScaled width height max_height w h high).0,
                mh,
                limited (width * max_height) height max_width h mw
                    (omega (arith, beyond, add-mul max_width 1 height, mul_comm height max_width)),
                omega arith,
                inr (inr (refl, high, max_of-IsScaled width height max_height w h high)),
              )
      ]
    ]
  where
    broad_of :
        (leb width max_width && leb height max_height) ≡ false
        → height * max_width < width * max_height
        → max_width ≤ width
    broad_of over below = elim (Bool-cases (leb max_width width)) [
      | inl t ↦ ground arith
      | inr f ↦
          let narrow : width ≤ max_width = ground arith in
          let high : max_height ≤ height = ground arith in
          let k = mul-le-mul narrow high in
          absurd (omega (arith, k, below, mul_comm max_width height))
    ]

    high_of :
        (leb width max_width && leb height max_height) ≡ false
        → width * max_height ≤ height * max_width
        → max_height ≤ height
    high_of over beyond = elim (Bool-cases (leb max_height height)) [
      | inl t ↦ ground arith
      | inr f ↦
          let low : height < max_height = ground arith in
          let broad : max_width ≤ width = ground arith in
          let k = mul-lt-mul_of_pos_right low w in
          let l = mul-le-mul_left height broad in
          absurd (omega (arith, k, l, beyond, mul_comm max_height width))
    ]
