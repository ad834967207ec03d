-- ===== src/Text.antt =====
-- Go's strings as the program uses them: a `string` is a list of bytes, and `unicode/utf8` and
-- `strings.TrimSpace` read runes out of it. Domain/Value.antt says what the program checks.
use Prim.Native.Char.{code}
use Prim.Native.String.{String}
use mathlib.Core.Option
use mite.Prelude.{
  ℕ, ◌+◌, ◌*◌, ◌-◌, ◌≡◌, ◌↔◌, Bool, true, false, ◌&&◌, ◌||◌, Option, none, some, List, [], ◌∷◌,
  arith, leb, nat_eq, nat_eq_iff, if◌then◌else◌, Eq, length,
}

abbrev pub Str : Type 0
Str = List ℕ

-- The bytes of an ASCII literal of the source.
abbrev pub ascii : String → Str
ascii String.[] = []
ascii (String.◌∷◌ c s) = code c ∷ ascii s

unfoldable pub str_eq : Str → Str → Bool
str_eq [] [] = true
str_eq (a ∷ s) (b ∷ t) = nat_eq a b && str_eq s t
str_eq _ _ = false

pub str_eq_iff : (s t : Str) → (str_eq s t ≡ true) ↔ (s ≡ t)
unfolding str_eq
str_eq_iff [] [] = ground arith
str_eq_iff [] (b ∷ t) = ground arith
str_eq_iff (a ∷ s) [] = ground arith
str_eq_iff (a ∷ s) (b ∷ t) = ground (arith, str_eq_iff s t, nat_eq_iff a b)

instance abbrev pub eq_str : Eq Str
eq_str = record { test = str_eq; test_iff = str_eq_iff }

-- The decoder between two bytes: how many continuation bytes are due, the range in which the next
-- one must lie, and the bits read so far.
pub record Pending : Type 0 where
  pub due : ℕ
  pub lo : ℕ
  pub hi : ℕ
  pub bits : ℕ

abbrev pub idle : Pending
idle = record { due = 0; lo = 0x80; hi = 0xbf; bits = 0 }

abbrev between : ℕ → ℕ → ℕ → Bool
between lo b hi = leb lo b && leb b hi

-- A leading byte: a rune of its own, or the start of a longer one (Go's table of first bytes).
unfoldable pub lead : ℕ → Option (Option ℕ × Pending)
lead b =
    if leb b 0x7f
    then some (some b, idle)
    else if between 0xc2 b 0xdf
    then some (none, record { due = 1; lo = 0x80; hi = 0xbf; bits = b - 0xc0 })
    else if nat_eq b 0xe0
    then some (none, record { due = 2; lo = 0xa0; hi = 0xbf; bits = 0 })
    else if nat_eq b 0xed
    then some (none, record { due = 2; lo = 0x80; hi = 0x9f; bits = 0xd })
    else if between 0xe1 b 0xef
    then some (none, record { due = 2; lo = 0x80; hi = 0xbf; bits = b - 0xe0 })
    else if nat_eq b 0xf0
    then some (none, record { due = 3; lo = 0x90; hi = 0xbf; bits = 0 })
    else if nat_eq b 0xf4
    then some (none, record { due = 3; lo = 0x80; hi = 0x8f; bits = 4 })
    else if between 0xf1 b 0xf3
    then some (none, record { due = 3; lo = 0x80; hi = 0xbf; bits = b - 0xf0 })
    else none

-- A continuation byte: the last one completes the rune.
unfoldable pub continue : Pending → ℕ → Option (Option ℕ × Pending)
continue p b =
    if between p.lo b p.hi
    then if nat_eq p.due 1
      then some (some (p.bits * 0x40 + (b - 0x80)), idle)
      else some (
        none,
        record { due = p.due - 1; lo = 0x80; hi = 0xbf; bits = p.bits * 0x40 + (b - 0x80) },
      )
    else none

unfoldable pub advance : Pending → ℕ → Option (Option ℕ × Pending)
advance p b = if nat_eq p.due 0 then lead b else continue p b

abbrev emit : Option ℕ → List ℕ → List ℕ
emit none rs = rs
emit (some r) rs = r ∷ rs

-- The runes of a string that is valid UTF-8; `none` for one that is not.
unfoldable pub decode : Pending → Str → Option (List ℕ)
decode p [] = if nat_eq p.due 0 then some [] else none
decode p (b ∷ s) = elim (advance p b) [
  | none ↦ none
  | some (r, p') ↦ Option.map (emit r) (decode p' s)
]

unfoldable pub runes : Str → Option (List ℕ)
unfolding decode advance lead continue
runes s = decode idle s

-- `utf8.ValidString`.
abbrev pub valid_string : Str → Bool
valid_string s = elim (runes s) [ none ↦ false | some rs ↦ true ]

-- `utf8.RuneCountInString`, which the program asks only of valid strings.
abbrev pub rune_count : Str → ℕ
rune_count s = elim (runes s) [ none ↦ length s | some rs ↦ length rs ]

-- `unicode.IsSpace`.
unfoldable pub is_space : ℕ → Bool
is_space r =
    between 0x9 r 0xd
    || nat_eq r 0x20
    || nat_eq r 0x85
    || nat_eq r 0xa0
    || nat_eq r 0x1680
    || between 0x2000 r 0x200a
    || nat_eq r 0x2028
    || nat_eq r 0x2029
    || nat_eq r 0x202f
    || nat_eq r 0x205f
    || nat_eq r 0x3000

unfoldable pub all_space : List ℕ → Bool
unfolding is_space
all_space [] = true
all_space (r ∷ rs) = is_space r && all_space rs

-- `strings.TrimSpace(s) == ""`: an invalid byte counts as a rune that is no space.
abbrev pub is_blank : Str → Bool
is_blank s = elim (runes s) [ none ↦ false | some rs ↦ all_space rs ]
