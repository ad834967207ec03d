-- ===== src/Domain/Value.antt =====
-- server/internal/domain/value.go and revision.go: ids, texts and revisions. An `int64` that the
-- program compares with 1 is a natural number: 0 stands for every value below 1.
pub mod Laws
use mite.Prelude.{
  ℕ, ◌+◌, Bool, ◌||◌, ◌&&◌, not, if◌then◌else◌, ltb, ◌==◌, ◌!=◌, eq_nat, ok, fail_if, ◌>>◌,
}
use mite.Text.{Str, valid_string, rune_count, is_blank}
use mite.Domain.Errors.{
  Res, Error, fail, domain, validation_error, revision_conflict, internal_error,
}

-- `type ID string`.
abbrev pub DomainId : Type 0
DomainId = Str

unfoldable pub new_id : Str → Res DomainId
new_id value =
    if not (valid_string value) || is_blank value then fail validation_error else ok value

unfoldable pub validate_text : Str → ℕ → ℕ → Bool → Res (Unit {0})
validate_text value min_runes max_runes required =
    if not (valid_string value)
    then fail validation_error
    else if required && is_blank value
    then fail validation_error
    else if ltb (rune_count value) min_runes || ltb max_runes (rune_count value)
    then fail validation_error
    else ok tt

abbrev pub initial_revision : ℕ
initial_revision = 1

-- `math.MaxInt64`.
abbrev pub max_int64 : ℕ
max_int64 = 9223372036854775807

unfoldable pub check_expected_revision : ℕ → ℕ → Res (Unit {0})
check_expected_revision current expected =
    if ltb current initial_revision || ltb expected initial_revision
    then fail validation_error
    else if current != expected
    then fail revision_conflict
    else ok tt

unfoldable pub next_revision : ℕ → Res ℕ
next_revision current =
    if ltb current initial_revision
    then fail validation_error
    else if current == max_int64
    then fail internal_error
    else ok (current + 1)
