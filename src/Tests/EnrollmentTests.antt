-- ===== src/Tests/EnrollmentTests.antt =====
-- A token with one use left: hive/internal/enrollment/enrollment.go.
use herdr_hive.Base.{◌≡◌, refl, [], ◌∷◌, bytes_eq_iff, codes, arith}
use herdr_hive.Base.Dict.{Dict, lookup, insert}
use herdr_hive.Enrollment.{
  Token, Use, use_of, contains, count_keys, granted, reserve_in, release_in,
}
use herdr_hive.Enrollment.Uses.{IsCounted, release_in-reserve_in, reserve_in_bounded, IsReserved}

abbrev token : Token
token = record { id = codes "t-1"; max_uses = 2 }

abbrev used_once : Dict Use
used_once = (codes "t-1", record { uses = 1; keys = codes "k" ∷ [] }) ∷ []

abbrev used_twice : Dict Use
used_twice = (codes "t-1", record { uses = 2; keys = codes "k" ∷ (codes "n" ∷ []) }) ∷ []

second_use : reserve_in token (codes "n") used_once ≡ granted used_twice
unfolding reserve_in contains count_keys use_of lookup insert
second_use = refl

used_once-IsCounted : IsCounted used_once
unfolding lookup
used_once-IsCounted id v e = ground (arith, bytes_eq_iff (codes "t-1") id)

release_in-reserve_in_example :
    use_of (lookup (codes "t-1") (release_in (codes "t-1") (codes "n") used_twice))
    ≡ use_of (lookup (codes "t-1") used_once)
release_in-reserve_in_example =
    release_in-reserve_in token (codes "n") (codes "t-1") used_once used_twice used_once-IsCounted
      second_use

reserve_in_bounded_example : IsReserved token (codes "n") used_once used_twice
reserve_in_bounded_example =
    reserve_in_bounded token (codes "n") used_once used_twice (omega arith) second_use
