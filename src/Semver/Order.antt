-- ===== src/Semver/Order.antt =====
-- The order of versions: a strict weak order on those that parse.
use arguss.Base.{◌≡◌, ◌≢◌, Option, none, some, arith, Text}
use arguss.Semver.{Comparison, less, equal, greater, compare_versions}

abbrev pub flip : Comparison → Comparison
flip less = greater
flip equal = equal
flip greater = less

abbrev pub flip_result : Option Comparison → Option Comparison
flip_result none = none
flip_result (some c) = some (flip c)

-- Comparing in the other direction gives the opposite sign, or `None` again.
pub compare_versions_flip : (v w : Text) → compare_versions w v ≡ flip_result (compare_versions v w)
unfolding compare_versions
compare_versions_flip v w = ground arith

pub compare_versions_trans :
    (u v w : Text)
    → compare_versions u v ≡ some less
    → compare_versions v w ≡ some less
    → compare_versions u w ≡ some less
unfolding compare_versions
compare_versions_trans u v w p q = ground arith

-- Below a version, and so below every version that is not lower than it.
pub compare_versions_lt_le :
    (u v w c : Text)
    → compare_versions u v ≡ some less
    → compare_versions c w ≡ some less
    → compare_versions w v ≢ some less
    → compare_versions u w ≡ some less
unfolding compare_versions
compare_versions_lt_le u v w c p q h = ground arith

pub compare_versions_irrefl : (v : Text) → compare_versions v v ≢ some less
unfolding compare_versions
compare_versions_irrefl v h = ground arith

-- Not above a version, which is below another.
pub compare_versions_le_lt :
    (u v w c : Text)
    → compare_versions v w ≡ some less
    → compare_versions c u ≡ some less
    → compare_versions v u ≢ some less
    → compare_versions u w ≡ some less
unfolding compare_versions
compare_versions_le_lt u v w c p q h = ground arith
