-- ===== src/Versions/Tests.antt =====
-- Runs of the comparison of versions.
use peanut_butter.Prelude.{◌≡◌, refl, true, ◌↔◌, none, some, arith}
use peanut_butter.Text.{codes, is_whitespace}
use peanut_butter.Versions.{is_newer}
use peanut_butter.Text.Decimal.{Free}
use peanut_butter.Versions.Laws.{Release, tag, IsLater, is_newer_iff}

minor_newer : is_newer (codes "v1.10.0") (codes "1.9.3") ≡ true
unfolding is_newer
minor_newer = refl

final_newer : is_newer (codes "1.9.3") (codes "v1.9.3-rc1") ≡ true
unfolding is_newer
final_newer = refl

abbrev latest : Release
latest = record { major = 1; minor = 10; patch = 0; label = none }

abbrev running : Release
running = record { major = 1; minor = 9; patch = 3; label = some (codes "rc1") }

rc-Free : Free is_whitespace (codes "-rc1")
unfolding is_whitespace
rc-Free = (refl, (refl, (refl, (refl, tt))))

is_newer_iff_example : (is_newer (tag latest) (tag running) ≡ true) ↔ IsLater latest running
is_newer_iff_example =
    is_newer_iff latest running (omega arith, omega arith, omega arith, tt)
      (omega arith, omega arith, omega arith, rc-Free)
