-- ===== src/Jackett/Health.antt =====
-- backend/src/jackett.rs: the label and the stars of a swarm.
use peanut_butter.Prelude.{ℤ, pos, negsuc, if◌then◌else◌, ◌==◌, leb}
use peanut_butter.Text.{Text, codes}

unfoldable pub calculate_rating : ℤ → ℤ
calculate_rating (pos n) =
    if n == 0
    then pos 1
    else if leb n 4
    then pos 2
    else if leb n 19
    then pos 3
    else if leb n 49
    then pos 4
    else pos 5
calculate_rating (negsuc n) = pos 5

unfoldable pub health_for : ℤ → Text
health_for (pos n) =
    if n == 0
    then codes "dead"
    else if leb n 4
    then codes "poor"
    else if leb n 19
    then codes "decent"
    else if leb n 49
    then codes "good"
    else codes "excellent"
health_for (negsuc n) = codes "excellent"
