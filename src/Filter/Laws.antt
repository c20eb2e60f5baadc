-- ===== src/Filter/Laws.antt =====
-- The filter of genres in the code and in the queries.
use peanut_butter.Text.{Text}
