-- ===== src/Vt/Tests.antt =====
-- Selections, and the theorem at a concrete one.
use forgetty.Base.{◌≡◌, refl, true, false}
use forgetty.Vt.Selection.{normal, block, new, update, contains, is_empty, covers, contains-update}

-- A drag from row 3, column 4 back to row 1, column 9.
linear_and_block :
    (contains 2 0 (update 1 9 (new 3 4 normal)) ≡ true)
    × (contains 2 0 (update 1 9 (new 3 4 block)) ≡ false)
    × (contains 3 5 (update 1 9 (new 3 4 normal)) ≡ false)
    × (contains 3 5 (update 1 9 (new 3 4 block)) ≡ true)
unfolding contains update new
linear_and_block = (refl, refl, refl, refl)

click_is_empty :
    (is_empty (new 3 4 normal) ≡ true) × (is_empty (update 3 5 (new 3 4 normal)) ≡ false)
unfolding is_empty update new
click_is_empty = (refl, refl)

contains-update_example :
    contains 2 0 (update 1 9 (update 7 7 (new 3 4 normal))) ≡ covers normal (3, 4) (1, 9) (2, 0)
contains-update_example = contains-update normal 3 4 7 7 1 9 2 0
