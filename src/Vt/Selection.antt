-- ===== src/Vt/Selection.antt =====
-- crates/forgetty-vt/src/selection.rs: which cells of the grid a selection has. The extraction of the
-- text is not modelled.
use forgetty.Base.{ℕ, ◌≡◌, Bool, ◌&&◌, ◌||◌, arith, min, max, ltb, leb, ◌==◌, if◌then◌else◌}

pub data SelectionMode : Type 0 where
  normal block line word : SelectionMode

-- A cell of the grid: its row and its column.
abbrev pub Cell : Type 0
Cell = ℕ × ℕ

pub record Selection : Type 0 where
  pub start : Cell
  pub end : Cell
  pub mode : SelectionMode

unfoldable pub new : ℕ → ℕ → SelectionMode → Selection
new row col mode = record { start = (row, col); end = (row, col); mode = mode }

unfoldable pub update : ℕ → ℕ → Selection → Selection
update row col s = record s { end = (row, col) }

unfoldable ordered : Selection → Cell × Cell
ordered s =
    if ltb s.start.0 s.end.0 || ((s.start.0 == s.end.0) && leb s.start.1 s.end.1)
    then (s.start, s.end)
    else (s.end, s.start)

-- The branches of the normal and the word mode.
unfoldable linear : ℕ → ℕ → ℕ → ℕ → ℕ → ℕ → Bool
linear sr sc er ec row col =
    if sr == er
    then (row == sr) && leb sc col && leb col ec
    else (if row == sr
        then leb sc col
        else (if row == er then leb col ec else ltb sr row && ltb row er))

unfoldable contains_between : SelectionMode → Cell → Cell → ℕ → ℕ → Bool
unfolding linear
contains_between normal (sr, sc) (er, ec) row col = linear sr sc er ec row col
contains_between word (sr, sc) (er, ec) row col = linear sr sc er ec row col
contains_between block (sr, sc) (er, ec) row col =
    leb sr row && leb row er && leb (min sc ec) col && leb col (max sc ec)
contains_between line (sr, sc) (er, ec) row col = leb sr row && leb row er

unfoldable pub contains : ℕ → ℕ → Selection → Bool
unfolding ordered contains_between
contains row col s = contains_between s.mode (ordered s).0 (ordered s).1 row col

unfoldable pub is_empty : Selection → Bool
is_empty s = (s.start.0 == s.end.0) && (s.start.1 == s.end.1)

-- A number stands between two others, whichever is the larger.
abbrev pub between : ℕ → ℕ → ℕ → Bool
between a b n = (leb a n && leb n b) || (leb b n && leb n a)

-- The reading order of the cells.
abbrev pub is_before : Cell → Cell → Bool
is_before (r, c) (row, col) = ltb r row || ((r == row) && leb c col)

-- The cells that a drag from one cell to another covers.
abbrev pub covers : SelectionMode → Cell → Cell → Cell → Bool
covers normal from to cell =
    (is_before from cell && is_before cell to) || (is_before to cell && is_before cell from)
covers word from to cell =
    (is_before from cell && is_before cell to) || (is_before to cell && is_before cell from)
covers block from to cell = between from.0 to.0 cell.0 && between from.1 to.1 cell.1
covers line from to cell = between from.0 to.0 cell.0

-- A selection that is dragged from one cell to another contains, in the normal and the word mode, the
-- cells between them in reading order, in the block mode the cells whose row and column are between
-- theirs, and in the line mode those whose row is, whichever way it was dragged and whatever cells
-- the drag went through.
pub contains-update :
    (mode : SelectionMode) (r c via_r via_c r' c' row col : ℕ)
    → contains row col (update r' c' (update via_r via_c (new r c mode)))
      ≡ covers mode (r, c) (r', c') (row, col)
unfolding contains update new
contains-update normal r c via_r via_c r' c' row col = ground arith
contains-update block r c via_r via_c r' c' row col = ground arith
contains-update line r c via_r via_c r' c' row col = ground arith
contains-update word r c via_r via_c r' c' row col = ground arith
