-- ===== src/Wire/Complete/Fits.antt =====
-- How long the frame is that `bytes` lays out: hive/internal/gateway/wire.go, 361-389. The check of
-- `update` leaves out the number of cells and the two dimensions, three numbers of nine bytes at most.
use herdr_hive.Base.{
  ℕ, ◌+◌, ◌≤◌, ◌≡◌, refl, some, List, [], ◌∷◌, ◌++◌, Bytes, length, length-append, length-put_le,
  arith,
}
use herdr_hive.Wire.Encode.{max_frame, number}
use herdr_hive.Wire.Complete.{CompleteSurface, cells_length, retained}
use herdr_hive.Wire.Complete.Update.{join, layout, bytes}

length-number-le : (v : ℕ) → length (number v) ≤ 9
unfolding number
length-number-le v = ground (arith, length-put_le 2 v, length-put_le 4 v, length-put_le 8 v)

length-join : (cells : List Bytes) → length (join cells) ≡ cells_length cells
unfolding join cells_length
length-join [] = refl
length-join (c ∷ cs) = omega (arith, length-append c (join cs), length-join cs)

-- `bytes` lays out a frame that exceeds the limit of a frame by 27 bytes at most.
pub record IsFramed (s : CompleteSurface) : Type 0 where
  pub laid_out : Bytes
  pub is_bytes : bytes s ≡ some laid_out
  pub length_bounded : length laid_out ≤ max_frame + 27

pub retained-IsFramed :
    (s : CompleteSurface) (h : Bytes) → s.header ≡ some h → retained s ≤ max_frame → IsFramed s
unfolding bytes layout retained
retained-IsFramed s h e k = record {
  laid_out = h ++ (n ++ (join s.cells ++ (w ++ (t ++ (s.cursor_bytes ++ s.tail)))));
  is_bytes = rw e refl;
  length_bounded = omega (
    arith,
    rw e at k,
    length-append h (n ++ (join s.cells ++ (w ++ (t ++ (s.cursor_bytes ++ s.tail))))),
    length-append n (join s.cells ++ (w ++ (t ++ (s.cursor_bytes ++ s.tail)))),
    length-append (join s.cells) (w ++ (t ++ (s.cursor_bytes ++ s.tail))),
    length-append w (t ++ (s.cursor_bytes ++ s.tail)),
    length-append t (s.cursor_bytes ++ s.tail),
    length-append s.cursor_bytes s.tail,
    length-join s.cells,
    length-number-le (length s.cells),
    length-number-le s.width,
    length-number-le s.height,
  );
}
  where
    n : Bytes
    n = number (length s.cells)

    w : Bytes
    w = number s.width

    t : Bytes
    t = number s.height
