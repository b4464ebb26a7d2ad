-- ===== src/Grid/Examples.antt =====
-- Runs of the first constructor, and the theorems at concrete inputs.
use toolchain_cpp.Common.{All, ◌≡◌, refl, ok, Result, map, List, [], ◌∷◌, ◌>>=◌}
use toolchain_cpp.Common.Int.{ℤ, pos, ◌+ℤ◌}
use toolchain_cpp.Grid.Inside.{IsInside, divide_square-IsInside}
use toolchain_cpp.Grid.Borders.{IsDisjoint, divide-IsDisjoint}
use toolchain_cpp.Grid.{ImageGrid, ImageCell, divide, positive, divided, generated, generate_cells}

abbrev corners : Result ImageGrid → Result (List (ℤ × ℤ))
corners r = r >>= λ g. ok (map (λ (c : ImageCell). (c.x, c.y)) g.cells)

corners-divide :
    corners (divide 5 4 (pos 2) (pos 2))
    ≡ ok ((pos 0, pos 0) ∷ (pos 2, pos 0) ∷ (pos 0, pos 2) ∷ (pos 2, pos 2) ∷ [])
unfolding divide positive generated divided generate_cells ◌+ℤ◌
corners-divide = refl

-- Two columns and three rows are asked for in an image of 4 by 6.
abbrev tall : ImageGrid
tall = generate_cells (divided 4 6 2 3)

abbrev square : ImageGrid
square = generate_cells (divided 5 7 2 2)

tall_lem : divide 4 6 (pos 2) (pos 3) ≡ ok tall
unfolding divide positive generated divided ◌+ℤ◌
tall_lem = refl

square_lem : divide 5 7 (pos 2) (pos 2) ≡ ok square
unfolding divide positive generated divided ◌+ℤ◌
square_lem = refl

divide-IsDisjoint_example : IsDisjoint tall.cells
divide-IsDisjoint_example = divide-IsDisjoint 4 6 (pos 2) (pos 3) tall tall_lem

divide_square-IsInside_example : All (IsInside square) square.cells
divide_square-IsInside_example = divide_square-IsInside 5 7 (pos 2) square square_lem
