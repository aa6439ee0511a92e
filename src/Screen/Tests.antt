-- ===== src/Screen/Tests.antt =====
-- The theorem on the screen at a text that wraps, homes and moves down.
use koti.Base.{ℕ, ◌≡◌, some, List, ◌∷◌, ◌++◌, length, All, replicate}
use koti.Base.Text.{Text, codes}
use koti.Screen.Layout.{rows, cols, Screen, type_out, empty_screen, lay_out}
use koti.Screen.Window.{grow}
use koti.Screen.Page.{lay_out_lem}

abbrev log : Text
log = codes "koti" ++ (13 ∷ (10 ∷ (codes "login: " ++ replicate 81 65)))

lay_out_lem_example :
    (buf : List (List ℕ)) × (page : Screen) × (top : List (List ℕ)) × (lay_out log ≡ some buf)
    × (type_out grow empty_screen log ≡ some page)
    × (page.buf ≡ top ++ buf)
    × (length buf ≡ rows)
    × All (λ (row : List ℕ). length row ≡ cols) buf
lay_out_lem_example = lay_out_lem log
