-- ===== src/Screen/Window.antt =====
-- The screen of tools/screenshot.py against a page that never scrolls.
use koti.Base.{
  ℕ, suc, ◌+◌, ◌<◌, ◌≤◌, ◌≡◌, refl, sym, ap, ◌∙◌, arith, some, true, false, ◌==◌, ◌>>=◌, List, [],
  ◌∷◌, ◌++◌, length, get_elem?, get_elem?_lt, set, drop, length-append, length-set,
  length-replicate, All, All-append, All-set, All-get_elem?, append_assoc, take, length-take,
  length-drop, append-take-drop, All-drop, Bool-cases, inl, inr,
}
use koti.Screen.Layout.{cols, rows, blank, Screen, scroll, put_cell}

-- The page grows by a blank row where the screen scrolls.
unfoldable pub grow : Screen → Screen
grow s = elim (s.y == length s.buf) [
  | true ↦ record { buf = s.buf ++ (blank ∷ []); x = s.x; y = s.y }
  | false ↦ s
]

-- 60 rows of 80 cells, with the cursor inside.
pub record IsScreen (s : Screen) : Type 0 where
  pub height : length s.buf ≡ rows
  pub widths : All (λ (row : List ℕ). length row ≡ cols) s.buf
  pub x_inside : s.x < cols
  pub y_inside : s.y < rows

-- The screen is what the page shows below the rows `top`.
pub record IsWindow (top : List (List ℕ)) (page s : Screen) : Type 0 where
  pub is_screen : IsScreen s
  pub buf_eq : page.buf ≡ top ++ s.buf
  pub x_eq : page.x ≡ s.x
  pub y_eq : page.y ≡ length top + s.y

pub length-blank : length blank ≡ cols
unfolding blank
length-blank = let space : ℕ = 32 in length-replicate cols space

get_elem?-append :
    {A : Type 0} (xs ys : List A) (i : ℕ) → get_elem? (xs ++ ys) (length xs + i) ≡ get_elem? ys i
get_elem?-append [] ys i = let e : 0 + i ≡ i = omega arith in ap (get_elem? ys) e
get_elem?-append (x ∷ xs) ys i =
    let e : suc (length xs) + i ≡ suc (length xs + i) = omega arith in
    ap (get_elem? (x ∷ (xs ++ ys))) e ∙ get_elem?-append xs ys i

set-append :
    {A : Type 0} (xs ys : List A) (i : ℕ) (v : A)
    → set (xs ++ ys) (length xs + i) v ≡ xs ++ set ys i v
set-append [] ys i v = let e : 0 + i ≡ i = omega arith in ap (λ (k : ℕ). set ys k v) e
set-append (x ∷ xs) ys i v =
    let e : suc (length xs) + i ≡ suc (length xs + i) = omega arith in
    ap (λ (k : ℕ). set (x ∷ (xs ++ ys)) k v) e ∙ ap (λ t. x ∷ t) (set-append xs ys i v)

-- The end of a round: the cursor may stand one row below the screen.
pub settle-IsWindow :
    (top : List (List ℕ)) (page s : Screen)
    → length s.buf ≡ rows
    → All (λ (row : List ℕ). length row ≡ cols) s.buf
    → s.x < cols
    → s.y ≤ rows
    → page.buf ≡ top ++ s.buf
    → page.x ≡ s.x
    → page.y ≡ length top + s.y
    → (top' : List (List ℕ)) × IsWindow top' (grow page) (scroll s)
unfolding grow scroll
settle-IsWindow top page s height widths x_in y_in buf_eq x_eq y_eq =
    elim (Bool-cases (s.y == rows)) [
      | inr inside ↦
          let y_low : s.y < rows = ground arith in
          let total : length page.buf ≡ length top + rows =
            ap length buf_eq ∙ length-append top s.buf ∙ ap (λ (k : ℕ). length top + k) height in
          let page_inside : (page.y == length page.buf) ≡ false = ground arith in
          let grown : grow page ≡ page = rw (page_inside, grow) refl in
          let scrolled : scroll s ≡ s = rw (inside, scroll) refl in
          (
            top,
            rw (grown, scrolled)
                (record {
                  is_screen = record {
                    height = height;
                    widths = widths;
                    x_inside = x_in;
                    y_inside = y_low;
                  };
                  buf_eq = buf_eq;
                  x_eq = x_eq;
                  y_eq = y_eq;
                }),
          )
      | inl below ↦
          let y_end : s.y ≡ rows = ground arith in
          let total : length page.buf ≡ length top + rows =
            ap length buf_eq ∙ length-append top s.buf ∙ ap (λ (k : ℕ). length top + k) height in
          let page_below : (page.y == length page.buf) ≡ true = ground arith in
          let grown : grow page
              ≡ record { buf = page.buf ++ (blank ∷ []); x = page.x; y = page.y } =
            rw (page_below, grow) refl in
          let scrolled : scroll s ≡ record { buf = drop 1 s.buf ++ (blank ∷ []); x = s.x; y = 59 } =
            rw (below, scroll) refl in
          let first = take 1 s.buf in
          let others = drop 1 s.buf in
          let one : length first ≡ 1 = omega (arith, length-take 1 s.buf, height) in
          let fewer : length others ≡ 59 = omega (arith, length-drop 1 s.buf, height) in
          (
            top ++ first,
            rw (grown, scrolled)
                (record {
                  is_screen = record {
                    height = omega (arith, length-append others (blank ∷ []), fewer);
                    widths =
                        All-append (λ (row : List ℕ). length row ≡ cols) others (blank ∷ [])
                          (All-drop (λ (row : List ℕ). length row ≡ cols) 1 s.buf widths)
                          (length-blank, tt);
                    x_inside = x_in;
                    y_inside = omega arith;
                  };
                  buf_eq =
                      ap (λ (l : List (List ℕ)). l ++ (blank ∷ []))
                        (buf_eq
                          ∙ ap (λ (l : List (List ℕ)). top ++ l) (sym (append-take-drop 1 s.buf))
                          ∙ sym (append_assoc top first others))
                      ∙ append_assoc (top ++ first) others (blank ∷ []);
                  x_eq = x_eq;
                  y_eq = omega (arith, length-append top first);
                }),
          )
    ]

-- A cell of the screen is the same cell of the page.
pub put_cell-IsWindow :
    (top : List (List ℕ)) (page s : Screen) (c : ℕ)
    → IsWindow top page s
    → (buf : List (List ℕ)) × (put_cell s.buf s.x s.y c ≡ some buf)
      × (put_cell page.buf page.x page.y c ≡ some (top ++ buf))
      × (length buf ≡ rows)
      × All (λ (row : List ℕ). length row ≡ cols) buf
unfolding put_cell
put_cell-IsWindow top page s c w =
    let screen = w.is_screen in
    let (row, at_y) = get_elem?_lt s.buf s.y (omega (arith, screen.height, screen.y_inside)) in
    let width : length row ≡ cols =
      All-get_elem? (λ (r : List ℕ). length r ≡ cols) s.buf s.y screen.widths at_y in
    let (old, at_x) = get_elem?_lt row s.x (omega (arith, screen.x_inside)) in
    let new = set row s.x c in
    let page_y : get_elem? page.buf page.y ≡ some row =
      ap (λ (l : List (List ℕ)). get_elem? l page.y) w.buf_eq
      ∙ ap (get_elem? (top ++ s.buf)) w.y_eq
      ∙ get_elem?-append top s.buf s.y
      ∙ at_y in
    let page_new : set page.buf page.y new ≡ top ++ set s.buf s.y new =
      ap (λ (l : List (List ℕ)). set l page.y new) w.buf_eq
      ∙ ap (λ (k : ℕ). set (top ++ s.buf) k new) w.y_eq
      ∙ set-append top s.buf s.y new in
    (
      set s.buf s.y new,
      rw (at_y, put_cell, ◌>>=◌, at_x) refl,
      rw (page_y, put_cell, ◌>>=◌, w.x_eq, at_x) (ap some page_new),
      length-set s.buf s.y new ∙ screen.height,
      All-set (λ (r : List ℕ). length r ≡ cols) s.buf s.y new screen.widths
          (length-set row s.x c ∙ width),
    )
