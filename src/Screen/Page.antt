-- ===== src/Screen/Page.antt =====
-- `lay_out` of tools/screenshot.py shows the end of a page that never scrolls.
use koti.Base.{
  ℕ, ◌+◌, ◌<◌, ◌≡◌, refl, arith, some, true, false, ◌==◌, ltb, leb, ◌&&◌, ◌>>=◌, List, [], ◌∷◌,
  ◌++◌, length, length-replicate, All, All-replicate, Bool-cases, inl, inr,
}
use koti.Base.Text.{Text}
use koti.Screen.Layout.{cols, rows, blank, Screen, scroll, step, type_out, empty_screen, lay_out}
use koti.Screen.Window.{grow, IsWindow, length-blank, settle-IsWindow, put_cell-IsWindow}

-- One round on the page and on the screen, with the window that shows the one through the other.
abbrev Steps : Screen → Screen → ℕ → Type 0
Steps page s c =
    (page' : Screen) × (s' : Screen) × (top' : List (List ℕ)) × (step grow page c ≡ some page')
    × (step scroll s c ≡ some s')
    × IsWindow top' page' s'

-- A round with a character that is printed.
print-IsWindow :
    (top : List (List ℕ)) (page s : Screen) (c : ℕ)
    → IsWindow top page s
    → (c == 10) ≡ false
    → (c == 13) ≡ false
    → leb 32 c && ltb c 128 ≡ true
    → Steps page s c
unfolding step
print-IsWindow top page s c w other not_home printable =
    let screen = w.is_screen in
    let (buf, put_s, put_page, height, widths) = put_cell-IsWindow top page s c w in
    elim (Bool-cases (s.x + 1 == cols)) [
      | inl wrap ↦
          let page_wrap : (page.x + 1 == cols) ≡ true = rw w.x_eq wrap in
          let page1 : Screen = record { buf = top ++ buf; x = 0; y = page.y + 1 } in
          let s1 : Screen = record { buf = buf; x = 0; y = s.y + 1 } in
          let (top', w') =
            settle-IsWindow top page1 s1 height widths (omega arith)
              (omega (arith, screen.y_inside)) refl refl (omega (arith, w.y_eq)) in
          (
            grow page1,
            scroll s1,
            top',
            rw (other, step, not_home, printable, put_page, ◌>>=◌, page_wrap) refl,
            rw (other, step, not_home, printable, put_s, ◌>>=◌, wrap) refl,
            w',
          )
      | inr stay ↦
          let page_stay : (page.x + 1 == cols) ≡ false = rw w.x_eq stay in
          let page1 : Screen = record { buf = top ++ buf; x = page.x + 1; y = page.y } in
          let s1 : Screen = record { buf = buf; x = s.x + 1; y = s.y } in
          let x_in : s.x + 1 < cols = (let below = screen.x_inside in ground arith) in
          let (top', w') =
            settle-IsWindow top page1 s1 height widths x_in (omega (arith, screen.y_inside)) refl
              (omega (arith, w.x_eq)) w.y_eq in
          (
            grow page1,
            scroll s1,
            top',
            rw (other, step, not_home, printable, put_page, ◌>>=◌, page_stay) refl,
            rw (other, step, not_home, printable, put_s, ◌>>=◌, stay) refl,
            w',
          )
    ]

-- The two stay so in each round.
step-IsWindow :
    (top : List (List ℕ)) (page s : Screen) (c : ℕ) → IsWindow top page s → Steps page s c
unfolding step
step-IsWindow top page s c w =
    let screen = w.is_screen in
    elim (Bool-cases (c == 10)) [
      | inl newline ↦
          let page1 : Screen = record page { x = 0; y = page.y + 1 } in
          let s1 : Screen = record s { x = 0; y = s.y + 1 } in
          let (top', w') =
            settle-IsWindow top page1 s1 screen.height screen.widths (omega arith)
              (omega (arith, screen.y_inside)) w.buf_eq refl (omega (arith, w.y_eq)) in
          (grow page1, scroll s1, top', rw (newline, step) refl, rw (newline, step) refl, w')
      | inr other ↦ elim (Bool-cases (c == 13)) [
        | inl home ↦
            let page1 : Screen = record page { x = 0 } in
            let s1 : Screen = record s { x = 0 } in
            let (top', w') =
              settle-IsWindow top page1 s1 screen.height screen.widths (omega arith)
                (omega (arith, screen.y_inside)) w.buf_eq refl w.y_eq in
            (
              grow page1,
              scroll s1,
              top',
              rw (other, step, home) refl,
              rw (other, step, home) refl,
              w',
            )
        | inr not_home ↦ elim (Bool-cases (leb 32 c && ltb c 128)) [
          | inr control ↦ (
            page,
            s,
            top,
            rw (other, step, not_home, control) refl,
            rw (other, step, not_home, control) refl,
            w,
          )
          | inl printable ↦ print-IsWindow top page s c w other not_home printable
        ]
      ]
    ]

type_out-IsWindow :
    (top : List (List ℕ)) (page s : Screen) (text : Text)
    → IsWindow top page s
    → (page' : Screen) × (s' : Screen) × (top' : List (List ℕ)) × (type_out grow page text
        ≡ some page')
      × (type_out scroll s text ≡ some s')
      × IsWindow top' page' s'
unfolding type_out
type_out-IsWindow top page s [] w = (page, s, top, refl, refl, w)
type_out-IsWindow top page s (c ∷ text) w =
    let (page1, s1, top1, page_step, s_step, w1) = step-IsWindow top page s c w in
    let (page2, s2, top2, page_rest, s_rest, w2) = type_out-IsWindow top1 page1 s1 text w1 in
    (page2, s2, top2, rw (page_step, type_out) page_rest, rw (s_step, type_out) s_rest, w2)

empty_screen-IsWindow : IsWindow [] empty_screen empty_screen
unfolding empty_screen
empty_screen-IsWindow = record {
  is_screen = record {
    height = length-replicate rows blank;
    widths = All-replicate (λ (row : List ℕ). length row ≡ cols) rows blank length-blank;
    x_inside = omega arith;
    y_inside = omega arith;
  };
  buf_eq = refl;
  x_eq = refl;
  y_eq = refl;
}

-- For every text `lay_out` returns, without an IndexError, a screen of 60 rows of 80 cells. The screen
-- is the last 60 rows of the page that the same text fills when, instead of scrolling, each row that
-- the cursor enters is added at the end.
pub lay_out_lem :
    (text : Text)
    → (buf : List (List ℕ)) × (page : Screen) × (top : List (List ℕ)) × (lay_out text ≡ some buf)
      × (type_out grow empty_screen text ≡ some page)
      × (page.buf ≡ top ++ buf)
      × (length buf ≡ rows)
      × All (λ (row : List ℕ). length row ≡ cols) buf
unfolding lay_out
lay_out_lem text =
    let (page, s, top, page_done, s_done, w) =
      type_out-IsWindow [] empty_screen empty_screen text empty_screen-IsWindow in
    (
      s.buf,
      page,
      top,
      rw (s_done, ◌>>=◌) refl,
      page_done,
      w.buf_eq,
      w.is_screen.height,
      w.is_screen.widths,
    )
