-- ===== src/ClientApp/ChatScreen.antt =====
-- ui_draw_chat of src/client/ui.c: the title, the lines of the history and the line of the input, in a
-- window of some height and width. The box, the colours and the help are left out.
use mo_t.Base.{
  ℕ, zero, suc, ◌+◌, ◌-◌, ◌≤◌, ◌<◌, ◌≡◌, ◌≢◌, refl, ap, Bool, false, Option, none, some, List, [],
  ◌∷◌, ◌++◌, map, Text, snprintf, text_eq, codes, All, length, length-append, length-take, take,
  take-all, ltb, leb, ◌==◌, if◌then◌else◌, if_cases, ◌>>=◌, Yields, arith,
}
use mo_t.Config.{split_at, skip_byte, strtok}

pub record ChatScreen : Type 0 where
  pub title : Text
  -- The lines, from row 3 on; the mark is the colour of the own ones.
  pub lines : List (Bool × Text)
  pub input : Text

-- The title leaves 30 columns. `none` is a write in front of the array: max_title_len - 3 is negative.
unfoldable pub cut_title : ℕ → Text → Option Text
cut_title width title =
    if leb (length title + 30) width
    then some title
    else if ltb width 33
    then none
    else some (take (width - 33) title ++ codes "...")

-- strncmp(line, "Me:", 3) == 0.
unfoldable pub mark_line : Text → Bool × Text
mark_line line = (text_eq (take 3 line) (codes "Me:"), line)

-- The loop over the tokens, for some rows.
unfoldable pub history_lines : ℕ → Text → List Text
history_lines zero hist = []
history_lines (suc rows) hist = elim (strtok 10 hist) [
  | none ↦ []
  | some (line, rest) ↦ line ∷ history_lines rows rest
]

unfoldable pub ui_draw_chat : ℕ → ℕ → Text → Text → Text → Option ChatScreen
ui_draw_chat height width name hist input = do
  title ← cut_title width (snprintf 64 (32 ∷ name ++ 32 ∷ []))
  some (record {
    title = title;
    lines = map mark_line (history_lines (height - 6) (take 16383 hist));
    input = input;
  })

pub cut_title_lem :
    (width : ℕ) (title : Text)
    → 33 ≤ width
    → Yields (λ t. length t + 30 ≤ width) (cut_title width title)
unfolding cut_title
cut_title_lem width title wide =
    if_cases (Yields (λ (t : Text). length t + 30 ≤ width)) (leb (length title + 30) width) _ _
      (λ e. (title, refl, ground arith))
      (λ e.
        let room : ltb width 33 ≡ false = ground arith in
        rw room (
          _,
          refl,
          omega (
            arith,
            length-append (take (width - 33) title) (codes "..."),
            length-take (width - 33) title,
          ),
        ))

-- A line of the history: not empty, and without a line feed.
abbrev pub IsLine : Text → Type 0
IsLine line = (0 < length line) × All (λ c. c ≢ 10) line

abbrev pub joined : List Text → Text
joined [] = []
joined (line ∷ lines) = line ++ 10 ∷ joined lines

split_at-line :
    (line rest : Text) → All (λ c. c ≢ 10) line → split_at 10 (line ++ 10 ∷ rest) ≡ (line, rest)
unfolding split_at
split_at-line [] rest h = refl
split_at-line (c ∷ line) rest h =
    let other : (c == 10) ≡ false = ground (arith, h.0) in
    rw (other, split_at, split_at-line line rest h.1) refl

strtok-line : (line rest : Text) → IsLine line → strtok 10 (line ++ 10 ∷ rest) ≡ some (line, rest)
unfolding strtok skip_byte
strtok-line [] rest (n, h) = absurd (omega arith)
strtok-line (c ∷ line) rest (n, h) =
    let other : (c == 10) ≡ false = ground (arith, h.0) in
    rw (other, skip_byte, strtok) (ap some (split_at-line (c ∷ line) rest h))

history_lines-joined :
    (rows : ℕ) (lines : List Text)
    → All IsLine lines
    → history_lines rows (joined lines) ≡ take rows lines
unfolding history_lines strtok skip_byte
history_lines-joined zero lines h = refl
history_lines-joined (suc rows) [] h = refl
history_lines-joined (suc rows) (line ∷ lines) h =
    rw (strtok-line line (joined lines) h.0, history_lines-joined rows lines h.1, history_lines)
      refl

-- In a window of at least 33 columns, for a history of lines that are not empty and have no line
-- feed, each ended by one, of at most 16383 bytes in all: ui_draw_chat writes nothing outside of
-- its arrays, its title leaves 30 columns free, it shows the first lines of the history, six less
-- than the window has rows, each marked if it begins with Me:, and it shows the line that is
-- typed.
pub ui_draw_chat-joined :
    (height width : ℕ) (name input : Text) (lines : List Text)
    → 33 ≤ width
    → All IsLine lines
    → length (joined lines) ≤ 16383
    → Yields
        (λ screen.
          (length screen.title + 30 ≤ width)
          × (screen.lines ≡ map mark_line (take (height - 6) lines))
          × (screen.input ≡ input))
        (ui_draw_chat height width name (joined lines) input)
unfolding ui_draw_chat
ui_draw_chat-joined height width name input lines wide h short =
    let (t, e, fits) = cut_title_lem width (snprintf 64 (32 ∷ name ++ 32 ∷ [])) wide in
    rw (e, take-all 16383 (joined lines) short)
      (_, refl, (fits, ap (map mark_line) (history_lines-joined (height - 6) lines h), refl))
