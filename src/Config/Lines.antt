-- ===== src/Config/Lines.antt =====
-- The loop of fgets(line, 1024, f) in src/common/config_loader.c.
use mo_t.Base.{
  ℕ, ◌-◌, ◌<◌, ◌≡◌, ◌≢◌, refl, ◌||◌, List, [], ◌∷◌, ◌++◌, ◌==◌, if◌then◌else◌, arith, All, length,
  append_assoc,
}

-- `room` is how many bytes the line still takes, `line` what it holds.
unfoldable pub lines_from : ℕ → List ℕ → List ℕ → List (List ℕ)
lines_from room [] [] = []
lines_from room (c ∷ line) [] = (c ∷ line) ∷ []
lines_from room line (b ∷ bytes) =
    let full = b == b'\n' || room == 1 in
    let line' = line ++ b ∷ [] in
    let lines = lines_from (if full then 1023 else room - 1) (if full then [] else line') bytes in
    if full then line' ∷ lines else lines

unfoldable pub fgets_lines : List ℕ → List (List ℕ)
fgets_lines file = lines_from 1023 [] file

lines_from_line :
    (bytes : List ℕ) (room : ℕ) (line rest : List ℕ)
    → All (λ b. b ≢ b'\n') bytes
    → length bytes < room
    → lines_from room line (bytes ++ b'\n' ∷ rest)
      ≡ (line ++ (bytes ++ b'\n' ∷ [])) ∷ lines_from 1023 [] rest
unfolding lines_from
lines_from_line [] room [] rest h fits = refl
lines_from_line [] room (c ∷ line) rest h fits = refl
lines_from_line (b ∷ bytes) room [] rest h fits =
    ground (arith, lines_from_line bytes (room - 1) (b ∷ []) rest h.1)
lines_from_line (b ∷ bytes) room (c ∷ line) rest h fits = ground (
  arith,
  lines_from_line bytes (room - 1) ((c ∷ line) ++ b ∷ []) rest h.1,
  append_assoc line (b ∷ []) (bytes ++ b'\n' ∷ []),
)

-- A line that fits is read up to its newline.
pub fgets_lines-append :
    (bytes rest : List ℕ)
    → All (λ b. b ≢ b'\n') bytes
    → length bytes < 1023
    → fgets_lines (bytes ++ b'\n' ∷ rest) ≡ (bytes ++ b'\n' ∷ []) ∷ fgets_lines rest
unfolding fgets_lines
fgets_lines-append bytes rest h fits = lines_from_line bytes 1023 [] rest h fits

pub fgets_lines-nil : fgets_lines [] ≡ []
unfolding fgets_lines lines_from
fgets_lines-nil = refl
