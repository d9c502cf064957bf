-- ===== src/ClientApp/ListScreens.antt =====
-- The lists that src/client/ui.c draws: ui_draw_home_conversations, ui_draw_friends_list,
-- ui_draw_requests, ui_draw_group_members and ui_draw_create_group_form, without their boxes, headings
-- and help.
pub mod Enter
use mo_t.Base.{
  Option, none, some, ◌>>=◌, ℕ, zero, suc, ◌+◌, ◌-◌, ◌^◌, ◌<◌, ◌≡◌, refl, ap, ◌∙◌, Bool, true,
  false, ◌&&◌, not, List, [], ◌∷◌, ◌++◌, Text, snprintf, codes, select, get_elem?, ltb, ◌==◌,
  if◌then◌else◌, Yields, arith,
}
use mo_t.Base.Int.{pos, negsuc}
use mo_t.Config.Number.{print_int}
use mo_t.Storage.Contacts.{ContactSummary}
use mo_t.Storage.Conversations.{ConversationSummary, GroupMemberSummary}

-- A mvwprintw of the loop. `selected` is the colour of the selection, `alert` that of unread messages.
pub record Row : Type 0 where
  pub row : ℕ
  pub col : ℕ
  pub text : Text
  pub selected : Bool
  pub alert : Bool

-- The loop over a list from an index on.
unfoldable pub draw_rows {ℓ} : {A : Type ℓ} → (ℕ → Bool → A → Row) → ℕ → ℕ → List A → List Row
draw_rows draw selection_idx i [] = []
draw_rows draw selection_idx i (x ∷ xs) =
    draw i (i == selection_idx) x ∷ draw_rows draw selection_idx (suc i) xs

-- "> " or "  ".
abbrev cursor : Bool → Text
cursor selected = if selected then 62 ∷ 32 ∷ [] else 32 ∷ 32 ∷ []

-- %d of a uint32_t.
unfoldable pub print_signed : ℕ → Text
print_signed n = print_int (if ltb n (2 ^ 31) then pos n else negsuc (2 ^ 32 - 1 - n))

-- "%c %s (%d)" or "%c %s", in 128 bytes.
unfoldable pub conversation_label : ConversationSummary → Text
conversation_label c =
    let title = (if c.kind == 1 then 35 else 64) ∷ 32 ∷ c.name in
    snprintf 128 (
      if ltb 0 c.unread_count
      then title ++ (32 ∷ 40 ∷ print_signed c.unread_count ++ 41 ∷ [])
      else title)

unfoldable pub conversation_row : ℕ → Bool → ConversationSummary → Row
conversation_row i selected c = record {
  row = 3 + i;
  col = 4;
  text = cursor selected ++ (conversation_label c ++ 32 ∷ []);
  selected = selected;
  alert = not selected && ltb 0 c.unread_count;
}

unfoldable pub ui_draw_home_conversations : List ConversationSummary → ℕ → List Row
ui_draw_home_conversations convs selection_idx = draw_rows conversation_row selection_idx 0 convs

unfoldable pub contact_row : ℕ → Bool → ContactSummary → Row
contact_row i selected c = record {
  row = 3 + i;
  col = 4;
  text = cursor selected ++ (c.username ++ 32 ∷ []);
  selected = selected;
  alert = false;
}

unfoldable pub ui_draw_friends_list : List ContactSummary → ℕ → List Row
ui_draw_friends_list contacts selection_idx = draw_rows contact_row selection_idx 0 contacts

unfoldable pub ui_draw_requests : List ContactSummary → ℕ → List Row
ui_draw_requests requests selection_idx = draw_rows contact_row selection_idx 0 requests

-- "%s %s" in 64 bytes.
unfoldable pub member_row : ℕ → Bool → GroupMemberSummary → Row
member_row i selected m = record {
  row = 3 + i;
  col = 4;
  text =
      cursor selected
      ++ (snprintf 64 (m.username ++ 32 ∷ (if m.role == 1 then codes "[ADMIN]" else []))
          ++ 32 ∷ []);
  selected = selected;
  alert = false;
}

unfoldable pub ui_draw_group_members : List GroupMemberSummary → ℕ → List Row
ui_draw_group_members members selection_idx = draw_rows member_row selection_idx 0 members

-- "> %s %s" with the mark of the contact in selected_indices, an array of 100. `none` is a read past it.
unfoldable pub ui_draw_create_group_form :
    List Bool → List ContactSummary → ℕ → ℕ → Option (List Row)
ui_draw_create_group_form flags [] selection_idx i = some []
ui_draw_create_group_form [] (c ∷ cs) selection_idx i = none
ui_draw_create_group_form (flag ∷ flags) (c ∷ cs) selection_idx i = do
  rows ← ui_draw_create_group_form flags cs selection_idx (suc i)
  some (
      record {
        row = 8 + i;
        col = 6;
        text =
            cursor (i == selection_idx)
            ++ ((if flag then codes "[x] " else codes "[ ] ") ++ c.username);
        selected = i == selection_idx;
        alert = false;
      }
      ∷ rows)

-- The highlighted rows of a list.
abbrev pub highlighted : List Row → List Row
highlighted rows = select (λ r. r.selected) rows

highlighted-row :
    (b : Bool) (r : Row) (rows : List Row)
    → r.selected ≡ b
    → highlighted (r ∷ rows) ≡ (if b then r ∷ highlighted rows else highlighted rows)
highlighted-row b r rows e =
    ap (λ (c : Bool). if c then r ∷ highlighted rows else highlighted rows) e

module _ {ℓ} {A : Type ℓ} (draw : ℕ → Bool → A → Row)
    (shows : (j : ℕ) (b : Bool) (y : A) → (draw j b y).selected ≡ b) (sel : ℕ) where
  draw_rows-passed : (xs : List A) (i : ℕ) → sel < i → highlighted (draw_rows draw sel i xs) ≡ []
  unfolding draw_rows
  draw_rows-passed [] i h = refl
  draw_rows-passed (x ∷ xs) i h =
      let other : (i == sel) ≡ false = ground arith in
      rw (other, draw_rows)
        (highlighted-row false (draw i false x) (draw_rows draw sel (suc i) xs) (shows i false x)
          ∙ draw_rows-passed xs (suc i) (omega arith))

  -- The highlighted row of a list is that of the selected element.
  pub draw_rows-highlighted :
      (xs : List A) (k i : ℕ) (x : A)
      → sel ≡ i + k
      → get_elem? xs k ≡ some x
      → highlighted (draw_rows draw sel i xs) ≡ draw sel true x ∷ []
  unfolding draw_rows
  draw_rows-highlighted [] k i x at e = cc
  draw_rows-highlighted (y ∷ xs) zero i x at e =
      let here : (i == sel) ≡ true = ground arith in
      let same : y ≡ x = cc e in
      let row : i ≡ sel = omega arith in
      rw (here, draw_rows)
        (highlighted-row true (draw i true y) (draw_rows draw sel (suc i) xs) (shows i true y)
          ∙ ap (◌∷◌ (draw i true y)) (draw_rows-passed xs (suc i) (omega arith))
          ∙ ap (λ r. r ∷ []) (ap (λ (j : ℕ). draw j true y) row ∙ ap (draw sel true) same))
  draw_rows-highlighted (y ∷ xs) (suc k) i x at e =
      let other : (i == sel) ≡ false = ground arith in
      rw (other, draw_rows)
        (highlighted-row false (draw i false y) (draw_rows draw sel (suc i) xs) (shows i false y)
          ∙ draw_rows-highlighted xs k (suc i) x (omega arith) e)
