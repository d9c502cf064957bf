-- ===== src/Server/Guarantees/Protection.antt =====
-- Who can change a conversation through src/server: its row and its participants.
use mo_t.Base.{
  ℕ, ◌≤◌, ◌≡◌, ◌≢◌, refl, ◌∙◌, false, not, none, some, List, select, any, ◌==◌, arith, Holds,
  Holds-map, select-select, select-map, select-snoc, if_cases, Option-cases, inl, inr,
}
use mo_t.Storage.Tables.{Db, ConversationRow}
use mo_t.Storage.Statements.{
  Update, insert_user, update_username, update_password, insert_request, delete_request,
  insert_contacts, insert_conversation, insert_participant, insert_or_ignore_participant,
  update_conversation, delete_participant, delete_messages, delete_participants,
  delete_conversation, insert_message, exec, same_seat, retitle, add_participant,
}
use mo_t.Storage.Conversations.{participants_of, storage_is_admin}
use mo_t.Storage.Path.{DbPath-keeps}
use mo_t.Clients.{Client}
use mo_t.Server.{dispatch}
use mo_t.Server.State.{System, Server}
use mo_t.Server.Authority.{Admin, Permitted, IsPermitted}
use mo_t.Server.Authority.Dispatch.{dispatch-IsPermitted}

abbrev pub row_of : ℕ → Db → List ConversationRow
row_of conv db = select (λ c. c.conv_id == conv) db.conversations

-- A conversation that was made, and has the row and the participants that it had.
pub record Untouched (conv : ℕ) (before after : Db) : Type 0 where
  pub old : conv ≤ after.conversation_seq
  pub same_row : row_of conv after ≡ row_of conv before
  pub same_seats : participants_of conv after ≡ participants_of conv before

module _ (sys : System) (s : Server) (cli : Client) (conv : ℕ) (made : conv ≤ s.db.conversation_seq)
    (no_admin : ¬ Admin sys s cli conv) where
  seat-Untouched :
      (d : Db) (other uid role : ℕ)
      → other ≢ conv
      → Untouched conv s.db d
      → Holds (Untouched conv s.db) (add_participant d other uid role)
  unfolding add_participant
  seat-Untouched d other uid role ne h =
      if_cases (Holds (Untouched conv s.db)) (any (same_seat other uid) d.participants) none _
        (λ e. tt)
        λ e. record {
          old = h.old;
          same_row = h.same_row;
          same_seats =
              select-snoc (λ p. p.conv_id == conv) d.participants _ (ground arith) ∙ h.same_seats;
        }

  not_mine : (other : ℕ) → Admin sys s cli other → other ≢ conv
  not_mine other admin e = no_admin (rw e at admin)

  exec-Untouched :
      (skipped : ℕ) (u : Update) (d : Db)
      → Permitted sys s cli u
      → Untouched conv s.db d
      → Holds (Untouched conv s.db) (exec skipped u d)
  unfolding exec
  exec-Untouched skipped (insert_user name email none code) d ok h = tt
  exec-Untouched skipped (insert_user name email (some hash) code) d ok h = ground arith
  exec-Untouched skipped (update_username name uid) d ok h = ground arith
  exec-Untouched skipped (update_password none uid) d ok h = ground arith
  exec-Untouched skipped (update_password (some hash) uid) d ok h = ground arith
  exec-Untouched skipped (insert_request from to) d ok h = ground arith
  exec-Untouched skipped (delete_request from to) d ok h = ground arith
  exec-Untouched skipped (insert_contacts a b) d ok h = ground arith
  exec-Untouched skipped (insert_conversation kind name desc) d ok h = record {
    old = omega (arith, h.old);
    same_row =
        select-snoc (λ c. c.conv_id == conv) d.conversations _ (ground (arith, h.old)) ∙ h.same_row;
    same_seats = h.same_seats;
  }
  exec-Untouched skipped (insert_participant other uid role) d ok h =
      seat-Untouched d other uid role (omega arith) h
  exec-Untouched skipped (insert_or_ignore_participant other uid role) d ok h =
      elim (Option-cases (add_participant d other uid role)) [
        | inl e ↦ rw (e, exec) h
        | inr (d', e) ↦
            rw (e, exec) (rw e at (seat-Untouched d other uid role (not_mine other ok.0) h))
      ]
  exec-Untouched skipped (update_conversation name desc other) d ok h = record {
    old = h.old;
    same_row =
        select-map (λ c. c.conv_id == conv) (retitle name desc other) d.conversations
          (λ c. ground arith) (λ c e. ground (arith, not_mine other ok))
        ∙ h.same_row;
    same_seats = h.same_seats;
  }
  exec-Untouched skipped (delete_participant other uid) d ok h = record {
    old = h.old;
    same_row = h.same_row;
    same_seats =
        select-select (λ p. p.conv_id == conv) (λ p. not (same_seat other uid p)) d.participants
          (λ p e. ground (arith, not_mine other ok.0))
        ∙ h.same_seats;
  }
  exec-Untouched skipped (delete_messages other) d ok h = ground arith
  exec-Untouched skipped (delete_participants other) d ok h = record {
    old = h.old;
    same_row = h.same_row;
    same_seats =
        select-select (λ p. p.conv_id == conv) (λ p. not (p.conv_id == other)) d.participants
          (λ p e. ground (arith, not_mine other ok))
        ∙ h.same_seats;
  }
  exec-Untouched skipped (delete_conversation other) d ok h = record {
    old = h.old;
    same_row =
        select-select (λ c. c.conv_id == conv) (λ c. not (c.conv_id == other)) d.conversations
          (λ c e. ground (arith, not_mine other ok))
        ∙ h.same_row;
    same_seats = h.same_seats;
  }
  exec-Untouched skipped (insert_message other sender text time) d ok h = ground arith

-- A message of a client that is no admin of an existing conversation, where its handling goes on,
-- leaves the row and the participants of the conversation as they were.
pub dispatch-Untouched :
    (sys : System) (s : Server) (cli : Client) (conv now type_value : ℕ) (payload : List ℕ)
    → conv ≤ s.db.conversation_seq
    → storage_is_admin sys.sqlite conv cli.uid s.db ≡ false
    → Holds (λ s'. Untouched conv s.db s'.db) (dispatch sys now cli type_value payload s)
dispatch-Untouched sys s cli conv now type_value payload made no_admin =
    Holds-map (IsPermitted sys s cli) (λ s'. Untouched conv s.db s'.db)
      (dispatch sys now cli type_value payload s)
      (λ s' path.
        DbPath-keeps (Untouched conv s.db) (exec-Untouched sys s cli conv made (λ admin. cc)) path
          (record { old = made; same_row = refl; same_seats = refl }))
      (dispatch-IsPermitted sys s cli now type_value payload)
