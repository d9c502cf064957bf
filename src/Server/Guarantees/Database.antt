-- ===== src/Server/Guarantees/Database.antt =====
-- The database under the messages of clients and over every run of the loop of src/server/main.c.
use mo_t.Base.{
  ℕ, ◌≤◌, ◌≡◌, ◌≢◌, true, none, List, [], ◌∷◌, any, ◌==◌, Text, IsText, length, All, arith, Holds,
  Holds-bind, Holds-both, if_both, Option-cases, inl, inr, if_cases, All-append, All-select,
}
use mo_t.Crypto.{Evp, IsEvp, MasterKey, plain, crypto_decrypt}
use mo_t.Crypto.RoundTrip.{crypto_encrypt-long, crypto_decrypt-crypto_encrypt}
use mo_t.Storage.Tables.{Db, MessageRow}
use mo_t.Storage.Statements.{
  Update, insert_user, insert_request, delete_request, delete_messages, insert_message, same_pair,
  add_participant, exec,
}
use mo_t.Storage.Statements.Integrity.{Integrity}
use mo_t.Storage.Statements.Integrity.Exec.{exec-Integrity}
use mo_t.Storage.Path.{DbPath-keeps}
use mo_t.Clients.{Client, get_client_by_fd}
use mo_t.Protocol.Wire.{Received, stopped, overrun, packet, recv_packet}
use mo_t.Server.{
  Event, accepted, readable, dispatch, after_recv, step, run, drop_client, accept_client,
}
use mo_t.Server.State.{System, Server}
use mo_t.Server.Authority.{Permitted, IsPermitted}
use mo_t.Server.Authority.Dispatch.{dispatch-IsPermitted}
use mo_t.Server.Guarantees.Identity.{dispatch-Session}

-- A predicate on the key and the tables that every permitted statement keeps, is kept by the loop.
module _ (sys : System) (P : MasterKey → Db → Type 0)
    (keep : (s : Server) (cli : Client) (skipped : ℕ) (u : Update) (d : Db)
      → Permitted sys s cli u
      → P s.key d
      → Holds (P s.key) (exec skipped u d)) where
  abbrev On : Server → Type 0
  On s = P s.key s.db

  dispatch-keeps :
      (s : Server) (cli : Client) (now type_value : ℕ) (payload : List ℕ)
      → On s
      → Holds On (dispatch sys now cli type_value payload s)
  dispatch-keeps s cli now type_value payload h =
      Holds-both (IsPermitted sys s cli) _ On (dispatch sys now cli type_value payload s)
        (λ s' path session.
          rw session.0
            (DbPath-keeps (P s.key) (λ skipped u d ok hd. keep s cli skipped u d ok hd) path h))
        (dispatch-IsPermitted sys s cli now type_value payload)
        (dispatch-Session sys s cli now type_value payload)

  after_recv-keeps :
      (s : Server) (cli : Client) (now : ℕ) (r : Received)
      → On s
      → Holds On (after_recv sys now cli r s)
  unfolding after_recv drop_client
  after_recv-keeps s cli now (stopped status) h = h
  after_recv-keeps s cli now overrun h = tt
  after_recv-keeps s cli now (packet type_value payload rest) h =
      dispatch-keeps s cli now type_value payload h

  pub step-keeps : (e : Event) (s : Server) → On s → Holds On (step sys e s)
  unfolding step drop_client accept_client
  step-keeps (accepted fd ssl handshake allocated) s h = ground arith
  step-keeps (readable fd now reader input) s h =
      elim (Option-cases (get_client_by_fd fd s.clients)) [
        | inl e ↦ rw (e, step) h
        | inr (cli, e) ↦
            rw (e, step)
              (if_both (Holds On) (cli.ssl == 0) _ _ h (
                Holds-bind On (recv_packet reader true 0 input) _
                  λ r _. after_recv-keeps s cli now r h))
      ]

  pub run-keeps : (es : List Event) (s : Server) → On s → Holds On (run sys es s)
  unfolding run
  run-keeps [] s h = h
  run-keeps (e ∷ es) s h = elim (Option-cases (step sys e s)) [
    | inl eq ↦ rw eq tt
    | inr (s', eq) ↦ rw eq (run-keeps es s' (rw eq at (step-keeps e s h)))
  ]

-- Over every run of the event loop from tables that satisfy `Integrity`, whatever clients send and
-- whatever SQLite, OpenSSL and the C library do: where the loop goes on, the tables keep the constraints of the schema, every friendship
-- goes both ways, and nobody is their own friend.
pub run-Integrity :
    (sys : System) (es : List Event) (s : Server)
    → Integrity s.db
    → Holds (λ s'. Integrity s'.db) (run sys es s)
run-Integrity sys =
    run-keeps sys (λ key. Integrity) (λ s cli skipped u d ok hd. exec-Integrity skipped d hd u)

-- A stored text that the key opens: it is hex of the right shape, and decrypts to a C string.
pub record IsReadable (evp : Evp) (key : MasterKey) (m : MessageRow) : Type 0 where
  pub message : Text
  pub opens : crypto_decrypt evp key m.text ≡ plain message
  pub is_text : IsText message
  pub long : 32 ≤ length m.text

pub record IsSealed (evp : Evp) (key : MasterKey) (db : Db) : Type 0 where
  pub texts : All (IsReadable evp key) db.messages
  pub others : All (λ r. r.0 ≢ r.1) db.requests

module _ (sys : System) (laws : IsEvp sys.evp) where
  pub exec-IsSealed :
      (s : Server) (cli : Client) (skipped : ℕ) (u : Update) (d : Db)
      → Permitted sys s cli u
      → IsSealed sys.evp s.key d
      → Holds (IsSealed sys.evp s.key) (exec skipped u d)
  unfolding exec add_participant
  exec-IsSealed s cli skipped (insert_user name email none code) d ok h = tt
  exec-IsSealed s cli skipped (insert_request from to) d ok h =
      if_cases (Holds (IsSealed sys.evp s.key)) (any (same_pair from to) d.requests) none _
        (λ e. tt)
        λ e. record {
          texts = h.texts;
          others =
              All-append (λ (r : ℕ × ℕ). r.0 ≢ r.1) d.requests ((from, to) ∷ []) h.others
                (ok.1, tt);
        }
  exec-IsSealed s cli skipped (delete_request from to) d ok h = record {
    texts = h.texts;
    others = All-select _ _ d.requests h.others;
  }
  exec-IsSealed s cli skipped (delete_messages conv) d ok h = record {
    texts = All-select _ _ d.messages h.texts;
    others = h.others;
  }
  exec-IsSealed s cli skipped (insert_message conv sender text time) d ok h =
      let (message, is_text, sealed) = ok.1 in
      record {
        texts = All-append (IsReadable sys.evp s.key) d.messages (_ ∷ []) h.texts (
          record {
            message = message;
            opens =
                crypto_decrypt-crypto_encrypt sys.evp laws s.key s.seals message text is_text
                  sealed;
            is_text = is_text;
            long = (crypto_encrypt-long sys.evp laws s.key s.seals message text sealed).0;
          },
          tt,
        );
        others = h.others;
      }
  exec-IsSealed s cli skipped _ d ok h = ground arith

  -- Under the laws of `IsEvp` and from tables that satisfy `IsSealed`, after every run that goes on:
  -- each stored message is text of 32 characters or more
  -- that decrypts under the server's key to a C string, and no request is of a user to himself.
  pub run-IsSealed :
      (es : List Event) (s : Server)
      → IsSealed sys.evp s.key s.db
      → Holds (λ s'. IsSealed sys.evp s'.key s'.db) (run sys es s)
  run-IsSealed = run-keeps sys (IsSealed sys.evp) exec-IsSealed
