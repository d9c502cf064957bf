-- ===== src/Server/State/Frame.antt =====
-- What sending leaves alone: the calls of send_packet in the handlers of src/server change nothing
-- of the server but what has gone out.
use mo_t.Base.{ℕ, ◌≡◌, ◌∙◌, Option, none, some, List, [], ◌∷◌, arith, if_both}
use mo_t.Clients.{Client, get_client_by_uid}
use mo_t.Protocol.Types.{MessageType}
use mo_t.Protocol.Replies.{Body}
use mo_t.Server.State.{System, Server, send, send_to, send_online, send_conversations, refresh_all}

pub record SendsOnly (s s' : Server) : Type 0 where
  pub same_db : s'.db ≡ s.db
  pub same_clients : s'.clients ≡ s.clients
  pub same_key : s'.key ≡ s.key
  pub same_freed : s'.freed ≡ s.freed
  pub same_closed : s'.closed ≡ s.closed

pub SendsOnly-refl : (s : Server) → SendsOnly s s
SendsOnly-refl s = ground arith

pub SendsOnly-trans : {s t u : Server} → SendsOnly s t → SendsOnly t u → SendsOnly s u
SendsOnly-trans a b = record {
  same_db = b.same_db ∙ a.same_db;
  same_clients = b.same_clients ∙ a.same_clients;
  same_key = b.same_key ∙ a.same_key;
  same_freed = b.same_freed ∙ a.same_freed;
  same_closed = b.same_closed ∙ a.same_closed;
}

pub send-SendsOnly :
    (cli : Client) (kind : MessageType) (body : Body) (s : Server)
    → SendsOnly s (send cli kind body s)
unfolding send
send-SendsOnly cli kind body s = ground arith

module _ (act : Client → Server → Server) (s : Server)
    (keeps : (c : Client) → SendsOnly s (act c s)) where
  send_to-SendsOnly : (found : Option Client) → SendsOnly s (send_to found act s)
  unfolding send_to
  send_to-SendsOnly none = SendsOnly-refl s
  send_to-SendsOnly (some c) =
      if_both (SendsOnly s) c.is_online (act c s) s (keeps c) (SendsOnly-refl s)

  pub send_online-SendsOnly : (uid : ℕ) → SendsOnly s (send_online uid act s)
  unfolding send_online
  send_online-SendsOnly uid = send_to-SendsOnly (get_client_by_uid uid s.clients)

module _ (sys : System) where
  pub send_conversations-SendsOnly :
      (uid : ℕ) (c : Client) (s : Server) → SendsOnly s (send_conversations sys uid c s)
  unfolding send_conversations
  send_conversations-SendsOnly uid c s = send-SendsOnly c _ _ s

  pub refresh_all-SendsOnly : (uids : List ℕ) (s : Server) → SendsOnly s (refresh_all sys uids s)
  unfolding refresh_all
  refresh_all-SendsOnly [] s = SendsOnly-refl s
  refresh_all-SendsOnly (uid ∷ uids) s =
      SendsOnly-trans
        (send_online-SendsOnly (send_conversations sys uid) s
          (λ c. send_conversations-SendsOnly uid c s) uid)
        (refresh_all-SendsOnly uids (send_online uid (send_conversations sys uid) s))
