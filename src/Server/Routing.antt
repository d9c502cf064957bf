-- ===== src/Server/Routing.antt =====
-- Who gets a message that handle_send_text of src/server/handlers/chat_handler.c routes.
use mo_t.Base.{
  ℕ, ◌≤◌, ◌≡◌, refl, sym, ap, ◌∙◌, Bool, true, false, ◌&&◌, some, List, [], ◌∷◌, ◌++◌, append-nil,
  append_assoc, Text, strncpy, select, length, take, take-all, ◌==◌, if◌then◌else◌,
}
use mo_t.Clients.{Client, get_client_by_uid}
use mo_t.Protocol.Types.{rte_text}
use mo_t.Protocol.Replies.{Packet, routed}
use mo_t.Server.State.{Server, send, send_to, send_online}
use mo_t.Server.Chat.{route_all}

-- The clients of the targets: of each but the sender, the first that is online.
abbrev pub recipients : ℕ → List Client → List ℕ → List Client
recipients sender clients [] = []
recipients sender clients (target ∷ targets) =
    (if target == sender then [] else take 1 (select (λ c. c.uid == target && c.is_online) clients))
    ++ recipients sender clients targets

-- The packet for a client with a handle.
abbrev pub copies : Client → ℕ → Text → List Client → List Packet
copies cli conv text [] = []
copies cli conv text (c ∷ cs) =
    (if c.ssl == 0
      then []
      else record {
        ssl = c.ssl;
        kind = rte_text;
        body = routed (record {
          conv_id = conv;
          sender_uid = cli.uid;
          sender_username = take 32 cli.username;
          text = text;
        });
      }
        ∷ [])
    ++ copies cli conv text cs

and_right : (a b : Bool) → (a && b) ≡ true → b ≡ true
and_right true b e = e
and_right false b e = cc

module _ (cli : Client) (conv : ℕ) (text : Text) (short : length text ≤ 1024) where
  copies-append :
      (xs ys : List Client)
      → copies cli conv text (xs ++ ys) ≡ copies cli conv text xs ++ copies cli conv text ys
  copies-append [] ys = refl
  copies-append (x ∷ xs) ys =
      rw (copies-append xs ys)
        (sym (append_assoc _ (copies cli conv text xs) (copies cli conv text ys)))

  abbrev act : Client → Server → Server
  act c s =
      send c rte_text
        (routed (record {
          conv_id = conv;
          sender_uid = cli.uid;
          sender_username = strncpy 32 cli.username;
          text = strncpy 1024 text;
        }))
        s

  abbrev after : List Client → Server → Server
  after cs s = record s { sent = s.sent ++ copies cli conv text cs }

  by_handle :
      (b : Bool) (p : Packet) (s : Server)
      → (if b then s else record s { sent = s.sent ++ p ∷ [] })
        ≡ record s { sent = s.sent ++ ((if b then [] else p ∷ []) ++ []) }
  by_handle true p s = ap (λ l. record s { sent = l }) (sym (append-nil s.sent))
  by_handle false p s = refl

  act-copies : (c : Client) (s : Server) → act c s ≡ after (c ∷ []) s
  unfolding send
  act-copies c s = rw (take-all 1024 text short, send) (by_handle (c.ssl == 0) _ s)

  after-nil : (s : Server) → s ≡ after [] s
  after-nil s = ap (λ l. record s { sent = l }) (sym (append-nil s.sent))

  to_first :
      (target : ℕ) (cs : List Client) (s : Server)
      → send_to (get_client_by_uid target cs) act s
        ≡ after (take 1 (select (λ c. c.uid == target && c.is_online) cs)) s
  unfolding get_client_by_uid send_to
  to_first target [] s = after-nil s
  to_first target (c ∷ cs) s = by_test (to_first target cs s) (c.uid == target && c.is_online) refl
    where
      by_test :
          send_to (get_client_by_uid target cs) act s
            ≡ after (take 1 (select (λ c. c.uid == target && c.is_online) cs)) s
          → (b : Bool) → (c.uid == target && c.is_online) ≡ b
          → send_to (if b then some c else get_client_by_uid target cs) act s
            ≡ after
                (take 1 (
                  if b
                  then c ∷ select (λ c. c.uid == target && c.is_online) cs
                  else select (λ c. c.uid == target && c.is_online) cs))
                s
      by_test ih true e =
          let online : c.is_online ≡ true = and_right (c.uid == target) c.is_online e in
          ap (λ (b : Bool). if b then act c s else s) online ∙ act-copies c s
      by_test ih false e = ih

  -- Routing is the sending of the copies, in the order of the targets.
  pub route_all-copies :
      (targets : List ℕ) (s : Server)
      → route_all cli conv text targets s
        ≡ record s { sent = s.sent ++ copies cli conv text (recipients cli.uid s.clients targets) }
  unfolding route_all send_online
  route_all-copies [] s = after-nil s
  route_all-copies (target ∷ targets) s =
      let first = take 1 (select (λ c. c.uid == target && c.is_online) s.clients) in
      by_sender (route_all-copies targets s) (route_all-copies targets (after first s))
        (target == cli.uid)
    where
      by_sender :
          route_all cli conv text targets s ≡ after (recipients cli.uid s.clients targets) s
          → (let s' = after (take 1 (select (λ c. c.uid == target && c.is_online) s.clients)) s in
              route_all cli conv text targets s' ≡ after (recipients cli.uid s.clients targets) s')
          → (b : Bool)
          → route_all cli conv text targets (if b then s else send_online target act s)
            ≡ after
                ((if b then [] else take 1 (select (λ c. c.uid == target && c.is_online) s.clients))
                  ++ recipients cli.uid s.clients targets)
                s
      by_sender ih ih' true = ih
      by_sender ih ih' false =
          let first = take 1 (select (λ c. c.uid == target && c.is_online) s.clients) in
          let others = recipients cli.uid s.clients targets in
          ap (route_all cli conv text targets) (to_first target s.clients s)
          ∙ ih'
          ∙ ap (λ l. record s { sent = l })
              (append_assoc s.sent (copies cli conv text first) (copies cli conv text others)
                ∙ ap (◌++◌ s.sent) (sym (copies-append first others)))
