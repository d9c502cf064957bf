-- ===== src/Server/Guarantees/Identity.antt =====
-- Who a connection speaks for: how messages to src/server change its list of clients.
use mo_t.Base.{
  strncpy, Bool-cases, ◌==◌, ◌>>=◌, true, ℕ, ◌≡◌, refl, ◌⊎◌, inl, inr, Bool, Option, none, some,
  List, [], ◌∷◌, map, Text, length, ltb, if_both, Holds, Holds-bind, Holds-map, ap, ◌∙◌, arith,
  Option-cases,
}
use mo_t.Storage.Users.{User, storage_check_credentials}
use mo_t.Clients.{Client, get_client_by_fd, update_client}
use mo_t.Protocol.Types.{MessageType, message_type, login, update_user}
use mo_t.Protocol.Request.{buffer, text_at}
use mo_t.Server.{handle, dispatch}
use mo_t.Server.State.{System, Server}
use mo_t.Server.State.Frame.{SendsOnly, send-SendsOnly}
use mo_t.Server.Auth.{handle_login, login_reply, log_in, handle_update_user, set_username}
use mo_t.Server.Guarantees.Calm.{Calm, SendsOnly-Calm, handle-Calm}

-- What a client is, without its display name.
abbrev pub identity : Client → ℕ × ℕ × ℕ × Bool
identity c = (c.fd, c.ssl, c.uid, c.is_online)

identity-set_username :
    (sys : System) (name : Text) (fd : ℕ) (cs : List Client)
    → map identity (update_client fd (set_username sys name) cs) ≡ map identity cs
unfolding update_client set_username
identity-set_username sys name fd [] = refl
identity-set_username sys name fd (c ∷ cs) = ground (arith, identity-set_username sys name fd cs)

-- The client that the update of a descriptor changes is the one that a search for it finds.
get_client_by_fd-update_client :
    (fd : ℕ) (f : Client → Client) (cs : List Client)
    → ((c : Client) → (f c).fd ≡ c.fd)
    → get_client_by_fd fd (update_client fd f cs) ≡ (get_client_by_fd fd cs >>= λ c. some (f c))
unfolding get_client_by_fd update_client
get_client_by_fd-update_client fd f [] keeps = refl
get_client_by_fd-update_client fd f (c ∷ cs) keeps = elim (Bool-cases (c.fd == fd)) [
  | inl e ↦
      (let e' : ((f c).fd == fd) ≡ true = ap (λ (n : ℕ). n == fd) (keeps c) ∙ e in
        rw (e, e', get_client_by_fd, update_client) refl)
  | inr e ↦
      rw (e, e, get_client_by_fd, update_client) (get_client_by_fd-update_client fd f cs keeps)
]

-- A client as the user of credentials.
abbrev pub signed_in : User → Client → Client
signed_in user c = record c {
  username = strncpy 32 user.username;
  uid = user.uid;
  is_online = true;
}

-- A login: the credentials were found good, and the client that asked is the one that changes.
pub record LoggedIn (sys : System) (cli : Client) (p : List ℕ) (s s' : Server) : Type 0 where
  pub email : Text
  pub password : Text
  pub user : User
  pub email_sent : text_at p 0 ≡ some email
  pub password_sent : text_at p 64 ≡ some password
  pub checked : storage_check_credentials sys.libc sys.sqlite email password s.db ≡ some (some user)
  pub changed : s'.clients ≡ update_client cli.fd (signed_in user) s.clients
  pub found :
      get_client_by_fd cli.fd s'.clients
      ≡ (get_client_by_fd cli.fd s.clients >>= λ c. some (signed_in user c))

pub record Session (sys : System) (cli : Client) (p : List ℕ) (t : MessageType) (s s' : Server)
    : Type 0 where
  pub same_key : s'.key ≡ s.key
  pub same_freed : s'.freed ≡ s.freed
  pub same_closed : s'.closed ≡ s.closed
  pub identities :
      (map identity s'.clients ≡ map identity s.clients) ⊎ ((t ≡ login) × LoggedIn sys cli p s s')

module _ (sys : System) (s : Server) (cli : Client) where
  Calm-Session : (p : List ℕ) (t : MessageType) {s' : Server} → Calm s s' → Session sys cli p t s s'
  Calm-Session p t c = record {
    same_key = c.same_key;
    same_freed = c.same_freed;
    same_closed = c.same_closed;
    identities = inl (ap (map identity) c.same_clients);
  }

  logged_in :
      (p : List ℕ) (email password : Text) (u : User) {s' : Server}
      → text_at p 0 ≡ some email
      → text_at p 64 ≡ some password
      → storage_check_credentials sys.libc sys.sqlite email password s.db ≡ some (some u)
      → SendsOnly (record s { clients = update_client cli.fd (log_in sys u) s.clients }) s'
      → Session sys cli p login s s'
  unfolding log_in
  logged_in p email password u e1 e2 e3 f = record {
    same_key = f.same_key;
    same_freed = f.same_freed;
    same_closed = f.same_closed;
    identities = inr (
      refl,
      record {
        email = email;
        password = password;
        user = u;
        email_sent = e1;
        password_sent = e2;
        checked = e3;
        changed = f.same_clients;
        found =
            ap (get_client_by_fd cli.fd) f.same_clients
            ∙ get_client_by_fd-update_client cli.fd (signed_in u) s.clients (λ c. refl);
      },
    );
  }

  login_reply-Session :
      (p : List ℕ) (email password : Text) (user : Option User)
      → text_at p 0 ≡ some email
      → text_at p 64 ≡ some password
      → storage_check_credentials sys.libc sys.sqlite email password s.db ≡ some user
      → Session sys cli p login s (login_reply sys cli s user)
  unfolding login_reply
  login_reply-Session p email password none e1 e2 e3 =
      Calm-Session p login (SendsOnly-Calm (send-SendsOnly cli _ _ s))
  login_reply-Session p email password (some u) e1 e2 e3 =
      logged_in p email password u e1 e2 e3 (send-SendsOnly cli _ _ _)

  login-Session : (p : List ℕ) → Holds (Session sys cli p login s) (handle_login sys cli p s)
  unfolding handle_login
  login-Session p = Holds-bind (Session sys cli p login s) (text_at p 0) _ λ email e1.
      Holds-bind (Session sys cli p login s) (text_at p 64) _ λ password e2.
        Holds-bind (Session sys cli p login s)
          (storage_check_credentials sys.libc sys.sqlite email password s.db) _
          λ user e3. login_reply-Session p email password user e1 e2 e3

  renamed :
      (p : List ℕ) {t s' : Server}
      → t.key ≡ s.key
      → t.freed ≡ s.freed
      → t.closed ≡ s.closed
      → map identity t.clients ≡ map identity s.clients
      → SendsOnly t s'
      → Session sys cli p update_user s s'
  renamed p e1 e2 e3 e4 f = record {
    same_key = f.same_key ∙ e1;
    same_freed = f.same_freed ∙ e2;
    same_closed = f.same_closed ∙ e3;
    identities = inl (ap (map identity) f.same_clients ∙ e4);
  }

  update_user-Session :
      (p : List ℕ) → Holds (Session sys cli p update_user s) (handle_update_user sys cli p s)
  unfolding handle_update_user
  update_user-Session p = Holds-bind (Session sys cli p update_user s) (text_at p 0) _ λ name _.
      Holds-bind (Session sys cli p update_user s) (text_at p 32) _ λ password _.
        renamed p refl refl refl
          (if_both (λ cs. map identity cs ≡ map identity s.clients) (ltb 0 (length name)) _ _
            (identity-set_username sys name cli.fd s.clients) refl)
          (send-SendsOnly cli _ _ _)

  handle-Session :
      (now : ℕ) (t : MessageType) (p : List ℕ)
      → Holds (Session sys cli p t s) (handle sys now cli t p s)
  unfolding handle
  handle-Session now login p = login-Session p
  handle-Session now update_user p = update_user-Session p
  handle-Session now t p =
      Holds-map (Calm s) (Session sys cli p t s) (handle sys now cli t p s)
        (λ s' c. Calm-Session p t c) (handle-Calm sys s cli now t p (λ e. cc) (λ e. cc))

  -- Where the handling of a message goes on, it leaves the key, the freed handles and the closed
  -- descriptors alone, and every client its descriptor, handle, user and presence, unless it is a
  -- login whose credentials were found good, which gives the client of the descriptor, and no other,
  -- the id and the name, cut to its array, of the user of those credentials and makes it online.
  pub dispatch-Session :
      (now type_value : ℕ) (payload : List ℕ)
      → Holds
          (λ s'.
            (s'.key ≡ s.key)
            × (s'.freed ≡ s.freed)
            × (s'.closed ≡ s.closed)
            × ((map identity s'.clients ≡ map identity s.clients)
                ⊎ ((message_type type_value ≡ some login)
                    × LoggedIn sys cli (buffer payload) s s')))
          (dispatch sys now cli type_value payload s)
  unfolding dispatch
  dispatch-Session now type_value payload = elim (Option-cases (message_type type_value)) [
    | inl e ↦ rw (e, dispatch) (refl, refl, refl, inl refl)
    | inr (t, e) ↦
        rw (e, dispatch)
          (Holds-map (Session sys cli (buffer payload) t s) _
            (handle sys now cli t (buffer payload) s)
            (λ s' c. (c.same_key, c.same_freed, c.same_closed, ground (arith, c.identities)))
            (handle-Session now t (buffer payload)))
  ]
