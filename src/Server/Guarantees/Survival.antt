-- ===== src/Server/Guarantees/Survival.antt =====
-- The server of src/server/main.c goes on: messages of the right size meet no undefined behaviour.
use mo_t.Base.{
  ℕ, ◌^◌, ◌≤◌, ◌<◌, ◌≡◌, refl, true, Option, some, List, [], ◌∷◌, All, All-map, length, is_some,
  if_both, arith, Option-cases, inl, inr, ◌==◌, Yields,
}
use mo_t.Crypto.{IsEvp, crypto_decrypt}
use mo_t.Storage.Messages.Reading.{is_plain}
use mo_t.Clients.{Client, get_client_by_fd}
use mo_t.Protocol.Types.{
  MessageType, message_type, register, login, update_user, send_text, req_history, create_conv,
  update_group, add_member, req_members, kick_member, delete_group, add_by_code, decide_request,
}
use mo_t.Protocol.Request.{buffer, u32_at}
use mo_t.Protocol.Request.Sizes.{payload_size, length-buffer}
use mo_t.Protocol.Wire.{IsReader, Received, stopped, overrun, packet, recv_packet}
use mo_t.Protocol.Wire.Framing.{Framed, recv_packet-Framed}
use mo_t.Server.{Event, accepted, readable, handle, dispatch, after_recv, step, run, drop_client}
use mo_t.Server.State.{System, Server}
use mo_t.Server.Guarantees.Answers.{
  IsCrypting, WellFormed, register-is_some, login-is_some, update_user-is_some, send_text-is_some,
  req_history-is_some, create_conv-is_some, update_group-is_some, add_member-is_some,
  kick_member-is_some, delete_group-is_some, req_members-is_some, add_by_code-is_some,
  decide_request-is_some,
}
use mo_t.Server.Guarantees.Database.{IsSealed, step-keeps, exec-IsSealed}

module _ (sys : System) (crypts : IsCrypting sys.libc) where
  handle-is_some :
      (now : ℕ) (t : MessageType) (cli : Client) (p : List ℕ) (s : Server)
      → payload_size t ≤ length p
      → (t ≡ create_conv → (n : ℕ) → u32_at p 97 ≡ some n → n < 2 ^ 31)
      → All (λ m. is_plain (crypto_decrypt sys.evp s.key m.text) ≡ true) s.db.messages
      → is_some (handle sys now cli t p s) ≡ true
  unfolding handle
  handle-is_some now register cli p s h c m = register-is_some sys crypts s cli p h
  handle-is_some now login cli p s h c m = login-is_some sys crypts s cli p h
  handle-is_some now update_user cli p s h c m = update_user-is_some sys crypts s cli p h
  handle-is_some now send_text cli p s h c m = send_text-is_some sys crypts s cli p now h
  handle-is_some now req_history cli p s h c m = req_history-is_some sys crypts s cli p m h
  handle-is_some now create_conv cli p s h c m = create_conv-is_some sys crypts s cli p h (c refl)
  handle-is_some now update_group cli p s h c m = update_group-is_some sys crypts s cli p h
  handle-is_some now add_member cli p s h c m = add_member-is_some sys crypts s cli p h
  handle-is_some now req_members cli p s h c m = req_members-is_some sys crypts s cli p h
  handle-is_some now kick_member cli p s h c m = kick_member-is_some sys crypts s cli p h
  handle-is_some now delete_group cli p s h c m = delete_group-is_some sys crypts s cli p h
  handle-is_some now add_by_code cli p s h c m = add_by_code-is_some sys crypts s cli p h
  handle-is_some now decide_request cli p s h c m = decide_request-is_some sys crypts s cli p h
  handle-is_some now _ cli p s h c m = refl

  -- Where crypt gives no NULL and every stored message decrypts, a message whose payload has the size
  -- of its struct, and whose count of participants is an int, is handled without undefined behaviour.
  pub dispatch-is_some :
      (now type_value : ℕ) (cli : Client) (payload : List ℕ) (s : Server)
      → ((t : MessageType) → message_type type_value ≡ some t → WellFormed t payload)
      → All (λ m. is_plain (crypto_decrypt sys.evp s.key m.text) ≡ true) s.db.messages
      → is_some (dispatch sys now cli type_value payload s) ≡ true
  unfolding dispatch
  dispatch-is_some now type_value cli payload s formed readable_ =
      elim (Option-cases (message_type type_value)) [
        | inl e ↦ rw (e, dispatch) refl
        | inr (t, e) ↦
            rw (e, dispatch)
              (handle-is_some now t cli (buffer payload) s
                (omega (arith, (formed t e).size, length-buffer payload)) (formed t e).count
                readable_)
      ]

-- An event that keeps to the protocol: SSL_read keeps to its contract, and a packet that comes has a
-- payload of the size of its struct, with a count of participants that is an int.
abbrev pub IsPolite : Event → Type 0
IsPolite (accepted fd ssl handshake allocated) = Unit
IsPolite (readable fd now reader input) =
    IsReader reader
    × ((type_value : ℕ) (payload rest : List ℕ) (t : MessageType)
        → recv_packet reader true 0 input ≡ some (packet type_value payload rest)
        → message_type type_value ≡ some t
        → WellFormed t payload)

module _ (sys : System) (laws : IsEvp sys.evp) (crypts : IsCrypting sys.libc) where
  abbrev SealedServer : Server → Type 0
  SealedServer s = IsSealed sys.evp s.key s.db

  readable_texts :
      (s : Server)
      → SealedServer s
      → All (λ m. is_plain (crypto_decrypt sys.evp s.key m.text) ≡ true) s.db.messages
  readable_texts s h = All-map (λ m r. rw r.opens refl) s.db.messages h.texts

  after_recv-is_some :
      (s : Server) (cli : Client) (now : ℕ) (input : List ℕ) (r : Received)
      → SealedServer s
      → Framed input r
      → ((type_value : ℕ) (payload rest : List ℕ) (t : MessageType)
          → r ≡ packet type_value payload rest
          → message_type type_value ≡ some t
          → WellFormed t payload)
      → is_some (after_recv sys now cli r s) ≡ true
  unfolding after_recv
  after_recv-is_some s cli now input (stopped status) h f formed = refl
  after_recv-is_some s cli now input overrun h f formed = cc
  after_recv-is_some s cli now input (packet type_value payload rest) h f formed =
      dispatch-is_some sys crypts now type_value cli payload s
        (λ t e. formed type_value payload rest t refl e) (readable_texts s h)

  step-is_some :
      (e : Event) (s : Server) → IsPolite e → SealedServer s → is_some (step sys e s) ≡ true
  unfolding step
  step-is_some (accepted fd ssl handshake allocated) s polite h = refl
  step-is_some (readable fd now reader input) s (reads, formed) h =
      elim (Option-cases (get_client_by_fd fd s.clients)) [
        | inl e ↦ rw (e, step) refl
        | inr (cli, e) ↦
            let (r, received, framed) = recv_packet-Framed reader reads true 0 input in
            rw (e, step)
              (if_both (λ (o : Option Server). is_some o ≡ true) (cli.ssl == 0)
                (some (drop_client fd s)) _ refl
                (rw received (
                  after_recv-is_some s cli now input r h framed (λ type_value payload rest t e'.
                    formed type_value payload rest t (rw (← e') received)))))
      ]

  -- Under the laws of `IsEvp`, where crypt gives no NULL, and from tables that satisfy `IsSealed`:
  -- every run over events that keep to the protocol goes on to its end, without undefined behaviour,
  -- and ends in tables that satisfy `IsSealed`.
  pub run-survives :
      (es : List Event) (s : Server)
      → All IsPolite es
      → IsSealed sys.evp s.key s.db
      → Yields (λ s'. IsSealed sys.evp s'.key s'.db) (run sys es s)
  unfolding run
  run-survives [] s polite h = (s, refl, h)
  run-survives (e ∷ es) s polite h =
      let goes = step-is_some e s polite.0 h in
      elim (Option-cases (step sys e s)) [
        | inl stops ↦ (let never = rw stops at goes in cc)
        | inr (s', eq) ↦ rw eq (
            run-survives es s' polite.1
              (rw eq at (step-keeps sys (IsSealed sys.evp) (exec-IsSealed sys laws) e s h)))
      ]
