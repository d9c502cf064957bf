-- ===== src/ClientApp/Session/Resumed.antt =====
-- The file of the session of src/client/session.c between a login and the next start.
use mo_t.Base.{
  ℕ, List, leb, if_cases, refl, ◌≤◌, ◌≡◌, sym, ap, ◌∙◌, Bool, true, false, Option, none, some, [],
  ◌∷◌, ◌++◌, Text, IsText, c_str, length, length-append, take, take-all, length-take, drop-append,
  append-nil, if◌then◌else◌, ◌>>=◌, arith,
}
use mo_t.Protocol.Wire.{Received}
use mo_t.Protocol.Replies.{MyInfoPayload}
use mo_t.Protocol.Layout.{char_array, length-char_array, c_str-char_array, IsText-take}
use mo_t.ClientApp.Services.{Request, service_login}
use mo_t.ClientApp.Session.{
  Disk, refuses, takes, clear_session, save_session, load_session, login_of, login_result, Door,
  logs_in, enters, stays, knock, after_login, menu_turn, resumed,
}

login_of-load_session :
    (email password : Text)
    → IsText email
    → IsText password
    → length email ≤ 63
    → length password ≤ 63
    → resumed (some (char_array 64 email ++ char_array 64 password))
      ≡ some (service_login email password)
unfolding load_session login_of
login_of-load_session email password te tp ne np =
    let n1 = length-char_array 64 email in
    let n2 = length-char_array 64 password in
    let size : length (char_array 64 email ++ char_array 64 password) ≡ 128 =
      omega (arith, n1, n2, length-append (char_array 64 email) (char_array 64 password)) in
    rw
      (
        size,
        take-all 128 (char_array 64 email ++ char_array 64 password) (omega arith),
        c_str-char_array 64 email (char_array 64 password) te (omega arith),
        drop-append (char_array 64 email) (char_array 64 password) 64 n1,
      )
      (ap (λ p. some (service_login email p)) (c_str_whole password tp np))
  where
    c_str_whole :
        (password : Text)
        → IsText password
        → length password ≤ 63
        → c_str (char_array 64 password) ≡ password
    c_str_whole password tp np =
        ap c_str (sym (append-nil (char_array 64 password)))
        ∙ c_str-char_array 64 password [] tp (omega arith)

-- What a start sends that reads the file which was left after the login r.
abbrev pub expected : Bool → Disk → Request → Option (List ℕ) → Option Request
expected remember refuses r file = resumed file
expected true (takes n) r file = if leb 128 n then some r else none
expected false (takes n) r file = none

save_session-resumed :
    (n : ℕ) (email password : Text) (file : Option (List ℕ))
    → IsText email
    → IsText password
    → length email ≤ 63
    → length password ≤ 63
    → resumed (save_session (takes n) email password file)
      ≡ expected true (takes n) (service_login email password) file
unfolding save_session load_session
save_session-resumed n email password file te tp ne np =
    let bytes = char_array 64 email ++ char_array 64 password in
    let size : length bytes ≡ 128 = omega (
      arith,
      length-char_array 64 email,
      length-char_array 64 password,
      length-append (char_array 64 email) (char_array 64 password),
    ) in
    if_cases (λ v. resumed (some (take n bytes)) ≡ v) (leb 128 n) _ _
      (λ e.
        ap (λ (b : List ℕ). resumed (some b)) (take-all n bytes (ground arith))
        ∙ login_of-load_session email password te tp ne np)
      λ e.
        let short : leb 128 (length (take n bytes)) ≡ false = ground (arith, length-take n bytes) in
        rw short refl

after_login-resumed :
    (email password : Text) (remember : Bool) (disk : Disk) (result : Option MyInfoPayload)
    (d d' : Door) (info : MyInfoPayload)
    → IsText email
    → IsText password
    → length email ≤ 63
    → length password ≤ 63
    → after_login email password remember disk result d ≡ (d', enters info)
    → (resumed d'.session ≡ expected remember disk (service_login email password) d.session)
      × (d'.sent ≡ d.sent)
unfolding after_login save_session clear_session load_session
after_login-resumed email password remember disk none d d' info te tp ne np h =
    let apart : stays ≡ enters info = ap (λ x. x.1) h in absurd (cc apart)
after_login-resumed email password remember disk (some i) d d' info te tp ne np h =
    (ap (λ x. resumed x.0.session) (sym h) ∙ left remember disk, ap (λ x. x.0.sent) (sym h))
  where
    left :
        (remember : Bool) (disk : Disk)
        → resumed (
            if remember
            then save_session disk email password d.session
            else clear_session disk d.session)
          ≡ expected remember disk (service_login email password) d.session
    left true refuses = refl
    left false refuses = refl
    left true (takes n) = save_session-resumed n email password d.session te tp ne np
    left false (takes n) = refl

-- After a login from the menu with C strings that lets the user in, which sent one packet: where
-- the login was to be remembered and the file of the session could be opened, the next start sends
-- the same login if the disk took the 128 bytes and none if not; where it was not to be remembered
-- and the file was removed, the next start sends none; and where the opening or the removal
-- failed, it sends what it would have sent before.
pub menu_turn-resumed :
    (email password : Text) (remember : Bool) (disk : Disk) (reply : Received) (d d' : Door)
    (info : MyInfoPayload)
    → IsText email
    → IsText password
    → menu_turn (logs_in email password remember disk reply) d ≡ some (d', enters info)
    → let r = service_login (take 63 email) (take 63 password) in
      (resumed d'.session ≡ expected remember disk r d.session) × (d'.sent ≡ d.sent ++ r ∷ [])
unfolding menu_turn knock
menu_turn-resumed email password remember disk reply d d' info te tp h =
    by_result (login_result reply) h
  where
    by_result :
        (o : Option (Option MyInfoPayload))
        → (o >>= λ result. some (
            after_login
              (take 63 email)
              (take 63 password)
              remember
              disk
              result
              (knock (service_login (take 63 email) (take 63 password)) d)))
          ≡ some (d', enters info)
        → let r = service_login (take 63 email) (take 63 password) in
          (resumed d'.session ≡ expected remember disk r d.session) × (d'.sent ≡ d.sent ++ r ∷ [])
    by_result none h = cc
    by_result (some result) h =
        let d1 = knock (service_login (take 63 email) (take 63 password)) d in
        let same : after_login (take 63 email) (take 63 password) remember disk result d1
            ≡ (d', enters info) =
          cc h in
        after_login-resumed (take 63 email) (take 63 password) remember disk result d1 d' info
          (IsText-take 63 email te) (IsText-take 63 password tp)
          (omega (arith, length-take 63 email)) (omega (arith, length-take 63 password)) same
