-- ===== src/Clients/Lookup.antt =====
-- Finding clients after changes of the list of src/server/client_manager.c.
use mo_t.Base.{
  ℕ, ◌≡◌, ◌≢◌, refl, true, none, List, [], ◌∷◌, All, Unique, arith, ◌==◌, Bool-cases, inl, inr,
}
use mo_t.Clients.{Client, remove_client, get_client_by_fd}

-- Nobody is found under a descriptor that no entry has.
absent : (fd : ℕ) (cs : List Client) → All (λ c. fd ≢ c.fd) cs → get_client_by_fd fd cs ≡ none
unfolding get_client_by_fd
absent fd [] h = refl
absent fd (c ∷ cs) h = ground (arith, absent fd cs)

module _ (fd : ℕ) where
  others_found :
      (other : ℕ) (cs : List Client)
      → other ≢ fd
      → get_client_by_fd other (remove_client fd cs).0 ≡ get_client_by_fd other cs
  unfolding remove_client get_client_by_fd
  others_found other [] ne = refl
  others_found other (c ∷ cs) ne = ground (arith, others_found other cs)

  gone :
      (cs : List Client)
      → Unique (λ (c : Client). c.fd) cs
      → get_client_by_fd fd (remove_client fd cs).0 ≡ none
  unfolding remove_client get_client_by_fd
  gone [] u = refl
  gone (c ∷ cs) u = elim (Bool-cases (c.fd == fd)) [
    | inl e ↦ rw e (absent fd cs (rw (fd_eq c e) at u.0))
    | inr e ↦ ground (arith, gone cs u.1)
  ]
    where
      fd_eq : (c : Client) → (c.fd == fd) ≡ true → c.fd ≡ fd
      fd_eq c e = ground arith

  -- Where the descriptors differ from each other: after a removal nobody is found under the
  -- descriptor, and every other client is found as before.
  pub remove_client-get_client_by_fd :
      (cs : List Client)
      → Unique (λ (c : Client). c.fd) cs
      → (get_client_by_fd fd (remove_client fd cs).0 ≡ none)
        × ((other : ℕ)
            → other ≢ fd
            → get_client_by_fd other (remove_client fd cs).0 ≡ get_client_by_fd other cs)
  remove_client-get_client_by_fd cs u = (gone cs u, λ other ne. others_found other cs ne)
