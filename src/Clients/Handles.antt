-- ===== src/Clients/Handles.antt =====
-- The TLS handles that the list of src/server/client_manager.c holds and gives up.
use mo_t.Base.{ℕ, ◌+◌, ◌≡◌, List, [], ◌∷◌, ◌++◌, arith, ◌==◌, if◌then◌else◌, Bool-cases, inl, inr}
use mo_t.Clients.{Client, freed_ssl, free_clients, remove_client}

-- How often a handle stands in a list.
abbrev pub count : ℕ → List ℕ → ℕ
count h [] = 0
count h (x ∷ xs) = (if x == h then 1 else 0) + count h xs

count-append : (h : ℕ) (xs ys : List ℕ) → count h (xs ++ ys) ≡ count h xs + count h ys
count-append h [] ys = omega arith
count-append h (x ∷ xs) ys = omega (arith, count-append h xs ys)

-- The handles that a removal frees and those of the clients that stay are together the handles of
-- all clients: none is lost, and none is freed twice.
pub remove_client-free_clients :
    (fd h : ℕ) (cs : List Client)
    → count h (remove_client fd cs).1 + count h (free_clients (remove_client fd cs).0)
      ≡ count h (free_clients cs)
unfolding remove_client free_clients
remove_client-free_clients fd h [] = omega arith
remove_client-free_clients fd h (c ∷ cs) = elim (Bool-cases (c.fd == fd)) [
  | inl e ↦ rw e (omega (arith, count-append h (freed_ssl c) (free_clients cs)))
  | inr e ↦ rw e (
      omega (
        arith,
        count-append h (freed_ssl c) (free_clients cs),
        count-append h (freed_ssl c) (free_clients (remove_client fd cs).0),
        remove_client-free_clients fd h cs,
      ))
]
