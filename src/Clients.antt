-- ===== src/Clients.antt =====
-- src/server/client_manager.c: the connected clients. The singly linked list of nodes is the list
-- of their data, head first; a node is unlinked and freed where its entry leaves the list. A client
-- is found by its descriptor, so a `Client *` is the descriptor of the first node that has it.
pub mod Lookup
pub mod Handles
use mo_t.Base.{
  ℕ, Bool, false, ◌&&◌, Option, none, some, List, [], ◌∷◌, ◌++◌, Text, ◌==◌, if◌then◌else◌,
}

-- Client of include/infrastructure/server_types.h. `ssl` is 0 for NULL, `uid` is 0 for a guest.
pub record Client : Type 0 where
  pub fd : ℕ
  pub ssl : ℕ
  pub uid : ℕ
  pub username : Text
  pub is_online : Bool

pub init_clients : List Client
init_clients = []

-- The handles that SSL_shutdown and SSL_free are called on.
unfoldable pub freed_ssl : Client → List ℕ
freed_ssl c = if c.ssl == 0 then [] else c.ssl ∷ []

-- The handles that are freed; the list is empty afterwards.
unfoldable pub free_clients : List Client → List ℕ
unfolding freed_ssl
free_clients [] = []
free_clients (c ∷ cs) = freed_ssl c ++ free_clients cs

-- `allocated` says whether malloc gives a node.
unfoldable pub add_client : Bool → ℕ → ℕ → List Client → List Client
add_client allocated fd ssl cs =
    if allocated
    then record { fd = fd; ssl = ssl; uid = 0; username = []; is_online = false } ∷ cs
    else cs

-- The first node with the descriptor goes. The handles that are freed come second.
unfoldable pub remove_client : ℕ → List Client → List Client × List ℕ
unfolding freed_ssl
remove_client fd [] = ([], [])
remove_client fd (c ∷ cs) =
    let (rest, freed) = remove_client fd cs in
    if c.fd == fd then (cs, freed_ssl c) else (c ∷ rest, freed)

unfoldable pub get_client_by_uid : ℕ → List Client → Option Client
get_client_by_uid uid [] = none
get_client_by_uid uid (c ∷ cs) =
    if c.uid == uid && c.is_online then some c else get_client_by_uid uid cs

unfoldable pub get_client_by_fd : ℕ → List Client → Option Client
get_client_by_fd fd [] = none
get_client_by_fd fd (c ∷ cs) = if c.fd == fd then some c else get_client_by_fd fd cs

-- A write through the pointer that `get_client_by_fd` returned.
unfoldable pub update_client : ℕ → (Client → Client) → List Client → List Client
update_client fd f [] = []
update_client fd f (c ∷ cs) = if c.fd == fd then f c ∷ cs else c ∷ update_client fd f cs
