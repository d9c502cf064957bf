-- ===== src/Tests/Exchanges.antt =====
-- The theorems on the client and the server together at a concrete chat.
use mo_t.Base.{◌≡◌, true, arith, is_some}
use mo_t.Protocol.Layout.{zeros}
use mo_t.ClientApp.State.{app_init}
use mo_t.ClientApp.Network.{network_step}
use mo_t.ClientApp.Keys.{start_loop}
use mo_t.ClientApp.Invariant.Progress.{network_step-is_some}
use mo_t.Tests.Screens.{in_chat}

network_step-is_some_example : is_some (network_step true 31 (zeros 40) in_chat) ≡ true
unfolding start_loop app_init
network_step-is_some_example =
    network_step-is_some true 31 (zeros 40) in_chat (ground arith) (omega arith, omega arith)
      (λ e. omega arith)
