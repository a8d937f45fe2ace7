-- ===== src/Bridge/Withdrawals.antt =====
-- A withdrawal through the bridge: the tokens are locked, then burned or set free.
use akropolis_os_chain_node.Common.{◌+◌, ◌≡◌, ◌<◌, some, arith}
use akropolis_os_chain_node.Common.Words.{u128_mod}
use akropolis_os_chain_node.Common.Action.{ok, panicked, zoom}
use akropolis_os_chain_node.Types.{TransferMessage}
use akropolis_os_chain_node.Token.{lock, unlock, burn_tokens}
use akropolis_os_chain_node.Bridge.State.{Storage}
use akropolis_os_chain_node.Bridge.Execute.{
  withdraw, execute_burn, unlock_canceled, check_daily_holds,
}

check_daily_holds-ok :
    (m : TransferMessage) (s : Storage)
    → (check_daily_holds m s).0 ≡ ok tt
    → (check_daily_holds m s).1 ≡ s
unfolding check_daily_holds
check_daily_holds-ok m s h = ground arith

-- A withdrawal that is carried out locks the amount, takes it off the pending burns and moves no
-- balance.
pub withdraw-ok :
    (m : TransferMessage) (s : Storage)
    → (withdraw m s).0 ≡ ok tt
    → let t = (withdraw m s).1 in
      (t.token ≡ (lock m.token m.substrate_address m.amount s.token).1)
      × (t.current_pending_burn + m.amount ≡ s.current_pending_burn)
unfolding withdraw zoom
withdraw-ok m s h =
    let held = check_daily_holds-ok m s in (ground (arith, held), ground (arith, held))

-- A burn that succeeds takes exactly the amount from the account and leaves nothing of it locked, in
-- any later state in which as much of the account is locked as the withdrawal left. The stored
-- message agrees with the one carried out on the token, the account and the amount, and the balance
-- is a `u128`.
pub execute_burn-withdraw :
    (m stored : TransferMessage) (s t : Storage)
    → stored.token ≡ m.token
    → stored.substrate_address ≡ m.substrate_address
    → stored.amount ≡ m.amount
    → (withdraw m s).0 ≡ ok tt
    → t.token.locked m.token m.substrate_address
      ≡ (withdraw m s).1.token.locked m.token m.substrate_address
    → t.token.balance m.token m.substrate_address < u128_mod
    → t.transfer_messages m.message_id ≡ some stored
    → (execute_burn m.message_id t).0 ≡ ok tt
    → let u = (execute_burn m.message_id t).1 in
      (u.token.balance m.token m.substrate_address + m.amount
        ≡ t.token.balance m.token m.substrate_address)
      × (u.token.locked m.token m.substrate_address ≡ 0)
unfolding execute_burn zoom lock unlock burn_tokens
execute_burn-withdraw m stored s t a b c h same range found k =
    let done = withdraw-ok m s h in (ground (arith, done), ground (arith, done))

-- After a withdrawal that was carried out, canceling it in a later state succeeds and sets the tokens
-- free without a change of any balance, if as much of the account is locked as the withdrawal left.
-- If a withdrawal of less of the same token by the same account is carried out in the later state,
-- canceling the first one then panics.
pub unlock_canceled-withdraw :
    (m n : TransferMessage) (s t : Storage)
    → (withdraw m s).0 ≡ ok tt
    → n.token ≡ m.token
    → n.substrate_address ≡ m.substrate_address
    → n.amount < m.amount
    → (t.token.locked m.token m.substrate_address
          ≡ (withdraw m s).1.token.locked m.token m.substrate_address
        → let (r, u) = unlock_canceled m t in
          (r ≡ ok tt)
          × (u.token.balance ≡ t.token.balance)
          × (u.token.locked m.token m.substrate_address ≡ 0))
      × ((withdraw n t).0 ≡ ok tt → (unlock_canceled m (withdraw n t).1).0 ≡ panicked)
unfolding unlock_canceled zoom lock unlock
unlock_canceled-withdraw m n s t h a b less = (
  λ same.
      let done = withdraw-ok m s h in
      (ground (arith, done, same), ground (arith, done, same), ground (arith, done, same)),
  λ again. let over = withdraw-ok n t again in ground (arith, over),
)
