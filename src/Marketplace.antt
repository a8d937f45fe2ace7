-- ===== src/Marketplace.antt =====
-- The marketplace pallet, runtime/src/marketplace.rs: it stores the last investment and emits
-- events.
use akropolis_os_chain_node.Common.{ℕ, List, [], ◌∷◌, ◌++◌, Option, some}
use akropolis_os_chain_node.Common.Action.{Action, modify, ◌>>=◌, ◌>>◌}
use akropolis_os_chain_node.Origin.{Origin, ensure_signed}

pub data Event : Type 0 where
  new_investment : ℕ → ℕ → Event
  investment_proposed : ℕ → List ℕ → ℕ → ℕ → ℕ → ℕ → ℕ → Event

pub record Storage : Type 0 where
  pub something : Option ℕ
  pub events : List Event

unfoldable pub deposit_event : Event → Action Storage Unit
deposit_event e = modify λ s. record s { events = s.events ++ e ∷ [] }

unfoldable pub put_something : ℕ → Action Storage Unit
put_something v = modify λ s. record s { something = some v }

unfoldable pub make_investment : Origin → ℕ → Action Storage Unit
unfolding ◌>>=◌ ensure_signed put_something deposit_event
make_investment origin proposal_id = do
  who ← ensure_signed origin
  put_something proposal_id
  deposit_event (Event.new_investment proposal_id who)

unfoldable pub propose_investment : ℕ → List ℕ → ℕ → ℕ → ℕ → ℕ → ℕ → Action Storage Unit
unfolding deposit_event
propose_investment dao_id description days rate token price value =
    deposit_event (Event.investment_proposed dao_id description days rate token price value)
