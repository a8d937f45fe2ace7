-- ===== src/Token/Effects.antt =====
-- What calls of the token pallet do one after another: mint and burn, lock and unlock, and the
-- total supply.
use akropolis_os_chain_node.Common.{ℕ, ◌+◌, ◌≤◌, ◌<◌, ◌≡◌, ◌≢◌, arith}
use akropolis_os_chain_node.Common.Words.{u128_mod}
use akropolis_os_chain_node.Common.Action.{ok, panicked}
use akropolis_os_chain_node.Common.Maps.{update, update₂}
use akropolis_os_chain_node.Token.{Storage, burn_tokens, mint_tokens, make_transfer, lock, unlock}

-- Below the `u128` bounds, minting a nonzero amount adds it to the balance of the account and sets
-- the total supply of the token to that of token 0 plus the amount. Nothing else changes.
pub mint_tokens-ok :
    (token_id to amount : ℕ) (s : Storage)
    → amount ≢ 0
    → s.balance token_id to + amount < u128_mod
    → s.total_supply 0 + amount < u128_mod
    → mint_tokens token_id to amount s ≡ (
      ok tt,
      record s {
        balance = update₂ s.balance token_id to (s.balance token_id to + amount);
        total_supply = update s.total_supply token_id (s.total_supply 0 + amount);
      },
    )
unfolding mint_tokens
mint_tokens-ok token_id to amount s h k l = ground arith

-- A nonzero amount that is minted of token 0 for an account with no locked tokens, within the `u128`
-- bounds, can be burned again, and every balance and every total supply is then as before.
burn_tokens-mint_tokens :
    (to amount : ℕ) (s : Storage)
    → amount ≢ 0
    → s.locked 0 to ≡ 0
    → s.balance 0 to + amount < u128_mod
    → s.total_supply 0 + amount < u128_mod
    → let (r, t) = burn_tokens 0 to amount (mint_tokens 0 to amount s).1 in
      (r ≡ ok tt)
      × ((i j : ℕ) → t.balance i j ≡ s.balance i j)
      × ((i : ℕ) → t.total_supply i ≡ s.total_supply i)
unfolding mint_tokens burn_tokens
burn_tokens-mint_tokens to amount s h l k m = (ground arith, λ i j. ground arith, λ i. ground arith)

-- After two mints that succeed, of a token other than token 0, its total supply is that of token 0 plus the
-- second amount: the first amount is not counted.
total_supply-mint_twice :
    (token_id to to' x y : ℕ) (s : Storage)
    → token_id ≢ 0
    → (mint_tokens token_id to x s).0 ≡ ok tt
    → (mint_tokens token_id to' y (mint_tokens token_id to x s).1).0 ≡ ok tt
    → (mint_tokens token_id to' y (mint_tokens token_id to x s).1).1.total_supply token_id
      ≡ s.total_supply 0 + y
unfolding mint_tokens
total_supply-mint_twice token_id to to' x y s h k l = ground arith

-- A burn that succeeds leaves the account with its balance less the locked tokens and the amount,
-- so that the locked tokens are lost too. The balance is a `u128` and covers what is locked.
balance-burn_tokens :
    (token_id from amount : ℕ) (s : Storage)
    → s.balance token_id from < u128_mod
    → s.locked token_id from ≤ s.balance token_id from
    → (burn_tokens token_id from amount s).0 ≡ ok tt
    → (burn_tokens token_id from amount s).1.balance token_id from + s.locked token_id from + amount
      ≡ s.balance token_id from
unfolding burn_tokens
balance-burn_tokens token_id from amount s h k l = ground arith

-- Unlocking the amount that was just locked succeeds, and leaves nothing of this account locked,
-- whatever was locked before.
pub unlock-lock :
    (token_id account amount : ℕ) (s : Storage)
    → let (r, t) = unlock token_id account amount (lock token_id account amount s).1 in
      (r ≡ ok tt)
      × ((i j : ℕ) → t.locked i j ≡ update₂ s.locked token_id account 0 i j)
      × (t.balance ≡ s.balance)
unfolding lock unlock
unlock-lock token_id account amount s = (ground arith, λ i j. ground arith, ground arith)

-- Of two locks on one account only the second is kept: once it is unlocked, unlocking the nonzero
-- amount of the first panics.
pub unlock-lock_twice :
    (token_id account x y : ℕ) (s : Storage)
    → x ≢ 0
    → let t = (lock token_id account y (lock token_id account x s).1).1 in
      (unlock token_id account x (unlock token_id account y t).1).0 ≡ panicked
unfolding lock unlock
unlock-lock_twice token_id account x y s h = ground arith

-- A transfer that succeeds takes no locked token: what the sender has left covers what is locked.
-- The balances and the locked amount of the sender are in range before.
pub make_transfer-locked :
    (token_id from to amount : ℕ) (s : Storage)
    → s.balance token_id from < u128_mod
    → s.balance token_id to + amount < u128_mod
    → s.locked token_id from ≤ s.balance token_id from
    → (make_transfer token_id from to amount s).0 ≡ ok tt
    → s.locked token_id from ≤ (make_transfer token_id from to amount s).1.balance token_id from
unfolding make_transfer
make_transfer-locked token_id from to amount s h k l e = ground arith
