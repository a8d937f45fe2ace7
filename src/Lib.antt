-- ===== src/Lib.antt =====
-- Verification of the runtime of the Akropolis OS chain node: the pallets under runtime/src, which
-- are the state machine of the chain, their composition in the runtime, and the states that its
-- test networks start from; of the factory that fills a chain with blocks of transfers; of the
-- command that prints blocks and extrinsics; and of the node that runs all this.
--
-- The program and its model
--
-- A pallet is a storage and calls that read and write it. Here each storage is a record with a
-- field for each storage item, its events among them, and each call is an `Action`: a function from
-- a storage to an outcome and a storage. An outcome is a value, an error or a panic. What a call
-- wrote before it returned an error stays, as in this version of the framework. Where the
-- code calls another pallet, the storage of the caller holds the storage of that pallet, and the
-- call acts on it.
--
--   Common          lists, Boolean tests, machine words, storage maps, actions, and what actions keep
--   Errors, Origin  the error messages as constructors; `ensure_signed` and `ensure_none`
--   Types           runtime/src/types.rs
--   Token           runtime/src/token.rs. `_burn` and `_mint` are burn_tokens and mint_tokens; the
--                   calls are in Token/Calls, and Token/Genesis builds the first state. Proofs:
--                   Effects, Conservation, Allowances, Backing and Solvency (who holds the supply of
--                   token 0), and Refinement, which reads the calls as steps of the ledger in
--                   Token/Ledger.
--   Votes           `votes_are_enough` of runtime/src/bridge.rs and runtime/src/dao.rs, which divides
--                   two floats. Proofs: Threshold.
--   Bridge          runtime/src/bridge.rs. State has the storage, Limits the checks of amounts,
--                   Messages the index of transfers and the statuses, Execute what is done once
--                   validators agree, Sign the vote `_sign`, Calls the calls and `on_finalize`, Run
--                   histories of calls, Genesis the first state. `_cancel_transfer` is
--                   unlock_canceled and `_update_limits` is put_limits. Proofs: Invariant and its
--                   children (every action keeps what its writes keep), Index, Bounds, Quorum,
--                   Requests, Withdrawals, Run, Decisions (the deciding vote), Reopening (votes that
--                   are cleared), Trust and Voters (whose votes are counted).
--   PriceOracle     runtime/src/price_oracle.rs; the offchain worker is in PriceOracle/Fetch. Proofs:
--                   Aggregation, Worker.
--   Marketplace     runtime/src/marketplace.rs
--   Dao             runtime/src/dao.rs. State has the storage, Members the lists of members and the
--                   checks of names and sizes, Execution what an accepted proposal does, Proposals
--                   the calls that open one, Calls the other calls and `on_finalize`, Run histories of
--                   calls, Genesis the first state. Proofs: Invariant (what calls keep that their
--                   writes keep), Roster, Founding, Admission, Ballots, Bounds, Tally, Expiry, Loans.
--   ChainSpec       the genesis configurations of cli/src/chain_spec.rs, with the amounts of
--                   runtime/src/constants.rs; the staging network is in ChainSpec/Staging. Proofs:
--                   Balances, and Start, on the states that the pallets build from them.
--   Fees            runtime/src/impls.rs: the conversions between balances and votes, and in Weights
--                   the fee of a weight and how its multiplier follows the load; DealWithFees of
--                   runtime/src/lib.rs.
--   Runtime         `construct_runtime!` of runtime/src/lib.rs: the five pallets over one state, their
--                   calls, and what else changes the state between two calls. Proofs: Composition
--                   (what a pallet keeps, the runtime keeps), Start (from the first block of a test
--                   network on), Unguarded (minting without the bridge), Overdraft (burns of an
--                   account with locked tokens, for which Histories has a history of a test network).
--                   Signing has `create_transaction` with its proofs.
--   Factory         transaction-factory/src/lib.rs, with the chain of cli/src/factory_impl.rs. Proofs:
--                   Progress, Termination, Contents (the blocks and their transfers).
--   Inspect         inspect/src: the addresses that command.rs reads, and in Printer the inspector of
--                   lib.rs with its default printer, and the command. A line that is printed is a
--                   constructor of Line. Proofs: Address, Consistency (the two sub-commands).
--   Node            cli/src: the networks of lib.rs with their configurations in chain_spec.rs, in
--                   Service the nodes of service.rs and the tasks they start, and in Command the
--                   commands of command.rs, which run the factory and the inspector. Proofs: Tasks,
--                   Manufacture (the factory command).
--
-- The bridge and the dao pallets call the token pallet, and the dao pallet also reads the price
-- oracle and calls the marketplace. In the runtime each pallet sees the one storage of the token
-- pallet; views of the state, and functions that put them back, say so. Modules named Tests hold
-- concrete states at which the theorems are applied.
--
-- Numbers
--
-- Amounts are `u128`, ids and counts of members `u64`, block numbers, token ids and numbers of
-- validators `u32`. They are natural numbers here; `checked_add` and `checked_sub` fail as in the
-- code, and the plain operators wrap around, as in a release build. The rounding of `votes as f64`
-- recurs on fuel: twelve rounds are enough for every `u64`, of which the numerator has at most
-- eleven bits beyond the 53 of a float (round_from-enough). The loop of the factory recurs on fuel:
-- one round for each block and one more are enough.
--
-- Parameters
--
-- The hash of an encoding, the time, the block number and the balances pallet of the framework are
-- parameters: the records Env and Runtime, `lookup` in the calls of the token pallet, together the
-- Context of a call of the runtime, and Keys, the keys that a seed gives. The client and the
-- cryptography of the factory are the records Client and Crypto, and Ledger says what the client
-- keeps of what is pushed and imported; the fixed point numbers and the imbalances of the
-- framework are Fixed and Imbalances; the database of the chain with the codec, and the readers of
-- hashes, numbers and bytes, are Chain and Readers; the specifications of networks, the builder of
-- services and the options of commands are Specs, Library and Options, and Framework; the keys
-- that sign for the runtime are Signer. The HTTP client, the JSON library, floats and the pool of
-- transactions that the offchain worker uses are the record Library.
--
-- What is not modelled
--
-- The weights of the calls; the storage item OpenDaoProposalsIndex, which nothing reads or writes;
-- the pallets of the framework that runtime/src/lib.rs configures, their parameter types, and the
-- runtime API, which passes each call on to them; what the author does with its fees
-- (runtime/src/impls.rs); the time units of runtime/src/constants.rs but for those above; the
-- contents of the two networks that the crate cli reads from JSON files, but for their ids, its
-- browser module and the version that it prints; the crates executor and testing, and the crate
-- rpc, which the node does not call; and the Ethereum contracts in bridge/dai-home.
pub mod Common
pub mod Errors
pub mod Types
pub mod Origin
pub mod Token
pub mod Votes
pub mod Bridge
pub mod PriceOracle
pub mod Marketplace
pub mod Dao
pub mod ChainSpec
pub mod Fees
pub mod Runtime
pub mod Factory
pub mod Inspect
pub mod Node
