-- ===== src/Lib.antt =====
-- The huski-bsc-contract repository: the merkle tree of an airdrop with its distributor, the
-- lending vaults and their workers, and the scripts that deploy them and change them through a
-- timelock.
--
-- The parts and their files:
--   * utils/merkle-tree.ts is Merkle.antt: `MerkleTree` has the class's three fields, `build_tree`
--     is the constructor, and the methods keep their names in snake case. The children are about
--     the order of the leaves (Sort), the loop (Layers), the fold of a proof (Proof), the index
--     of the leaves (Positions) and the whole tree (Tree).
--   * utils/balance-tree.ts is BalanceTree.antt, with `verifyProof` and `getProof`.
--   * utils/parse-balance-map.ts is BalanceMap.antt: one function for each `reduce` or `map` of
--     `parseBalanceMap`, composed in the order of the code, with its errors as values. The
--     children are about the reading (Read), the sum (Totals), the claims (Claims), the output
--     (Whole), the numbers that are encoded (Fits) and which inputs are accepted (Accepts).
--   * contracts/6/token/MerkleDistributor.sol is Distributor.antt: `isClaimed`, `_setClaimed` and
--     `claim`, with the payments that were made. Its children are about the bit map (Bits), any
--     sequence of claims (Once) and the claims that the parser puts out (Payable).
--   * contracts/6/token/FairLaunch.sol is FairLaunch.antt: the pools and their reward variables.
--   * contracts/6/protocol/configs/BasicVaultConfig.sol, and what the scripts call of
--     contracts/6/protocol/DebtToken.sol, Vault.sol and WNativeRelayer.sol, are Contracts.antt.
--   * contracts/6/protocol/workers/PancakeswapV2Worker.sol, its configuration
--     contracts/6/protocol/configs/WorkerConfig.sol and `setWorkersOk` of the strategies under
--     contracts/6/protocol/strategies/pancakeswapV2 are Workers.antt. Its children are about the
--     arithmetic of shares and trades (Shares), staking and unstaking (Stakes) and the states of a
--     worker (Reach).
--   * contracts/6/protocol/Vault.sol is Vault.antt for the money: the lenders' tokens, the positions
--     and their debt in `Accounts`, with the interest and the transfers in Payments and `deposit`,
--     `withdraw`, `work` and `kill` in Operations. The other children are about the debt (Debt), the
--     tokens that move (Moves), the steps of `work` and `kill` (Work, Kill), what these leave
--     (Conserved), what a position has to have (Covered), the lenders (Lenders) and the states of a
--     vault (Balanced).
--   * deploy/utils/file.ts and the results files under deploy/results are Deploy.antt, which also
--     has the steps of a script: a function of a `World`, the chain with the files.
--   * deploy/scripts/010-*.ts are Deploy/VaultConfigs.antt, and deploy/scripts/011-*.ts are
--     Deploy/Vaults.antt: one body for each series and one definition for each script.
--   * deploy/scripts/014-*.ts are Deploy/Workers.antt: a round of the loop, phase by phase, with
--     the tables of the eight scripts in Deploy/Workers/Tables.antt.
--   * deploy/setup/s001, s007, s009 to s012, s014 to s016 and s020, which queue transactions on the
--     timelock, are Deploy/Timelocks.antt: the arguments of each call in Requests, the loops and
--     branches in Scripts, with the tables in Tables; Plan has the list that each script is to queue.
--     The other children are about the runs of the scripts against these lists (Runs, Queued,
--     Accepted) and the signatures (Signatures).
--   * Base.antt has the names that all share, Evm.antt what the contracts share, and Tests.antt
--     the concrete inputs.
-- How they interact: `parseBalanceMap` calls the balance tree, which calls the merkle tree; the
-- distributor checks the proofs that come out of it. A 010 script creates a vault configuration and
-- appends an entry to the results file; the 011 script of the same number reads that entry, creates
-- the debt token and the vault, adds both to FairLaunch and fills the entry in. A 014 script reads the entry, creates a worker for each row of its table,
-- links it with the strategies and the two configurations, and lists it in the entry. The owner of
-- what has been deployed is the timelock in the end, and the scripts under setup queue the changes
-- on it. In `work` a vault sends tokens of its lenders to a worker, for the debt of a position; what
-- the worker sends back, there or in `kill`, pays the debt.
--
-- Conventions: numbers are natural numbers, a uint256 is bounded by the checks of `SafeMath`, and
-- `uint256(-1)` is 2 ^ 256 - 1. A buffer or a string is the list of its bytes or code units. A
-- mapping is a function, an object with string keys an association list. A transaction that
-- reverts changes nothing but the deployer's nonce; a script that throws keeps what it has done.
-- The deployment of a proxy counts as one transaction. A call of `queueTransaction` that is refused
-- is not sent, since the estimate of its gas fails. A contract's counter of positions does not wrap
-- around: each position takes a transaction.
-- The loop over the layers has fuel of one round for each leaf, which is enough because a round
-- halves the layer; the digits of a number have fuel of one round for each unit of the number.
--
-- Other people's code is a parameter: ethereumjs-util (`Crypto`), ethers (`Ethers`), OpenZeppelin
-- (`OpenZeppelin`, and `Callees` for the distributor) and PancakeSwap (`PancakeSwap` and `Stake`),
-- with the documented behaviour that is relied on in `IsFaithfulHex`, `IsDocumented` and
-- `IsMerkleProof`. The balances of stake tokens and the HUSKY token are seen through `Block`. The
-- contracts that a vault calls, its token and its workers among them, are a `Call`: what they
-- return, with `IsExactToken` and `IsExactShare` where the tokens move, are minted and are burnt
-- exactly. Of a worker nothing is assumed. Compound's timelock and the coder of ethers are a
-- `Timelocks`; an address of a table is its number, without the check of its capital letters.
--
-- Not modelled: deposits, withdrawals and badges of FairLaunch; the functions of a vault that
-- strategies call, its serial codes and its guards against reentrance, so that each transaction
-- runs alone; the interest models; the trades of workers and strategies on PancakeSwap; the
-- execution of what is queued on the timelock, and the other scripts; log output, waiting and gas;
-- transactions of others between the steps of a script; the implementation contract behind a proxy,
-- and the commented-out parts of the scripts.
pub mod Base
pub mod Merkle
pub mod BalanceTree
pub mod BalanceMap
pub mod Distributor
pub mod Evm
pub mod FairLaunch
pub mod Contracts
pub mod Deploy
pub mod Tests
pub mod Workers
pub mod Vault
