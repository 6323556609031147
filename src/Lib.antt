-- ===== src/Lib.antt =====
-- zkOS monorepo: executable models of the shielder SDK and relayer, with proofs.
--
-- The program lets a user keep a shielded balance behind zero-knowledge proofs. An account
-- (crates/shielder-account) is a list of actions and the secrets derived from an id and a nonce; it
-- prepares the calls of the shielder contract, which bind public data by commitments
-- (crates/shielder-contract) and charge a protocol fee (crates/shielder-setup). A withdrawal may go
-- through a relayer (crates/shielder-relayer), which quotes fees from prices that it fetches,
-- remembers its quotes for a while, checks each request against them and hands it to a worker, which
-- sends it to the node, dry first if the dry-run switch says so. The command-line client
-- (crates/shielder-cli) drives an account through deposits and withdrawals, and recovers it from the
-- chain, and keeps its state in an encrypted file and its proving keys in others, from parameters
-- that crates/powers-of-tau imports. A proof may also be made in an enclave, behind a web server
-- (tee/crates). crates/memo-scan reads the memos of a range of blocks, and crates/ar-cli keeps a table
-- of the chain's events for the anonymity revoker, collects viewing keys, and matches the two;
-- crates/token-distributor gives tokens to test accounts.
--
-- Which file models which part:
--   Base                 shared names, machine words, byte encodings, association lists
--   Outcome              results of fallible Rust functions: a value, an error or a panic
--   Setup/Version        crates/shielder-setup/lib.rs, module version: ContractVersion
--   Setup/ProtocolFee    the same file, module protocol_fee; Setup/FeeRounding has the theorems
--   Conversions          crates/type-conversions/lib.rs; Conversions/Roundtrip has the theorems
--   Token                Token of crates/shielder-account/src/lib.rs
--   Account/Action       crates/shielder-account/src/shielder_action.rs and the contract's events
--   Account/State        ShielderAccount of crates/shielder-account/src/lib.rs: register_action,
--                        note, prenullifier, next_nullifier, previous_nullifier, current_leaf_index;
--                        Account/Balance, History and Nullifiers have the theorems
--   Account/Secrets      crates/shielder-account/src/secrets.rs; Account/Preimages has the theorems
--   Calls/Types          the calls of crates/shielder-account/src/call_data.rs and their conversions;
--                        Calls/Dispatch has the theorem
--   Calls/Knowledge      prepare_prover_knowledge, prepare_call_data and prepare_call of the three
--                        call types of the same file; Calls/Prepared has the theorem
--   Calls/Commitment     the commitments of crates/shielder-contract/src/lib.rs
--   Relayer/Fee          crates/shielder-relayer/src/fee.rs; Relayer/Fee/Bounds has the theorems
--   Relayer/QuoteCache   crates/shielder-relayer/src/quote_cache.rs; its child History the theorems
--   Relayer/TokenKind    crates/shielder-relayer/src/token.rs
--   Relayer/Prices       crates/shielder-relayer/src/price_feed: new, price, update, validate;
--                        Relayer/Prices/Recent and Update have the theorems, over the invariant of
--                        Relayer/Prices/Stamped
--   Relayer/Trace        crates/shielder-relayer/src/relay/request_trace.rs
--   Relayer/DryRun       crates/shielder-relayer/src/relay/monitoring.rs; Switch has the theorem
--   Relayer/Worker       the worker's loop body of crates/shielder-relayer/src/relay/taskmaster.rs;
--                        Relayer/Worker/Safety has the theorem
--   Relayer/Service      the handlers: Quote for crates/shielder-relayer/src/quote.rs, Relay for
--                        relay/mod.rs; Checked, Quoted and Counted have the theorems
--   Relayer/Config       crates/shielder-relayer/src/config and environment_variables.rs; Precedence
--                        has the theorem
--   Relayer/Recharge     crates/shielder-relayer/src/recharge.rs; Funded has the theorem
--   Relayer/Monitor      crates/shielder-relayer/src/monitor and health_endpoint.rs; Paced and
--                        Refreshed have the theorems
--   Recovery             crates/shielder-contract/src/recovery.rs and the loop of
--                        crates/shielder-cli/src/recovery.rs; Search and Loop have the theorems
--   MerklePath           crates/shielder-contract/src/merkle_path.rs; Cells has the theorem
--   Client               crates/shielder-cli/src/app_state.rs: accounts and remembered fees;
--                        Client/Deposit, Withdraw and Recover for shielder_ops/deposit.rs,
--                        shielder_ops/new_account.rs, shielder_ops/withdraw.rs and recovery.rs;
--                        Client/Paid has what their calls transfer, Client/Credited and Withdrawn
--                        have the theorems
--   Client/App           the commands of crates/shielder-cli/src/config.rs and the functions of
--                        src/main.rs that perform them; Client/StateFile for src/state_file.rs,
--                        main and crates/content-encryption/lib.rs; Session has the theorem
--   Client/Equipment     crates/shielder-cli/src/shielder_ops/pk.rs; Cached has the theorem
--   PowersOfTau          crates/powers-of-tau/lib.rs; PowersOfTau/Layout says what a file looks like,
--                        and Imported has the theorem
--   Prover               tee/crates/shielder-prover-common/src: protocol.rs and vsock.rs;
--                        Prover/Server for tee/crates/shielder-prover-tee/src/server.rs, Prover/Proxy
--                        for tee/crates/shielder-prover-server/src/handlers and error.rs;
--                        Connection and Sealed have the theorems
--   Prover/Circuits      tee/crates/shielder-prover-tee/src/circuits, with a child for each circuit;
--                        Encoded and Remote have the theorems
--   Scan                 crates/memo-scan/src: Scan/Deployment for utils.rs, Scan/Batches for scan.rs;
--                        Scan/Blocks has the theorems
--   Indexer              crates/ar-cli/src/index_events.rs and its tables in crates/ar-cli/src/db.rs;
--                        Indexer/Collect for collect_viewing_keys.rs, Indexer/Revoke for revoke.rs;
--                        Indexer/Reveal for reveal.rs, Indexer/Retry for main.rs, Indexer/Keypair for
--                        common.rs and generate.rs; Indexed, Collected, Revoked, Revealed, Retry and
--                        Generated have the theorems
--   Distributor          crates/token-distributor/main.rs; Distributor/Endowed has the theorem
--   Tests                instances of the parameters, and the theorems at concrete inputs
--
-- Numbers are natural numbers. The operators of U256 and U512 wrap, as those of the crate ruint do,
-- and the modulus is written out; the nonce wraps at 32 bits, as in a release build. A panic is a
-- value: `none`, or `panic` of Outcome. Byte strings are lists of numbers below 256, addresses
-- numbers below 2 ^ 160. Times are numbers, and what now_utc returns is an argument. What several
-- tasks share (the quote cache, a price cell, the dry-run counter) is locked or atomic in the code,
-- so that its history is a sequence of whole calls, in any order.
--
-- Parameters, for code that is not in the repository: the field and its representation
-- (halo2curves), Keccak-256 (sha3, alloy), note hashing and the circuits (shielder_circuits), the
-- hash of the revoker's commitments and the decryption of its keys, the decimals of prices
-- (rust_decimal), the price service, the node, the encryption of the enclave (ecies_encryption_lib)
-- and of the state file (argon2, XChaCha20-Poly1305), JSON, sockets and the curves of the .ptau files.
-- Their laws are hypotheses: IsCanonical and HasRepr for fields, an equivalence for decimals,
-- IsKeyPair, IsKept and IsLossless for encryption and encoding, IsMontgomery and HasCoordinates for
-- the curves, IsFaithful for the keys in files, and the two IsLedger for balances on the chain.
--
-- All recursion is structural but for six loops, which run on fuel: the scan and the indexer are
-- given one unit for each block up to the last and two more, the search for the deployment one for
-- each block and one more, the recovery of an account a number that is enough when it exceeds the
-- number of actions on the chain, a connection to the enclave one that is enough when it exceeds
-- the number of frames to read, and the commands of the revoker one that is enough when it exceeds
-- the number of refusals. The first four give a panic or an error when they run out, and the last two
-- the success, or the lack of a result, that they have in no other case; the theorems show that none
-- runs out.
--
-- Not modelled: serialisation, logging, HTTP routing, the tokio runtime, the proofs themselves, the
-- parsing of command lines, and the generator of the verifier contracts. crates/halo2-verifier,
-- crates/fee-estimator, crates/stress-testing, crates/shielder_bindings, and the mnemonic phrases and
-- what is printed in crates/ar-cli have no model.
pub mod Base
pub mod Setup
pub mod Conversions
pub mod Outcome
pub mod Token
pub mod Account
pub mod Calls
pub mod Relayer
pub mod Scan
pub mod Recovery
pub mod MerklePath
pub mod Client
pub mod Indexer
pub mod Prover
pub mod PowersOfTau
pub mod Distributor
mod Tests
