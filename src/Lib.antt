-- ===== src/Lib.antt =====
-- near-kit (crates/near-kit), a Rust client library for the NEAR protocol: its keys, actions and
-- transactions with their wire form, the messages signed off the chain, and the parts of the client
-- that hand out nonces, retry calls, classify a node's errors and send transactions.
--
-- Parts, and the files that model them:
--   Prelude      Tests on numbers, lists and text, Rust's `Result`, decimal numbers.
--   Borsh        The `borsh` crate and the crates for account IDs, amounts and contract IDs as one
--                record of codecs and a record of their laws; Borsh/Format is an instance.
--   Key          crates/near-kit/src/types/key.rs: `KeyType`, `PublicKey`, `PublicKeyHandle`,
--                `Signature`, their borsh and text forms, and `Signature::verify`. The crates for
--                curves, digests and base58 are the record `Crypto`, with laws in `IsCrypto`. Secret is
--                `SecretKey` as text, Sign its signatures, and Path and PathLaws are the paths of
--                types/hd.rs.
--   Action       types/action.rs: the enum `Action`, access keys, delegate actions, their codecs and
--                what is signed for them.
--   Transaction  types/transaction.rs: `Transaction`, `TransactionV1`, `VersionedTransaction` and the
--                signed forms; Signing compares all that the program signs.
--   Nep413       types/nep413.rs: messages, the bytes that are signed, their verification, and the
--                forms of a signature (Text).
--   Status       types/block_reference.rs: `TxExecutionStatus`, its order, and the diamond by its edges
--                (Diamond).
--   Amount       tokens/types.rs: `FtAmount`, its arithmetic, and decimal text for up to 38 decimals;
--                whitespace is that of ASCII.
--   Units        types/units.rs: `NearToken` and `Gas` from text with an ending, and the decimals of an
--                amount in NEAR; whitespace is that of ASCII, and `none` stands for a panic.
--   Client       error.rs, types/error.rs (Errors), client/nonce_manager.rs (Nonces, NonceOrder),
--                client/rpc.rs (Retry, RetryLaws, Backoff; Paging, PagingLaws for the queries that
--                follow pages), client/signer.rs (Signers), client/transaction.rs (Send and the files
--                named after it), types/wait_level.rs with the outcomes of types/rpc.rs (WaitLevel,
--                WaitLaws, WaitSend).
--   Builder      client/transaction.rs: `TransactionBuilder` and `CallBuilder` (Defs), chains of their
--                calls (Chain) and what a chain means (Meaning, Meant, Runs), `build` and `sign` (Sign,
--                FirstAttempt), `delegate` (Delegate, DelegateLaws). `none` stands for a panic.
--                `IntoGlobalContractId` of types/action.rs stands beside `deploy_from`.
--   Rpc          client/rpc.rs: what the client makes of a node's error: `parse_debug_str` (DebugStr,
--                Quoted), the classification of contract failures in both forms (Panics, Legacy), and
--                `parse_rpc_error` (Causes, Parse, Retryable, RetryLaws), one attempt of a call
--                (Attempt, AttemptLaws) and the retry loop over such attempts (Calls), with the parts
--                of error.rs, types/error.rs and types/hash.rs that they call. JSON values, serde's
--                readers and the validity of account IDs are parameters; whitespace is that of ASCII.
--   Tests        The theorems at concrete values.
--
-- How the parts interact: the codecs of Key are fields of those of Action, which are fields of those
-- of Transaction. Sending takes a key from a signer, a nonce from the nonce manager, builds and signs
-- a transaction, and decides by the node's answer; the node is an argument.
--
-- Bytes and text are lists of byte values, integers are natural numbers with the wrap-around written
-- where Rust's release build has one, and an array is its bytes with its length in a predicate. An
-- enum that a derive macro codes is written out: the index of the variant, then the fields.
-- `deserialize_reader` of `Action` and of `NonDelegateAction` call each other; the model follows such
-- calls to a depth, which Action.Reads compares. Loops are recursions on the number of attempts that
-- remain, or on a number of pages, for which the number of listed items is enough. An `async` call is
-- one step; the mutex of the nonce manager makes each `next` one step.
--
-- Not modelled: JSON and most base64 forms, HTTP transports, most RPC methods and views, random bytes and
-- seed phrases, the derivation of keys, signers that read files, the environment or a keyring, the
-- sandbox, the macros and logging. The text of most error messages is left out.
pub mod Prelude
pub mod Borsh
pub mod Key
pub mod Action
pub mod Transaction
pub mod Nep413
pub mod Status
pub mod Amount
pub mod Units
pub mod Client
pub mod Builder
pub mod Rpc
pub mod Tests
