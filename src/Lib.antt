-- ===== src/Lib.antt =====
-- Verification library of avok.js: the signing core of the wallet's popup.
--
-- An application opens the popup (packages/core/src/auth-popup) and sends it a request. The driver
-- pins the sender's origin, decodes the request from the bytes that would be signed, simulates its
-- calls, shows the lines, waits for the user's approval, makes one passkey gesture, signs, and replies.
-- The parts, and the files that model them:
--
--   Ceremony     packages/core/src/auth-popup/ceremony.ts. `runAuthPopup`, `runAuthRedirect`,
--                `driveRequest` and `runSign` are a step function on a page: `handler` takes window
--                messages, and `on_simulated`, `on_decision`, `on_signed`, `on_account` are what follows
--                each `await`. The page keeps the closures' variables and the trace of effects, newest
--                first. Rendering requests is the parameter `Rendering`.
--   Consent      packages/core/src/auth-popup/sign: consent.ts (Decode, TypedData, Request),
--                consent-display.ts (Lines, Display, Format), danger.ts (Danger), simulate-payload.ts
--                (Payload) and perform-sign.ts with the account of wallet/sandbox.ts and
--                evm/roster-signature.ts (Sign). Screen, Grants, Batch, Leaves, Fees, Severity,
--                Delegation and Roster hold the theorems.
--   Simulate     packages/core/src/vault/simulate: deltas.ts and client.ts, with the rows of
--                consent-display.ts in Simulate/Display.
--   Registry     contracts/src-ts: registry.ts, the table of chains (Profiles) and its lookups, and rpc.ts,
--                the endpoints of a chain (Rpc).
--   Channel      packages/core/src/channel: the application's side. channels/web.ts, whose tasks (messages,
--                the timeout, the poll and its deferred check) are the events of a step function
--                (Channel/Web); protocol.ts (Protocol); redirect-protocol.ts (Redirect) and channels/native.ts
--                (Native); storage.ts (Storage); connection.ts and authorize-proof.ts with
--                ../shared-origin/connection.ts (Connection: `connect`, `logout` and `restored_account` take
--                and give the memory and the store); signer.ts and sign-errors.ts (Signer).
--   Wallet       packages/core/src/wallet: passkey/label.ts (Handle), and sandbox.ts with crypto (Sandbox):
--                the functions that use a key, over a memory of buffers that a callback may change; wallet.ts,
--                device-enrollment.ts and signing.ts, which call them (Enrollment).
--   Recovery     packages/core/src/auth-popup/recover/ceremony.ts as a step function whose events are calls
--                and the settling of jobs, with ../../vault/recover and ../../evm/guardian-reads.ts
--                (Recovery/Guardians).
--   Client       packages/core/src/client: resolve.ts (Resolve), sponsored-userop.ts with evm/userop.ts
--                (UserOp), evm.ts (Send; Simulate with evm/simulate.ts and sim-methods.ts; Track, for `wait`,
--                with evm/track.ts), with evm/gas-model.ts and pricing.ts (Gas), and the
--                adapter of evm/rpc.ts (Rpc). Awaited calls leave a trace
--                of effects (Io). Discipline, Asked and Signed hold what the theorems of Rails and
--                Quote rest on.
--   Provider     packages/core/src/provider: `dispatch` with one function for each method (Types, Methods), the
--                send engine of internal/send.ts over Client (Engine), and the events of eip1193.ts (Events).
--   Helpers      packages/core/src/helpers: amount.ts (Amount), chains.ts and explorers.ts (Chains), balances.ts
--                (Balances), resolver.ts and resolve-recipient.ts over ens-resolver.ts (Names), errors.ts (Errors).
--   Vault        packages/vault/src/config.ts: `parse_vault_config`, the endpoints of the chains and
--                `baked_app_config` (Vault/Config).
--   Nonce        packages/core/src/nonce.ts: the allocators of nonces over a storage that may fail.
--   Popup        Ceremony with the rendering that Consent and Simulate implement, and the result URLs of
--                Channel/Redirect.
--   Base         Booleans, lists, texts, results and JSON-like values that the parts share.
--   Tests        The theorems at concrete inputs.
--
-- Numbers: `number` and `bigint` are natural numbers here. Amounts, values, chain numbers and nonces are
-- never negative in what is modelled; `BigInt` of a negative text is read as 0, which lies below every
-- threshold, like the negative number. Addresses and bytes are texts, and `toLowerCase` is that of ASCII,
-- which addresses and chain names are written in. `to_text` prints with fuel n + 1 for n, more than n has
-- digits. `hexadecimal` is the same in base 16. `wait` runs on fuel, one round for each millisecond and one more, which is enough since a round
-- takes a millisecond. No other loop runs on fuel: the rest is structural.
--
-- Code of other packages is a parameter: the browser's JSON, base64 and URLs (`Json`, `Browser`), viem's
-- decoders, hashing and serializing (`Viem`, `Crypto`, `Events`, `Verifier`), the curve (`Curve`), the
-- passkey, the RPC's answers, and the browser's events, which arrive in any order. A composite
-- request is assumed to be cast from untrusted data, so both spellings of its delegate can be there.
--
-- Not modelled: the calls of evm/rpc.ts that the client does not make, the listeners of the client and of the
-- provider, and the vault's headers and build tools, which are left for later; WebAuthn, page rendering and UI
-- bindings, which are browser I/O; contracts and vendored code, which are not TypeScript of this program.
pub mod Base
pub mod Consent
pub mod Ceremony
pub mod Registry
pub mod Simulate
pub mod Popup
pub mod Channel
pub mod Nonce
pub mod Wallet
pub mod Recovery
pub mod Client
pub mod Provider
pub mod Helpers
pub mod Vault
pub mod Tests
