-- ===== src/Lib.antt =====
-- The browser client of fincrypt: end-to-end encrypted personal finance. The server stores opaque
-- envelopes; keys, merging and summaries are the client's.
--
-- The parts, and how they interact. `web/src/crypto` seals records: a passphrase or a recovery
-- phrase gives a key (kdf.ts, recovery.ts) that wraps the one data key (keyHierarchy.ts), and the
-- data key gives a subkey for each record type, which seals records under additional data that
-- names user, type and record (aead.ts). lifecycle.ts changes passphrases and phrases.
-- `web/src/stores/sessionKeys.ts` keeps the data key while it is unlocked. `web/src/cache/db.ts`
-- holds four tables; `web/src/sync` queues mutations in them (outbox.ts), sends them (engine.ts) and
-- merges what the server answers (merge.ts). `web/src/domain/summaries.ts` adds up decrypted rows.
--
-- Files and what they model; a function keeps its name, in snake case.
--   Prelude and its children: texts as lists of UTF-16 code units, integers, maps in insertion order,
--     lists; Json with its children holds JSON.stringify and JSON.parse: Quote on string literals,
--     Number on numbers, Text on values, with fuel for as many calls as the text has units; each call
--     consumes one. No program code.
--   Crypto.Errors: web/src/crypto/errors.ts. A call that throws returns `err`.
--   Crypto.Json: JSON.parse as a call that throws.
--   Crypto.Platform: WebCrypto, TextEncoder, Unicode normalisation and the packages
--     @noble/hashes, hash-wasm and @scure/bip39, as a parameter with their documented facts.
--     `IsBinding` is the assumption that a ciphertext binds its key and its additional data; the
--     theorems that rest on it name it. Crypto.Toy is a platform on which all of it holds.
--   Crypto.Aead: web/src/crypto/aead.ts; Opening on decryption, Binding on additional data.
--   Crypto.KeyHierarchy: web/src/crypto/keyHierarchy.ts; Wraps on wrapped keys, Separation on the
--     additional data of wraps and records, Wrong on wraps opened with what they were not made for.
--   Crypto.Recovery: web/src/crypto/recovery.ts; Opening on wraps, Indices on `pickConfirmIndices`.
--   Crypto.Kdf: web/src/crypto/kdf.ts; Params on the parser.
--   Crypto.KdfWorker: web/src/crypto/kdfWorker.ts and kdfWorkerClient.ts.
--   Crypto.Lifecycle: web/src/crypto/lifecycle.ts; Change and Rotate on its two operations.
--   Crypto.IdleTimer: web/src/crypto/idleTimer.ts.
--   Crypto.Opaque: web/src/crypto/opaque.ts over the package @serenity-kit/opaque as a parameter,
--     whose `IsOpaque` states that a login runs through where the server holds the record of that
--     passphrase, and is turned down else; MockServer is web/src/crypto/mockOpaqueServer.ts, Login on a
--     login after a registration, Toy a package on which the facts hold.
--   Cache: web/src/cache/db.ts. Dexie's tables are the interfaces of Cache.Tables, which the lists of
--     Cache.Lists fill. Cache.Search: web/src/cache/search.ts over MiniSearch as a parameter.
--   Sync.Outbox: web/src/sync/outbox.ts; Deletes on the queue of deletes.
--   Sync.Merge: web/src/sync/merge.ts; Rows on one change, Order on many.
--   Sync.Engine: web/src/sync/engine.ts, `flush` and what it calls; Flush on the outbox, Deletes and
--     Deletes.Sent on the queued deletes. Sync.Scheduler: its timer and backoff.
--     Sync.Interleaving: flushes and saves that overlap, as a step relation between awaits; Safety
--     on what they keep.
--   Stores.SessionKeys: web/src/stores/sessionKeys.ts; Subkeys on what the store holds, Calls on
--     calls of `getSubkey` that overlap, Interrupted on one that a lock comes into, Identity on
--     `recordUserId`.
--   Stores.Auth: web/src/stores/authStore.ts; Attempts on what a call throws, Register and Login the
--     two operations, Entry and Released on the material that they send and return, Machine on the
--     store while calls are in flight.
--   Domain.Summaries: web/src/domain/summaries.ts; Grouping on maps that add up rows, Totals, Months
--     and Budgets on the three summaries.
--   Domain.Vault: web/src/domain/store.ts and web/src/crypto/b64.ts; RoundTrip on saves and loads,
--     Edits on edits that are not synced, Saves on a whole save and a later load, Stale on a save
--     after a lock and an unlock by phrase, Searches on the index.
--     Domain.Formats holds TextDecoder, btoa and atob as a parameter, which
--     Domain.ToyFormats fills.
--   Domain.Envelope: web/src/crypto/envelope.ts; Bounds on what the parser lets through, RoundTrip on
--     envelopes that were printed.
--   Api.Client: web/src/api/client.ts, and `logout` of web/src/api/auth.ts.
--   Pages.SignIn: the handlers of web/src/pages/Login.tsx and Register.tsx; Opening on a registration and
--     a login together, Outcomes on every end of a login.
--   Pages.Confirmation: web/src/components/RecoveryPhraseModal.tsx, the words that are asked for.
--   Pages.TransactionForm and Pages.Transactions: the handlers of web/src/pages/TransactionsPage.tsx;
--     Pages.Accounts: of AccountsPage.tsx; Pages.Budgets: of BudgetsPage.tsx; Saves on what the form queues, Pairs on transfers.
--   Pages.DevCrypto: the health check of web/src/pages/DevCrypto.tsx; Passes on its run.
--   The modules called Tests run the theorems on concrete inputs.
--
-- State is passed explicitly: the cache is a record of tables, the keystore a record of its fields.
-- What is random in the code (nonces, salts, `Math.random`) is an argument. An `await` does not
-- interrupt an operation, but in Sync.Interleaving, where the request of a flush is one, in
-- Stores.SessionKeys.Calls and Interrupted, where the derivation of a subkey is one, and in
-- Stores.Auth.Machine, where register and login begin and end in two steps.
-- Recursion is structural, except in `decimal`, whose fuel is the number that it prints: each digit
-- divides it by ten, so that much is more than enough; and in the reader of JSON, whose fuel is the
-- length of the text. `IsKept` are the values whose text is read as the value: all but those with a
-- number that is not an integer, which keeps its spelling.
--
-- The calls of the tables do not throw: a failure of the browser's storage is not modelled.
--
-- A call of a page's handler is one step, from the submission to the end of its last `await`; the
-- reload of the rows after it is `load_working`. What is typed is turned into a number by `Number`,
-- and names and dates are compared by `localeCompare`: both are arguments.
--
-- Not modelled: money in floating-point numbers (amounts are whole minor units); the text of an
-- envelope in the outbox, which the code prints and parses again (the object itself is kept); the
-- overwriting of key bytes by `zeroize` and memzero.ts; the rendering of the React pages,
-- and App.tsx, main.tsx, Home.tsx and ErrorBoundary.tsx, which are nothing else; the Go server.
pub mod Prelude
pub mod Crypto
pub mod Cache
pub mod Sync
pub mod Stores
pub mod Domain
pub mod Api
pub mod Pages
