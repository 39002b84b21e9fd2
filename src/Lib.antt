-- ===== src/Lib.antt =====
-- The browser page of wosh, an SSH client in a browser tab: models of its modules under site/ and
-- what they promise.
--
-- The page dials a listener through a component (Rust and Go behind WIT) that is a black box here:
-- what it answers is an argument of the models. The parts and their files:
--
-- App.Connect: `settle` and `connect` of site/app.mjs, from the dial to the start of the pump, as a
-- function from everything that the component and the user answer to the sequence of calls that the
-- page makes and how the attempt ends. A call of the component that `connect` awaits may be rejected,
-- except `detach`; the page's own sheets and its writes to the terminal are not. Fuel is not needed: an answer that never comes is a list
-- that ends, and the outcome is then `waiting`.
--
-- App.Gate: `serializeSession` and `enterPatiently` of site/app.mjs. The promise chain is a step
-- relation on the calls in the order in which they were made; the retry loop is a function of the
-- answers it gets and the time each takes.
--
-- App.Painter: `flush` and `paint` of site/app.mjs with the frame and the timer that they schedule.
--
-- App.Scrollback: `claimTerminal`, `restoreScrollback`, `dumpWorthSaving` and `saveScrollback` of
-- site/app.mjs. The screen is the list of the keys that its content came from, a model variable
-- that the page does not have.
--
-- App.Input: the handlers of `onData`, `onBinary` and `onResize` that `wireInput` of site/app.mjs
-- installs, with the failure flag that `fatal` sets and the current session.
--
-- App.Pump: the loop at the end of `connect` that drains a session, as a function from what its
-- rounds meet to the calls that it makes.
--
-- App.Ending: `sessionEnded` and `detach` of site/app.mjs; what `sessionEnded` does after it has
-- asked how the session ended is an event of its own.
--
-- Sessions: site/sessions.mjs. `validName`, the command lines of the presets, `matchCommand` with
-- its regular expressions as backtracking matchers (Prelude.Regex), `parseDetect`, and the four
-- parsers of session lists.
--
-- AuthorizedKeys: `cleanComment` and `installCommand` of site/authorized-keys.mjs. How a shell
-- reads single quotes is written down apart, in AuthorizedKeys.Quoting.
--
-- EscWatch: `initEscWatch` of site/esc-watch.mjs, its closure as a record and its handlers as the
-- cases of `step`.
--
-- Mobile: `transformInput` of site/mobile.mjs with the sticky modifiers, and the press machine of a
-- key in the bar.
--
-- TransferWorker: site/transfer-worker.mjs, each message with its reply. What the browser answers to the
-- calls that a message makes of it comes with the message: handles that are not opened, writes that
-- throw or fall short, flushes that throw, directories that are not given. A message is one step: the
-- awaits inside an open or a remove are not interleaved with other messages.
--
-- Boot.Connstring: `endpointIdOf`, `connstringDetails` and `v3Connstring` of site/boot.mjs. The
-- fuel of `put_varint` is the length and one, and the round trip shows that this is enough.
--
-- Boot.History: `loadHistory`, `saveHistory`, `recordConnection`, `updateConnection`,
-- `clearStoredCommand` and `removeConnection` of site/boot.mjs, on the parsed JSON of storage.
--
-- Boot.Token: `decodeToken` of site/boot.mjs, and what the re-pair sheet submits of what is typed.
--
-- Boot.HostKeys: the pin store of site/boot.mjs, the question about a host key, `ui.confirmHostKey`
-- and `connstringFrom`. A child module runs it over many connections.
--
-- Boot.Dial: `doConnect` of site/boot.mjs with its callers, what ends a session there
-- (`autoReconnect`, `commandSessionEnded`, the listener of `wosh:session-ended`) and the sheets
-- that answer, as one machine whose events come in any order. A dial is begun by one event and
-- settled by another. The countdown of the home screen is an event that dials a card, without what
-- offers it and calls it off. When a new question takes a re-pair sheet's place, that sheet's continuation
-- is an event of its own.
--
-- BufferStore: `get`, `put` with its pruning, and `wipe` of site/buffer-store.mjs with the step at
-- which the database fails as an argument.
--
-- Links: the handler that `linkHandler` of site/links.mjs builds, with its dialog.
--
-- TouchSelect: four parts of site/touch-select.mjs. Refit has the refits deferred under a held
-- selection, Anchor the rows of the frozen mirror, Ratchet the scrolling at an edge, and Copy what
-- a copy puts on the clipboard.
--
-- TransferUi: `joinSegments`, with the buffer that it fills, `segsEqual` and `predictSavedName` of
-- site/transfer-ui.mjs. Its child Polling has `startPolling` with its ticks and the map of
-- transfers, where the answers to one tick are one step; Resumable has `loadResumable`,
-- `resumeDownload`, `retryTransfer` of a download and `discardResumable` on the records and the staged files, and Handoff has
-- `finishTransfer` for downloads, with its delayed removal, in any order with those.
--
-- TransferIo: site/transfer-io.ts. Rpc has `call` and the handler of the worker's replies, which
-- come in any order; Sink has `Source.read` and `Sink`, each call of which is one exchange with the
-- worker of TransferWorker.
--
-- PasskeyStore: site/passkey-store.ts. Records has the record with `usable`, `loadRecord`,
-- `saveRecord` and `clearRecord`, Der `derToRawEcdsaSignature` on 32-bit lengths, Ceremonies and
-- Asserting the calls of the interface. The authenticator, WebCrypto, the gate and how the database
-- answers are arguments.
--
-- IdentityStore: `identityPair` and `loadOrMint` of site/identity-store.ts in the tabs of one
-- browser, which take turns at their awaits, with `publicKey` and `sign`. A readwrite transaction
-- is one step.
--
-- PairingStore: `load` and `store` of site/pairing-store.ts.
--
-- ServiceWorker: the handlers of site/sw.js on the caches of the origin, through installations and
-- activations of any versions.
--
-- The App modules meet in `connect`: the gate carries every call that `connect` and its pump make,
-- the pump claims the terminal before it paints, and the saves of the scrollback read that claim.
-- Sessions gives the command line that `connect` runs and that Boot.Dial swaps; Boot.Dial reads the
-- pins of Boot.HostKeys and keeps the history of Boot.History; TransferIo.Sink sends its messages
-- to TransferWorker, whose refinement its results rest on. Calls that may throw have the results of
-- Prelude.Results.
--
-- Numbers are natural numbers: times are milliseconds of one clock, characters are UTF-16 code
-- units, and numbers that JavaScript would round are exact. What is not under the repository's
-- sources is a parameter: floating-point parsing (Sessions), upper case (Mobile, Boot.Token), the
-- distance of two points (Mobile.Press, Links), the parsing of URLs (Links, Boot.HostKeys), files
-- with a synchronous handle (TransferWorker), the authenticator and WebCrypto (PasskeyStore,
-- IdentityStore), the network (ServiceWorker), base64 and UTF-8 (Boot).
--
-- Not modelled: the screens, the preferences and the scan flow of site/boot.mjs, the touch scroller
-- of site/mobile.mjs, the rendering and the uploads of site/transfer-ui.mjs, the
-- handle refresh and the cell metrics of site/touch-select.mjs, site/qr.mjs, site/lifecycle.mjs,
-- site/overlay.mjs and site/separator.mjs, which are mostly calls of the browser's or xterm's
-- interfaces; site/polyengine-entry.ts, which passes the stores on; the gates under host-test/; the
-- Rust and Go components; the WIT texts. In `connect` the texts of the status line, the passkey
-- hint and the rules drawn into the scrollback are left out.
pub mod App
pub mod AuthorizedKeys
pub mod Boot
pub mod BufferStore
pub mod EscWatch
pub mod IdentityStore
pub mod Links
pub mod Mobile
pub mod PairingStore
pub mod PasskeyStore
pub mod Prelude
pub mod ServiceWorker
pub mod Sessions
pub mod TouchSelect
pub mod TransferIo
pub mod TransferUi
pub mod TransferWorker
