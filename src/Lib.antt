-- ===== src/Lib.antt =====
-- Trustline, the desktop client of a self-hosted end-to-end encrypted chat: the parts of
-- apps/desktop/src that carry its logic. The socket client keeps a connection to the server; what
-- it receives goes to the chat handlers, which let the orchestration decrypt a message with the
-- session in the local vault, store it, acknowledge it and show it.
--
-- Base: shared types, tests, lists, dictionaries and the monad `Exec` of a function that changes a
--   state and may throw; `Base64` and `Json` stand for the platform's codecs.
-- Socket: infrastructure/socket.ts, the class TrustlineSocket: `connect`, `send`, `destroy` and the
--   callbacks as functions on the state `Socket`; Socket.Events has a call or callback as an
--   `Event` and `run` for a sequence of them in any order.
-- Vault: infrastructure/vault.ts. Vault.Shared is the promise of initVault that calls share
--   between their awaits, Vault.Db has initVault as a whole and the tables, Vault.Transaction the
--   BEGIN, COMMIT and ROLLBACK of storeOtpkBatch and importVaultData, Vault.Keyed the sessions,
--   the device id and the story keys, Vault.Messages and Vault.History the messages and their
--   events, Vault.Otpk the one-time pre-keys, with an abstract store of them in
--   Vault.Otpk.Keystore and infrastructure/otpk.ts in Vault.Otpk.Upkeep; Vault.Otpk.Steps is
--   consumeOtpkPrivateKey between its awaits, for calls that run interleaved. Vault.Written and
--   Vault.Otpk.Written say what the vault holds where an operation has returned. Vault.Keys has
--   the device's keys with AES-GCM and the text codec as the parameter `Cipher`, Vault.Buffers the
--   conversions that make a `Base64` of the browser's btoa and atob, Vault.Search searchMessages
--   over a parameter for what the index matches. Each operation is a function of `Exec Db`; the
--   list `faults` of the state decides which statements fail.
-- Orchestration: infrastructure/crypto_orchestration.ts, processIncomingMessage; the commands of the
--   native library are the parameter `Ratchet`. Orchestration.Queue is incomingMessageQueue, the
--   promises of the calls for each conversation, as a step relation.
-- Chat: features/chat/useChat.ts, the handlers, on the state `Client` of vault, socket and store.
--   Chat.Reports has those of status reports, confirmations, typing and story keys.
-- Wire: the payloads that the client hands to the socket.
-- Arena: features/chat/ChatArena.tsx, the composer on the state `Arena`: sendMessage, Arena.Events
--   with sendEvent, sendEdit and sendDelete, Arena.Composer with the keys and the typing marks,
--   Arena.View with what is shown. Arena.Relay is what crates/backend/src/ws.rs makes of a message on
--   its way to the recipient; Arena.Talk, Arena.Exchange and Arena.Conversation put sender, server and
--   receiver together, over a hypothesis `Sealing` on the native library.
-- Stories: features/stories/useStoryWorkflows.ts, and in Stories.Viewer StoryViewer.tsx.
-- Auth: features/auth/AuthFlow.tsx on the state `AuthFlow`, with what the server, the native library
--   and the random source give to one handler as the record `World`: Auth.Request, Auth.Login and
--   Auth.Setup have the handlers, Auth.Claims the decoding of a token, Auth.Accounts saveAccount,
--   Auth.Organisation the organisation that OnboardingScreen.tsx names.
-- App: hooks/useAppInitialization.ts and the choice of the view in app/App.tsx; App.Dispatch hands the
--   socket's messages to the handlers of Chat, App.Onboarding is the end of OnboardingWizard.tsx.
-- Errors: utils/errors.ts, the categories and the texts that are shown; Errors.Attempt is the monad of
--   a function that may throw one of them.
-- Api: infrastructure/api.ts. `request_json` is requestJson on the state `Net` of the token, the answers
--   to come and the requests made; Api.Endpoints has the functions that call it as requests,
--   Api.Health the two probes.
-- Stores: the files of stores/, each store a record with its setters.
-- Toasts: components/ui/Toast.tsx, the list of messages of ToastProvider.
-- Workflows: hooks/useChatWorkflows.ts, startChat and the sets of muted and pinned contacts,
--   which Workflows.Kept has in localStorage.
-- Profile: hooks/useProfileWorkflows.ts.
-- Sidebar: components/layout/Sidebar.tsx, the groups of the contacts.
-- Shell: layouts/MainShell.tsx, the edge of the sidebar that the mouse drags.
-- Config: constants/config.ts, the addresses of the server.
-- ContextMenu: components/ui/ContextMenu.tsx, its place and when it is closed.
-- Identity: components/ui/SafetyNumberModal.tsx and features/chat/IdentityModal.tsx, over the hash and
--   the encoder as parameters.
-- Commands: infrastructure/crypto.ts and the other callers of `invoke`, with the parameters that
--   src-tauri/src/lib.rs declares.
-- Admin: features/admin/AdminPanel.tsx, and the filters, the health and the wiping of the vault below
--   features/admin/dashboard.
-- Confirm: components/ui/ConfirmDialog.tsx.
-- Samples: concrete codecs, a cipher and a ratchet for the tests.
--
-- Loops are structural recursion on the lists that they walk; no function needs fuel. Of the
-- socket the address and the device's query parameter are left out, and that a send on a socket
-- which is closing fails. But in Vault.Shared, Vault.Otpk.Steps and Orchestration.Queue an
-- asynchronous function runs to its end before the next one starts. That every call of the
-- database plugin works on one connection is an assumption, which the repository does not state;
-- rows of equal timestamps keep the order of insertion; the search index is left out, but for the
-- statements that set it up. What the random source gives is an argument. A field of a JSON object
-- counts where it is a string. The chat handlers work on a record of their own in place of the
-- chat store. What is left of the views is mostly rendering and is not modelled, and neither are
-- the server but for the relay of a message, and the native library but for the parameters of its
-- commands.
pub mod Identity
pub mod Shell
pub mod ContextMenu
pub mod Config
pub mod Commands
pub mod Base
pub mod Samples
pub mod Socket
pub mod Vault
pub mod Orchestration
pub mod Wire
pub mod Chat
pub mod Errors
pub mod Api
pub mod Stores
pub mod Toasts
pub mod Workflows
pub mod Profile
pub mod Arena
pub mod Stories
pub mod Auth
pub mod App
pub mod Sidebar
pub mod Admin
pub mod Confirm
