-- ===== src/Lib.antt =====
-- fleet-agent, the web client (apps/web/src): the logic that the browser owns.
--
-- The client keeps LLM providers and their keys in the browser, and threads on a server. Before a run
-- it asks the provider store whether the active provider is ready and which headers carry its
-- credentials; a thread is loaded from a versioned bootstrap envelope and its stored messages are
-- decoded for the runtime.
--
-- Files and the code they model:
--   Browser           local and session storage, the stored document and the listeners of a tab
--   Json              the values of JSON.parse
--   Providers/Auth    features/providers/local-storage-auth.ts (createLocalStorageAuth)
--   Providers/OpenRouter, Providers/OpenCodeZen   their configurations (openrouter-auth.ts,
--                     opencode-zen-auth.ts)
--   Providers/OpenRouter/Base64   the base64url text of the PKCE verifier and challenge
--   Providers/OpenRouter/OAuth    initiateOAuth, handleOAuthCallback, finalizeOAuthCallback
--   Providers/OpenRouter/Masking  maskApiKey
--   Providers/Profiles            the data of features/providers/providers-store.ts, and Codec its JSON
--   Providers/Store               load, save, select, upsert and remove
--   Providers/Readiness           getProviderReadiness and getAgentProviderHeaders
--   InlineData                    features/agent-runtime/inline-agent-data-ui.tsx: the parsers, and
--                     Views the components, with components/elements; Artifact is
--                     features/artifacts/artifact-data-ui.tsx
--   Process                       features/process-panel: State the contract, Status the chips and
--                     durations, Depth the nesting of steps, Notice the end of a run, Cards,
--                     Activity the timeline, Previews of artifacts, and Tabs the panel
--   Hover                         hooks/use-fluid-hover.ts: Nearest the choice of an item, Measure the
--                     passes and the pointer, over Numbers, what is used of floating point
--   Api                           lib/env.ts, lib/api-client.ts, and the requests of threads-api.ts,
--                     projects-api.ts and tools-api.ts
--   Workspace                     state/workspace-store.ts, and Panes
--                     components/workspace/agent-workspace.tsx
--   Projects                      features/projects/project-sidebar.tsx: NameDialog, Section and
--                     Sidebar, which has app/routes/workspace-bootstrap-route.tsx too
--   Tools                         app/routes/tools-route.tsx
--   Range                         lib/range.ts
--   Composer                      components/assistant-ui/composer-elements.tsx: Picker, the model
--                     picker, over the hooks of the providers and the tab
--   AgentFetch                    features/agent-runtime/agent-runtime-provider.tsx (createAgentFetch)
--   Providers/Hooks               features/providers/use-openrouter-auth.ts, use-opencode-zen-auth.ts,
--                     and useRunReadiness of features/agent-runtime/agent-capabilities.ts
--   Providers/Models              features/providers/use-provider-models.ts, and Fingerprint the hash
--                     of a key
--   Providers/Registry            features/providers/use-providers.ts
--   Providers/Settings            features/providers/settings: Form the form of a profile, Keys the
--                     sections of the keys, ModelChoice the section and the list of models, Dialog the
--                     cards, the categories and the theme
--   Threads/Title                 features/threads/thread-title.ts (deriveThreadTitle)
--   Threads/Route                 app/routes/workspace-route.tsx, and getUserMessageText of
--                     thread-title.ts
--   Threads/Bootstrap             features/threads/threads-api.ts (validateThreadBootstrap)
--   Threads/Decode                features/threads/assistant-thread-adapter.ts (load)
--   Threads/History               the same file: enqueue, waitForThreadHistoryWrites
--   Threads/Head                  the same file: persistThreadHeadWithRetry
--   Threads/HeadSync              the same file: HistoryHeadSync
--
-- State. A tab is a record; an operation takes it and returns the next one, with its result or the
-- error that it throws. Calls of storage that may throw are Option. The modules' sets of listeners
-- stand in one list, under the storage key of their module, and `notify` records which are called. A
-- listener that throws is ignored by the code, and what a listener does is outside the model. The
-- answer of a request that is awaited is an argument of the code after it.
--
-- Texts that the source measures or splits are lists of UTF-16 code units; others are strings of the
-- language. A number of a JSON document is a natural number or `other_num`, which carries its floor;
-- one that is too large for a double, and read as Infinity, is left out. Code that is not in the
-- repository is a parameter: encodeURIComponent, fromAgUiMessages (assistant-ui), String(v), the URL
-- parser and the case mappings of texts; floating-point numbers are a record of operations, of which
-- the proofs use that the order is strict.
--
-- The history of a thread and HistoryHeadSync are step relations: a step is a call, the end of a
-- promise, a render or the unmounting, and the theorems hold in every reachable state, so for every
-- interleaving. React reruns an effect only when its inputs change; the model lets it run at any time.
-- A promise and the barrier that follows it settle in one step. A write settles at any time after the
-- one that it is chained on.
--
-- A stored profile or store is read into the fields of its type; fields that the code does not name are
-- not kept by the model, where the code's spreads keep them.
--
-- What a component of the process panel renders is a record of what it says and offers; class names
-- are left out but where they depend on the state. The rounding of toFixed at a tie, toLocaleString
-- and Date.parse are parameters. A lookup in a table of labels does not see the names that every
-- JavaScript object inherits.
--
-- Loops are structural recursion; the retries of persistThreadHeadWithRetry are its bound. The depth
-- of a step runs on fuel, one more than there are steps, since each call but the last visits another
-- step; the digits of a number run on the number itself.
--
-- A handler of the sidebar returns its next state and a list of effects: requests, changes of the
-- query cache and navigation. What follows a request is a handler of its own, and the state of a query
-- or a mutation that a component reads is an argument. The dialog that names a project is a step
-- relation. The form of a provider holds JSON values where a stored profile does, so a value that is
-- no text throws in the model as it does in the code.
--
-- Not modelled: the Python server (apps/api), which is in another language; markup, styles and
-- animation; the components under components/ui and components/assistant-ui, which come from the
-- registries of components.json and are adapted copies of other projects' code, but for the
-- composer's model picker; HTTP transport, SHA-256 and random
-- bytes, which are the browser's.
pub mod Base
pub mod Json
pub mod Browser
pub mod Providers
pub mod Threads
pub mod AgentFetch
pub mod InlineData
pub mod Process
pub mod Hover
pub mod Api
pub mod Workspace
pub mod Projects
pub mod Range
pub mod Tools
pub mod Composer
