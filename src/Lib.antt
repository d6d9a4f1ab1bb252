-- ===== src/Lib.antt =====
-- A verification library for Coragent's durable sessions.
--
-- A session of Coragent is a transcript of records and a log of events, kept in a directory by
-- internal/store and written by internal/engine. The files here follow the packages:
--
-- - Base: shared types, tests on native numbers, lists, byte strings, Go maps as association
--   lists, signed integers and decimal numerals.
-- - Errors, Exec: the sentinel errors of the packages with the results of fallible code, and the
--   monad of calls that change a session and may fail.
-- - Transcript: internal/transcript/transcript.go, the kinds of records, their payloads, `New`,
--   `DecodePayload` and `Record.Validate`. Transcript/Validate: internal/transcript/validate.go,
--   `ValidateRecords`, `ValidateTranscript`, `OpenToolCalls`, `OpenToolCallsForRun` and
--   `toolPairs`. Its maps are association lists. Steps, Repair, Recovery and Pairing have the
--   lemmas and theorems on logs.
-- - Event: internal/event/event.go, the event envelope, `New`, `DecodePayload` and `Validate`.
-- - Store: internal/store/store.go. Store/Files has `appendJSONLines` and `writeManifestLocked`,
--   Store/Session the methods of `Session`, Store/Create `Create`, Store/Open `Open` and its
--   checks. Durable, Rewrites, Promises, Appends, Transcripts, Facts, Crash and Reopen state what
--   is on the disk after a call; Manifests, Budgets and Commands what is in the manifest.
-- - Dataproj: internal/dataproj/projector.go, the detector and the projection of text;
--   Dataproj/Lines the redactors of lines and streams. Merge, Mask, Cut, Stream, Key and
--   Projection state what they let out.
-- - Prompt: internal/prompt/assembler.go, `Build` and `recordsToMessages`; Prompt/Instructions
--   internal/prompt/instructions.go. Tokens, Fits, Messages and Discovery state what a request
--   holds.
-- - Openai: internal/provider/openai/adapter.go, `decodeStream`; Openai/Wire `buildRequest`,
--   `classifyHTTP` and `parseRetryAfter`. Kept, Limits and Accepts state what a response holds
--   and which requests are accepted.
-- - SessionCommand: internal/sessioncommand/command.go. Provider: the types of
--   internal/provider/provider.go.
-- - Action: internal/action/broker.go, `Execute`, `ExecuteBatch` and the projection of calls and
--   results, with the tools and the projector as parameters. `Execute` returns its result with
--   the uses of tools that it makes. Action/Batch and Action/Authority state what a batch returns
--   and which tools it uses; Action/Catalog has `NewBroker` and `Catalog`.
-- - Engine: internal/engine/session.go. Engine/Facts has the helpers that write records, events,
--   commands and runs, Engine/Apply `Apply`, Engine/Terminal `finishRun` and
--   `reconcileInterrupted`, Engine/Stream and Engine/Run `run` with its stream, its request and
--   its tool calls, Engine/Start `NewSession`, Engine/Observe `Observe`, Engine/Calls
--   `validateToolCalls`, and Engine/Retry the retries and the budgets. Each call that holds the
--   lock is one step of the session's state; the goroutine of a run is the handle in
--   `run_cancel`. A call works on the durable session, where there is one, through `durably`.
--   Steps, Ending, Observers, Retry/Delay, Budget, Turns, Rounds, Termination and Deltas state
--   what these do.
-- - Registry: internal/engine/engine.go, `New` and `createOrLoad`. Settings:
--   internal/settings/settings.go; Settings/Layers states which file each setting comes from.
--   Store/Listing has `List` of the store, with `sort.Slice` as an insertion sort, and
--   Store/Newest states its order.
-- - The modules called Tests, RunTests, ListTests and ReopenTests run the definitions on small
--   values.
--
-- JSON text is not modelled: a payload is the fields that the strict decoder finds, or
-- `malformed`, and a log file is a list of lines that decode or do not, with a mark for a partial
-- final line. The SHA-256 of a provider binding and the length of an encoded line are the
-- parameters of `Codec`. Each disk operation takes its outcome from a schedule: it is done, or it
-- fails after some complete lines and perhaps a part of another, or, for the manifest, before or
-- after the rename. A line that a partial one precedes does not decode. After a failed call the
-- model keeps the session in memory as the code leaves it.
--
-- Times are numbers, zero for the zero time. Sequence numbers and cursors count records in
-- memory, so their uint64 sums are exact; the counter of runs wraps, as it may come from the
-- manifest. Loops are structural recursion on lists, or on the retries that are left; two
-- definitions run on fuel, the printing of a decimal numeral, whose fuel is the number itself,
-- and the run loop, with 65 rounds: each round but the last reserves one of the 64 model calls of
-- the run, and Termination shows that they suffice.
--
-- A run takes its parameters from a `World`: the attempts of the provider with the chunks they
-- stream, the sleep, the tools, the projection of text, the verdict of `json.Unmarshal` on
-- arguments and the context at each point where it is looked at. The regular expressions of the
-- detector are the matches they find, and the files of instructions are what a read of them
-- gives.
--
-- Not modelled: `Shutdown` and `WaitIdle`, `ProtectedPath`, the HTTP call of the adapter, the
-- tools, the workspace, and the benchmark runner. Of what other goroutines do between two steps
-- of a run only the end of its context is in the model. A mutex guards each call of the store, so
-- calls are taken one after the other. The provider, the jitter and the sleep of a retry, the
-- detector of credentials and the clock are parameters.
pub mod Base
pub mod Errors
pub mod Exec
pub mod Transcript
pub mod Event
pub mod Store
pub mod Dataproj
pub mod SessionCommand
pub mod Provider
pub mod Prompt
pub mod Openai
pub mod Settings
pub mod Action
pub mod Engine
pub mod Registry
