-- ===== src/Lib.antt =====
-- Verification library of genkit-cowork, a Go library of session memory, flows, tools and media
-- loaders for agents on Firebase Genkit.
--
-- The program's parts. genkit-cowork/memory keeps, per tenant and session, an append-only ledger of
-- messages, turns and snapshots. A `Session` (memory/sessions.go) is the store that the flows of
-- genkit-cowork/flows read and write; it numbers what a save adds, moves media into an asset store,
-- and hands the state to a backend, a `SessionOperator`, which checks it against the stored state
-- (memory/turns.go) and keeps it: in memory, or in files (memory/file_sessions.go); the vector backend
-- (memory/vector_sessions.go) hands it on to one of these, and indexes its messages in the background.
-- A load filters the messages by a persistence mode, or prunes them to a token budget (memory/token_budget.go). genkit-cowork/tools are the tools that a model calls;
-- what they print is cut to a number of lines and bytes (tools/truncate.go).
-- The flows run a model's agent loop, and store the messages and turns that it added through a
-- `Session`. The edit tool (tools/edit.go) replaces a text in a file, found exactly or in a fuzzy form
-- (tools/edit_diff.go), and shows a diff by lines (tools/diff.go). genkit-cowork/media cuts documents
-- into chunks. The event bus (flows/event.go) tells subscribers of what a flow does.
--
-- The files, with the code they are about (paths from the repository's root):
--   Base/*                  tests, lists, 64-bit integers, error results, byte strings, maps, sorting
--   Memory/Types            the structs of genkit-cowork/memory/{sessions,turns,snapshots,assets}.go
--   Memory/Ledger           validateAppendOnlyState, ValidateSessionLedger (memory/turns.go); the
--                           check as a predicate in Ledger/Exact, two saves in a row in Ledger/Chain
--   Memory/Window           filterMessages (memory/sessions.go)
--   Memory/Budget           memory/token_budget.go; Budget/Prune says what pruning keeps
--   Memory/Store            defaultSessionOperator (memory/sessions.go): SaveState, LoadState,
--                           DeleteSession, ListSessions as functions of the map of tenants; what
--                           clients see in Store/RoundTrip and Store/Listing, and runs of calls as
--                           a step relation in Store/History
--   Memory/AtomicWrite      atomicWriteFile (memory/file_sessions.go); what a write keeps when calls fail
--                           or the process stops, in AtomicWrite/Kept
--   Memory/Files            fileSessionOperator (memory/file_sessions.go); its paths in Files/Paths, and
--                           that it answers as the in-memory backend in Files/Refines and Files/Runs
--   Memory/AssetStore       FileMediaAssetStore (memory/file_assets.go); its index in AssetStore/Index,
--                           its paths in AssetStore/Names and AssetStore/Inside, what its writes leave
--                           in AssetStore/Writes and AssetStore/Puts
--   Tools/Read              the read tool (tools/read.go); one page in Read/OnePage, and the
--                           pages one after the other in Read/Pages
--   Tools/Bash              the bash tool (tools/bash.go); what it shows of an output in Bash/Shows
--   Tools/ShellEnv          GetShellEnv (utils/shell.go)
--   Tools/Write             the write tool (tools/write.go)
--   Tools/ResolvePath       the paths that tools are given (tools/path.go)
--   Media/Registry          ProcessorRegistry (media/registry.go) and DetectMimeType (media/mime.go)
--   Memory/Vector           VectorOperator (memory/vector_sessions.go) as a state with a queue and a
--                           worker; Vector/Ids counts ids, Vector/Once is the invariant of the state,
--                           Vector/Interleave the runs, Vector/Drains the end of the queue
--   Os/Path                 filepath.Join and ValidatePathSegment (utils/path_segment.go); which paths
--                           are the same in Path/Distinct, and below which others in Path/Under
--   Os/Disk, Os/Io          the calls of the package os that the backends use
--   Memory/DataUri          parseDataURI, with Go's base64 and URL decoding
--   Memory/Assets           normalizeMediaParts, upsertSessionAsset, KindForMessage
--   Memory/Numbering        the loops of Session.Save over the messages and the turns
--   Memory/Session          Session.Get and Session.Save over any backend; Session/Kept is the
--                           invariant of a ledger, Session/Fresh and Session/Appends the way of a
--                           save, Session/Saves and Session/Loads what a client sees
--   Memory/Turns            MessagesForTurn; Turns/Cover reads all turns of a ledger
--   Tools/Lines             splitLines and joinLines (tools/truncate.go)
--   Tools/Truncate          TruncateHead, TruncateTail, truncateStringFromEnd; what they keep in
--                           Truncate/Head and Truncate/Tail
--   Tools/Search            strings.Index and strings.Split; Search/First is what an index means
--   Tools/Endings           normalizeToLF, detectLineEnding, restoreLineEndings (tools/edit_diff.go),
--                           and their round trip in Endings/RoundTrip
--   Tools/Runes             UTF-8 as Go reads and writes it, unicode.IsSpace
--   Tools/Trim              strings.TrimSpace
--   Tools/Fuzzy             normalizeForFuzzyMatch, fuzzyFindText (tools/edit_diff.go)
--   Tools/Edit              performEdit (tools/edit.go) over any EditOperator, stripBom; an edit that
--                           succeeds in Edit/Replace, one that fails in Edit/Safe
--   Tools/Diff              tokenize, diffLines (tools/diff.go); the texts of a diff in Diff/Patch, its
--                           table in Diff/Table, the length of what it keeps in Diff/Longest
--   Memory/Numbering/Claimed  which claims of turns a save accepts
--   Flows/LoopTurns         buildAgentLoopTurnRecords and its helpers (flows/agent_loop.go); what the
--                           turns count in LoopTurns/Rounds
--   Flows/Message           the messages and turns that a flow stores (flows/message.go), and
--                           mergeAgentConfig; Message/Claims ties them to Session.Save
--   Flows/Heartbeat         the reply, the delivery and the ticks of flows/heartbeat.go and
--                           heartbeat_result.go; Heartbeat/Reply and Heartbeat/Single
--   Flows/Event             EventBus, Subscribe, Emit (flows/event.go); what an emit delivers after a
--                           subscription, and after it is taken back, in Event/Delivery
--   Media/Chunk             textChunker (media/shared.go); Chunk/Cover says that no text is lost
--   Media/Html              stripHTMLTags, chunksToDocuments, and the HTML processor; what is left of
--                           a text in Html/Clean
--   Memory/Samples, */*Tests sample data, runs at concrete inputs, theorems applied there
--
-- How the code is written here. A string is the list of its bytes. An int or int64 that a caller
-- sets is a ℤ, and its sums are those of 64 bits (`add_64`); sizes of data in memory are natural
-- numbers. A time is its number of nanoseconds, 0 the zero time. A function that returns an error
-- returns a `Result` whose error says what failed, as a rule with the values that the message prints.
-- A method of the in-memory backend holds its mutex throughout, so it is one function of the
-- store; a cancelled context is a flag. Random ids, the clock, the checksum of a state, an asset store and a token
-- estimator are parameters. Loops are structural recursion, but for that of the chunker, which is given
-- as many rounds as the text has runes, and each moves its start up. A reader of pages is given as many
-- reads as the file has lines, which is enough, since each page shows a line.
--
-- Not modelled: what two holders of one slice or pointer see of each other's writes (the backend
-- copies what it stores and returns); JSON; the local vector index; of the flows, what calls
-- Genkit and the tickers; of the media loaders, all but the chunker and the HTML processor; the
-- skills plugin; of the tools, the memory retrieval and the printing of a diff.
pub mod Base
pub mod Flows
pub mod Media
pub mod Os
pub mod Memory
pub mod Tools
