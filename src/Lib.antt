-- ===== src/Lib.antt =====
-- A verification library for the A21 StackChan workmate, a Go program that connects StackChan
-- devices to voice pipelines, external agents and the V21 evidence service.
--
-- A device speaks the xiaozhi protocol over a websocket. A text message is a control message, a
-- binary message carries one Opus packet; both are parsed together with the identity of the
-- connection, and a device event comes as a JSON object of its own. PCM of the device goes through
-- the ingress, which buffers it by stream and raises the events of speech; audio to the device goes
-- through the pacer. The planner decides for a turn whether it stays native, asks an external
-- agent or goes to V21. The workspace sources say what a professional query may search.
--
-- Base: texts as lists of code points with the functions of package strings that the code calls,
--   lists over native numbers, and integers with a sign. is_space and lower_rune hold the white
--   space and the case pairs that they name.
-- Xiaozhi: internal/transport/xiaozhi.
--   Identity (resolveIdentity, safeIDComponent, the errors), Frame (ParseTextFrame, validateHello)
--   and Binary (ParseBinaryFrameVersion, unwrapBinaryProtocol2 and 3, and
--   wrapXiaozhiVoiceBenchOpus of internal/app/xiaozhi_voice_bench.go) model frame.go; Device and
--   Device.Wire (NormalizeDeviceExtensionEvent, BuildDeviceExtensionEvent,
--   ParseDeviceExtensionEvent) model device_extension.go. What json.Unmarshal makes of a message is
--   the parameter Decoder; a device event is the object that was decoded.
-- Audio: internal/audio. Ingress (PushContext, the detectors) models ingress.go, whose map of
--   streams is an association list; Pacer (Send, waitForSlot) models ratecontroller.go, where the
--   clock, the context and the callbacks are the answers of a call. Floats are a parameter. Wav models
--   wav_pcm.go: files as lists of bytes, written, read and cut into frames.
-- Protocol: internal/protocol/message.go, the modes, the display states and the audio chunks;
--   base64 decoding is a parameter.
-- Planner: internal/agentplan/planner.go. Types has the request and the plan, Message the message
--   to an external agent, Planner itself the policies and BuildPlan.
-- Workspace: internal/gateway/server.go, the source that shows an upload job, the summary of the
--   sources, and in Query the readiness of a query scope. Ledger has the tables of upload jobs,
--   sources, documents and index jobs (fields of Server) with createWorkspaceUploadJob (Create),
--   storeWorkspaceDocumentUpload (Store), applyWorkspaceUploadJobAction (Change, with
--   deleteWorkspaceDocumentForJobLocked in Delete) and createWorkspaceIndexJob (Index), each from a
--   ledger to a ledger or an error; Labels has the checks of what a caller may name. The disk, the
--   SHA-256 of a file and the clock are arguments.
-- Adapter: internal/v21adapter/client.go, what a professional query may ask
--   (ValidateProfessionalQueryRequest), and validProfessionalLabel of the gateway, which uses it.
-- Session: internal/gateway/server.go, the turns of a xiaozhi session (xiaozhiSession, xiaozhiTurn and
--   their methods from startXiaozhiTurn to markXiaozhiDownlink). A pointer to a turn is an address in
--   the session's store; each method runs under the session's lock and is one operation, and Steps
--   has sequences of them. Whether the connection's context is done is an argument.
-- Gateway: internal/gateway/server.go, the handlers of a xiaozhi connection: Listening
--   (handleXiaozhiText but for device events), Devices (handleXiaozhiDeviceExtension,
--   handleXiaozhiBinary), Replies (what they send, writeXiaozhiTTSStopWithOptions,
--   writeXiaozhiOfficialStackChanState), Policy (the options and texts that decide), and Gateway
--   itself (the loop of handleXiaozhiWS). Messages are parsed by Xiaozhi and change a Session; what a
--   handler sends or starts is a list of outputs. The clock, the codec and whether a write succeeds
--   are the parameter World.
-- Memory: internal/personality/memory.go, the hints of the environment and of a caller. Of the
--   state it has the fields that are not the same in every state.
-- Stackchan: internal/transport/stackchan/official_avatar.go, the binary packets of the official
--   firmware that a device event becomes (BuildOfficialPackets, Bytes). What json.Marshal makes of a
--   payload is a parameter; the metadata of an action is left out.
-- Guard: internal/runtimeguard, the guard before commands that write hardware (control.go,
--   result.go). Commands has LookupControlCommandSpec and its table, Git detectControlGitState and
--   Guard itself EvaluateControlGuard. The answers of git and of the system, and filepath.Clean, are
--   the parameter Environment.
--
-- Bounds: a byte of a payload is a number, and the sizes and stamps that the binary wrapper writes
-- are reduced modulo 256 by byte, so a size that does not fit is cut as in the code; the theorem on
-- the wrapper asks for a size that fits. Times, counts and sequence numbers are not reduced modulo
-- 2 ^ 63 or 2 ^ 64. Every loop is structural recursion but those of Audio.Wav, which run on fuel: a
-- file of n bytes behind its head needs n / 8 + 1 rounds, since each round reads a header of eight
-- bytes, and samples of n bytes need at most n frames.
--
-- A request on the ledger is one step; the code writes the file of an upload before it takes the
-- lock for the tables, and what another request does in between is not modelled.
--
-- A handler of a connection is one step too: what the goroutines of a turn do to the session between
-- two of its operations is left to the theorems of Session, which hold for any interleaving.
--
-- Not modelled: the goroutines that answer a turn, the decoded audio and the streaming ASR of a
-- session, the registry of devices, traces and metrics, the responses that list the ledger, inline
-- device marks, MCP messages, the preflight checks on names and proxies, the providers' clients, the
-- commands and their reports, firmware checks and the pages of the console, which are mainly I/O or
-- still to come.
pub mod Base
pub mod Xiaozhi
pub mod Audio
pub mod Protocol
pub mod Planner
pub mod Workspace
pub mod Adapter
pub mod Session
pub mod Stackchan
pub mod Guard
pub mod Gateway
pub mod Memory
