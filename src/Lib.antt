-- ===== src/Lib.antt =====
-- The gateway kokekokkor takes requests of the OpenAI, Anthropic and Gemini APIs, routes each to
-- a configured provider and translates where the protocols differ. This library models the parts
-- that decide what is routed, stored and let through, and proves what they promise.
--
-- How the parts interact: an administrator edits the provider catalog through the catalog
-- service, which validates it, stores it in SQLite and makes the routing table of it; API keys
-- go the same way through the credential service; a request asks the table for a plan of
-- attempts. OAuth providers get their tokens by an authorization flow. Streams travel as
-- server-sent events or WebSocket messages, and requests in a form that is neutral between the
-- protocols.
--
-- Files:
--   Common and its children: shared names, tests, lists, results, Go maps as association lists
--     in the order in which range visits them, and strings.TrimSpace.
--   Provider: internal/domain/provider/target.go.
--   Routing: internal/application/routing/router.go. Built shows what buildSnapshot makes,
--     Accepts when it accepts, Resolved what Resolve answers.
--   Catalog: internal/domain/catalog/catalog.go and routingInputs of
--     internal/bootstrap/catalog.go. Valid is the independent description of a valid catalog,
--     Routable and Served follow it into the routing table.
--   Catalog/Service: internal/application/catalog/service.go, over a record of repository and
--     runtime (Backend) whose laws Atomic states; Gateway fills it with Store.Replace of
--     internal/persistence/sqlite/store.go and the routing table, as internal/bootstrap/admin.go
--     does. Removal and Addition are about single edits.
--   Credentials: internal/application/credentials/service.go, over a record of repository and
--     runtime; Agreement states their laws.
--   OAuth: internal/domain/oauth and internal/application/oauth. States is the state repository,
--     Flow is Complete, Resolver is BearerToken of runtime.go, Bounded and Once are about states
--     and Complete.
--   Llm: internal/domain/llm, the types and Request.Validate; Valid, Tools and Accepted describe
--     the blocks, tools and requests that it accepts.
--   Stream: internal/domain/llm/stream.go, and in Anthropic the decoder DecodeMessagesStream of
--     internal/protocol/anthropic/messages_stream.go over parsed wire events; Ended is about how
--     streams end.
--   Translation and its children: internal/application/translation, the rules by which requests,
--     responses, stream events and realtime controls pass from one protocol to another. Lower,
--     Reasoning, Portable, Requests, Instructions, Responses, Streams, Events and Realtime hold
--     the code; Chains says when its chains of checks end well, Accepted and Conversation which
--     requests pass, Gathered what becomes of instructions, Kept what responses keep, Streamed
--     how streaming requests relate to plain ones.
--   Handler: internal/protocol/openai, handler.go in Serve, the attempts of cross_protocol.go
--     and gemini_cross_protocol.go in the parent, and in Proxy ServeHTTPTo of
--     internal/provider/openaicompat/proxy.go. Settled and Once say what an attempt and a
--     request write. The state of everything outside is passed on from call to call.
--   Sessions: internal/transport/adminhttp/session.go, with the session store as state; Guarded
--     says what a request needs to get through, Bounded how many sessions are kept.
--     Common/Expiring holds the loops over maps whose entries expire, which OAuth/States shares.
--   State: internal/domain/responsestate, and response_state.go of internal/translator with its
--     store in memory. Codec is codec.go over an encoding/json (WireJson) whose laws Wires
--     states, Restored what it gives back; Continued and Conversations say how a later request
--     goes on. Background is background_responses.go of internal/translator, where what happens
--     under the mutex or before and after the work is a step; Cancelled is about cancellation.
--   WebSocket: internal/transport/websocket/conn.go. Masking and Wire hold the payload mask and
--     big-endian numbers; RoundTrip and Message are about frames and text messages.
--   Sse: internal/protocol/sse/sse.go. Split and Lines hold lines and fields; RoundTrip and
--     Bounds are about Write and Decode.
--   Each Tests module evaluates the models on concrete inputs.
--
-- State and errors: a record is a struct, a mutex makes calls sequential and is left out, an
-- operation returns the next state, an error is a constructor with what its message names. Text
-- is a native string, bytes are natural numbers, times are nanoseconds as natural numbers. Loops
-- are structural recursion; the one loop on fuel, ReadText, is given one more than the bytes
-- that are left, and every round reads at least two.
--
-- Parameters: net/url's parser (parse_url), json.Valid (json_valid), json.Unmarshal into
-- Booleans, integers and objects (Json), base64 decoding, the upstream calls, the reverse
-- proxy's round trip, the rewriting of a body's model, the encoder of a Responses answer,
-- encoding/json of stored messages, the token exchanger, refresher and store, and, where a
-- statement is about every implementation, repository and runtime with their laws.
--
-- Not modelled: deadlines, cancelled contexts and failing network writes; SQL statements; the
-- JSON codecs of the three protocols, their other streams, the stores of responses in SQLite,
-- the HTTP resources over stored responses and realtime sessions; the other HTTP handlers,
-- configuration and start-up; encryption of secrets. Catalog maps have distinct keys, as Go maps
-- do, where a statement says so.
pub mod Common
pub mod Provider
pub mod Routing
pub mod Catalog
pub mod Credentials
pub mod Llm
pub mod WebSocket
pub mod Sse
pub mod OAuth
pub mod Stream
pub mod Translation
pub mod Sessions
pub mod State
pub mod Handler
