-- ===== src/State.antt =====
-- The stored state of responses: internal/domain/responsestate, and response_state.go of
-- internal/translator. The zero time is 0; the maps are association lists.
pub mod Codec
pub mod Wires
pub mod Restored
pub mod Continued
pub mod Conversations
pub mod Background
pub mod Cancelled
mod Tests
use Prim.Native.String.{◌++◌ as ◌+++◌}
use kokekokkor.Common.{
  String, ℕ, ◌+◌, ◌*◌, Bool, true, false, not, Option, none, some, List, [], ◌∷◌, ◌++◌, length,
  take, drop, Result, ok, err, ltb, ◌==◌, string_eq, ℕ_eq, if◌then◌else◌,
}
use kokekokkor.Common.Map.{Map, lookup, insert, delete}
use kokekokkor.Common.Text.{has_prefix}
use kokekokkor.Llm.{
  ℤ, pos, negsuc, role_assistant, ContentBlock, text_block, tool_call_block, Blocks, no_blocks,
  more_blocks, Message, ResponseState, Request, Response, stop_max_tokens,
}

-- 30 days and 10 minutes.
abbrev pub default_retention : ℕ
default_retention = 2592000000000000

abbrev pub background_retention : ℕ
background_retention = 600000000000

pub record Record : Type 0 where
  pub messages : List Message
  pub continuable : Bool
  pub payload : String
  pub status : String
  pub expires_at : ℕ

pub record Conversation : Type 0 where
  pub id : String
  pub created_at : ℕ
  pub metadata : Map String String
  pub messages : List Message
  pub continuable : Bool

pub data StateError : Type 0 where
  not_found empty_id invalid_boundary : StateError
  conversation_not_found not_continuable_conversation : String → StateError
  response_not_found not_continuable_response : String → StateError
  not_encoded : String → StateError
  not_background not_stored : StateError

-- memoryResponseStateStore; values are copied, so that cloning is left out.
pub record Store : Type 0 where
  pub responses : Map String Record
  pub conversations : Map String Conversation

abbrev pub new_store : Store
new_store = record { responses = []; conversations = [] }

-- `!record.ExpiresAt.IsZero() && time.Now().After(record.ExpiresAt)`.
unfoldable pub is_expired : ℕ → Record → Bool
is_expired now saved = if saved.expires_at == 0 then false else ltb saved.expires_at now

abbrev pub loaded : ℕ → String → Store → Option Record → Result StateError Record × Store
loaded now id s none = (err not_found, s)
loaded now id s (some saved) =
    if is_expired now saved
    then (err not_found, record s { responses = delete id s.responses })
    else (ok saved, s)

abbrev pub load_response : ℕ → String → Store → Result StateError Record × Store
load_response now id s = loaded now id s (lookup id s.responses)

abbrev pub with_expiry : ℕ → Record → Record
with_expiry now saved =
    if saved.expires_at == 0 then record saved { expires_at = now + default_retention } else saved

unfoldable pub save_response : ℕ → String → Record → Store → Result StateError (Unit {0}) × Store
save_response now id saved s =
    if id == ""
    then (err empty_id, s)
    else (ok tt, record s { responses = insert id (with_expiry now saved) s.responses })

abbrev delete_found : {V : Type 0} → Option V → Store → Store → Result StateError (Unit {0}) × Store
delete_found none s without = (err not_found, s)
delete_found (some value) s without = (ok tt, without)

unfoldable pub delete_response : String → Store → Result StateError (Unit {0}) × Store
delete_response id s =
    delete_found (lookup id s.responses) s (record s { responses = delete id s.responses })

abbrev pub found_conversation : Option Conversation → Result StateError Conversation
found_conversation none = err not_found
found_conversation (some conversation) = ok conversation

abbrev pub load_conversation : String → Store → Result StateError Conversation
load_conversation id s = found_conversation (lookup id s.conversations)

unfoldable pub save_conversation : Conversation → Store → Result StateError (Unit {0}) × Store
save_conversation conversation s =
    if conversation.id == ""
    then (err empty_id, s)
    else (ok tt, record s { conversations = insert conversation.id conversation s.conversations })

unfoldable pub delete_conversation : String → Store → Result StateError (Unit {0}) × Store
delete_conversation id s =
    delete_found (lookup id s.conversations) s
      (record s { conversations = delete id s.conversations })

pub record ResponseStatePlan : Type 0 where
  pub state : Option ResponseState
  pub history : List Message
  pub conversation : Option Conversation

-- What earlier content a request continues: the messages, and the conversation that they are of.
abbrev Prior : Type 0
Prior = List Message × Option Conversation

abbrev pub prior_conversation : String → Result StateError Conversation → Result StateError Prior
prior_conversation id (err not_found) = err (conversation_not_found id)
prior_conversation id (err e) = err e
prior_conversation id (ok conversation) =
    if conversation.continuable
    then ok (conversation.messages, some conversation)
    else err (not_continuable_conversation id)

abbrev pub prior_response : String → Result StateError Record → Result StateError Prior
prior_response id (err not_found) = err (response_not_found id)
prior_response id (err e) = err e
prior_response id (ok saved) =
    if saved.continuable then ok (saved.messages, none) else err (not_continuable_response id)

abbrev pub prior_loaded :
    String → Result StateError Record × Store → Result StateError Prior × Store
prior_loaded id (found, s) = (prior_response id found, s)

unfoldable pub prior_of : ℕ → ResponseState → Store → Result StateError Prior × Store
unfolding is_expired
prior_of now state s =
    if not (state.conversation_id == "")
    then (prior_conversation state.conversation_id (load_conversation state.conversation_id s), s)
    else if not (state.previous_response_id == "")
    then prior_loaded state.previous_response_id (load_response now state.previous_response_id s)
    else (ok ([], none), s)

abbrev pub Resolved : Type 0
Resolved = Result StateError (Request × ResponseStatePlan) × Store

abbrev pub joined :
    Request
    → ResponseState
    → List Message
    → List Message
    → Result StateError Prior × Store
    → Resolved
joined request state instructions current (err e, s) = (err e, s)
joined request state instructions current (ok (prior, conversation), s) = (
  ok (
    record request { messages = instructions ++ (prior ++ current); response_state = none },
    record { state = some state; history = prior ++ current; conversation = conversation },
  ),
  s,
)

abbrev pub within_boundary : ℕ → Request → ResponseState → ℤ → Store → Resolved
within_boundary now request state (negsuc n) s = (err invalid_boundary, s)
within_boundary now request state (pos n) s =
    if ltb (length request.messages) n
    then (err invalid_boundary, s)
    else joined request state (take n request.messages) (drop n request.messages)
        (prior_of now state s)

abbrev pub resolve_state : ℕ → Request → Option ResponseState → Store → Resolved
resolve_state now request none s =
    (ok (request, record { state = none; history = []; conversation = none }), s)
resolve_state now request (some state) s =
    within_boundary now request state state.instruction_messages s

unfoldable pub resolve_responses_state : ℕ → Request → Store → Resolved
unfolding prior_of
resolve_responses_state now request s = resolve_state now request request.response_state s

-- NormalizeResponsesID of internal/protocol/openai/responses_stream.go.
unfoldable pub normalize_responses_id : String → String
unfolding has_prefix
normalize_responses_id upstream_id =
    if has_prefix "resp_" upstream_id
    then upstream_id
    else if upstream_id == ""
    then "resp_gateway"
    else "resp_" +++ upstream_id

-- What of an answer is kept, and whether it can be continued: text and tool calls only.
unfoldable pub assistant_content : Blocks → Blocks × Bool
assistant_content no_blocks = (no_blocks, true)
assistant_content (more_blocks (text_block text citations) blocks) =
    let (kept, continuable) = assistant_content blocks in
    (more_blocks (text_block text citations) kept, continuable)
assistant_content (more_blocks (tool_call_block id name arguments) blocks) =
    let (kept, continuable) = assistant_content blocks in
    (more_blocks (tool_call_block id name arguments) kept, continuable)
assistant_content (more_blocks block blocks) =
    let (kept, continuable) = assistant_content blocks in (kept, false)

abbrev pub with_answer : List Message → Blocks → List Message
with_answer history no_blocks = history
with_answer history (more_blocks block blocks) =
    history
    ++ (record {
      role = role_assistant;
      name = "";
      content = more_blocks block blocks;
      metadata = [];
    }
        ∷ [])

abbrev pub keep_conversation :
    List Message → Bool → Option Conversation → Store → Result StateError (Unit {0}) × Store
keep_conversation history continuable none s = (ok tt, s)
keep_conversation history continuable (some conversation) s =
    save_conversation (record conversation { messages = history; continuable = continuable }) s

abbrev pub status_of : Response → String
status_of response = if response.stop_reason == stop_max_tokens then "incomplete" else "completed"

abbrev pub retention_of : ResponseState → ℕ
retention_of state = if state.background then background_retention else default_retention

abbrev pub save_encoded :
    ℕ
    → ResponseState
    → List Message
    → Bool
    → Response
    → Result String String
    → Store
    → Result StateError (Unit {0}) × Store
save_encoded now state history continuable response (err e) s = (err (not_encoded e), s)
save_encoded now state history continuable response (ok payload) s =
    save_response now response.id
      (record {
        messages = history;
        continuable = continuable;
        payload = payload;
        status = status_of response;
        expires_at = now + retention_of state;
      })
      s

-- `encode` is EncodeResponsesResponse.
module _ (encode : Response → Result String String) where
  abbrev pub keep_response :
      ℕ
      → ResponseState
      → List Message
      → Bool
      → Response
      → Result StateError (Unit {0}) × Store
      → Result StateError (Unit {0}) × Store
  keep_response now state history continuable response (err e, s) = (err e, s)
  keep_response now state history continuable response (ok tt, s) =
      if not state.store
      then (ok tt, s)
      else save_encoded now state history continuable response (encode response) s

  abbrev pub persist_state :
      ℕ
      → ResponseStatePlan
      → Response
      → Option ResponseState
      → Store
      → Result StateError (Unit {0}) × Store
  persist_state now plan response none s = (ok tt, s)
  persist_state now plan response (some state) s =
      let (kept, continuable) = assistant_content response.content in
      let history = with_answer plan.history kept in
      keep_response now state history continuable
        (record response { id = normalize_responses_id response.id })
        (keep_conversation history continuable plan.conversation s)

  unfoldable pub persist_responses_state :
      ℕ → ResponseStatePlan → Response → Store → Result StateError (Unit {0}) × Store
  unfolding save_response save_conversation normalize_responses_id assistant_content
  persist_responses_state now plan response s = persist_state now plan response plan.state s
