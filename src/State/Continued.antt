-- ===== src/State/Continued.antt =====
-- How a stored response is continued: internal/translator/response_state.go.
use kokekokkor.Common.{
  String, ℕ, ◌+◌, ◌≤◌, true, false, none, some, List, [], ◌∷◌, ◌++◌, length, take, drop, ◌≡◌, refl,
  sym, ap, Result, ok, err, ltb, ◌==◌, string_eq, ℕ_eq, ==-refl, if_split, if_both, arith,
}
use mathlib.Core.List.{append-nil}
use kokekokkor.Common.Map.{lookup-insert}
use kokekokkor.Common.Text.{append_named, has_prefix, has_prefix-named}
use kokekokkor.Llm.{
  pos, role_assistant, text_block, tool_call_block, Blocks, no_blocks, more_blocks, Message,
  ResponseState, Request, Response,
}
use kokekokkor.State.{
  Record, not_continuable_response, Store, ResponseStatePlan, is_expired, load_response,
  save_response, resolve_responses_state, prior_of, normalize_responses_id, assistant_content,
  with_answer, status_of, retention_of, persist_responses_state,
}

-- No response is stored under the empty ID.
normalize_responses_id-named : (id : String) → (normalize_responses_id id == "") ≡ false
unfolding normalize_responses_id
normalize_responses_id-named id =
    let Named : String → Type 0 = λ s. (s == "") ≡ false in
    if_split Named (has_prefix "resp_" id) (has_prefix-named "r" "esp_" id)
      λ other. if_both Named (id == "") refl (append_named "r" "esp_" id)

retention_of-positive : (now : ℕ) (state : ResponseState) → (now + retention_of state == 0) ≡ false
retention_of-positive now state =
    let IsPositive : ℕ → Type 0 = λ retention. (now + retention == 0) ≡ false in
    if_both IsPositive state.background (ground arith) (ground arith)

load-save :
    (now later : ℕ) (id : String) (saved : Record) (s : Store)
    → (id == "") ≡ false
    → (saved.expires_at == 0) ≡ false
    → ltb saved.expires_at later ≡ false
    → load_response later id ((save_response now id saved s).1)
      ≡ (ok saved, (save_response now id saved s).1)
unfolding save_response is_expired
load-save now later id saved s named kept early =
    rw (named, kept, lookup-insert id id saved s.responses, ==-refl id, kept, early) refl

-- An answer of text and tool calls only.
abbrev pub IsContinuable : Blocks → Type 0
IsContinuable no_blocks = Unit
IsContinuable (more_blocks (text_block _ _) rest) = IsContinuable rest
IsContinuable (more_blocks (tool_call_block _ _ _) rest) = IsContinuable rest
IsContinuable (more_blocks _ rest) = ⊥

-- The answer as a turn of the assistant; an empty one is no turn.
abbrev pub said : Blocks → List Message
said no_blocks = []
said (more_blocks block rest) =
    record { role = role_assistant; name = ""; content = more_blocks block rest; metadata = [] }
    ∷ []

pub assistant_content_whole :
    (rest : Blocks) → IsContinuable rest → assistant_content rest ≡ (rest, true)
unfolding assistant_content
assistant_content_whole no_blocks whole = refl
assistant_content_whole (more_blocks (text_block text citations) rest) whole =
    ap (λ kept. (more_blocks (text_block text citations) kept.0, kept.1))
      (assistant_content_whole rest whole)
assistant_content_whole (more_blocks (tool_call_block id name arguments) rest) whole =
    ap (λ kept. (more_blocks (tool_call_block id name arguments) kept.0, kept.1))
      (assistant_content_whole rest whole)
assistant_content_whole (more_blocks block rest) whole = elim whole [ ]

pub assistant_content_other :
    (rest : Blocks) → ¬ IsContinuable rest → (assistant_content rest).1 ≡ false
unfolding assistant_content
assistant_content_other no_blocks other = absurd (other tt)
assistant_content_other (more_blocks (text_block text citations) rest) other =
    assistant_content_other rest other
assistant_content_other (more_blocks (tool_call_block id name arguments) rest) other =
    assistant_content_other rest other
assistant_content_other (more_blocks block rest) other = refl

pub with_answer-said :
    (history : List Message) (rest : Blocks) → with_answer history rest ≡ history ++ said rest
with_answer-said history no_blocks = sym (append-nil history)
with_answer-said history (more_blocks block rest) = refl

-- The answer with the ID it is stored under.
abbrev pub identified : Response → Response
identified response = record response { id = normalize_responses_id response.id }

-- A request that continues what is stored under an ID, after its first `n` messages.
abbrev pub continuing : String → ℕ → ResponseState → Request → Request
continuing id n next request = record request {
  response_state = some (record next {
    previous_response_id = id;
    conversation_id = "";
    instruction_messages = pos n;
  });
}

module _ (encode : Response → Result String String) (now : ℕ) (state : ResponseState)
    (history : List Message) (response : Response) (s : Store) where
  abbrev pub answered_plan : ResponseStatePlan
  answered_plan = record { state = some state; history = history; conversation = none }

  -- The record that is stored.
  abbrev saved_answer : String → Record
  saved_answer payload = record {
    messages = with_answer history ((assistant_content response.content).0);
    continuable = (assistant_content response.content).1;
    payload = payload;
    status = status_of response;
    expires_at = now + retention_of state;
  }

  persist-save :
      (payload : String)
      → state.store ≡ true
      → encode (identified response) ≡ ok payload
      → persist_responses_state encode now answered_plan response s
        ≡ save_response now (normalize_responses_id response.id) (saved_answer payload) s
  unfolding persist_responses_state
  persist-save payload store encoded = rw (store, encoded) refl

  -- A response that was stored without an error, of a plan without a conversation, is continued, until
  -- it expires, by a request that names it: after its instructions the request gets the earlier
  -- messages, the whole answer and its own messages, where the answer held text and tool calls only. If
  -- it held anything else, the request is refused.
  pub persist-resolve :
      (payload : String) (later n : ℕ) (next : ResponseState) (request : Request)
      → state.store ≡ true
      → encode (identified response) ≡ ok payload
      → n ≤ length request.messages
      → later ≤ now + retention_of state
      → let id = normalize_responses_id response.id in
        let asked = continuing id n next request in
        let after =
          resolve_responses_state later asked
            ((persist_responses_state encode now answered_plan response s).1) in
        let prior = history ++ said response.content in
        let current = drop n request.messages in
        (IsContinuable response.content
          → after.0
            ≡ ok (
              record request {
                messages = take n request.messages ++ (prior ++ current);
                response_state = none;
              },
              record {
                state = asked.response_state;
                history = prior ++ current;
                conversation = none;
              },
            ))
        × (¬ IsContinuable response.content → after.0 ≡ err (not_continuable_response id))
  unfolding resolve_responses_state prior_of
  persist-resolve payload later n next request store encoded within early =
      let id = normalize_responses_id response.id in
      let named = normalize_responses_id-named response.id in
      let short : ltb (length request.messages) n ≡ false = ground (arith, within) in
      let fresh : ltb (now + retention_of state) later ≡ false = ground (arith, early) in
      let found =
        load-save now later id (saved_answer payload) s named (retention_of-positive now state)
          fresh in
      (
        λ whole.
            rw
              (
                persist-save payload store encoded,
                short,
                named,
                found,
                (assistant_content_whole response.content whole),
                with_answer-said history response.content,
              )
              refl,
        λ other.
            rw
              (
                persist-save payload store encoded,
                short,
                named,
                found,
                assistant_content_other response.content other,
              )
              refl,
      )
