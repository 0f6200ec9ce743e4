-- ===== src/State/Conversations.antt =====
-- How a conversation goes on: internal/translator/response_state.go.
use kokekokkor.Common.{
  true, String, ℕ, ◌≤◌, Bool, false, not, none, some, List, ◌++◌, length, take, drop, ◌≡◌, refl,
  Result, ok, err, ltb, ◌==◌, string_eq, ==-refl, if_both, arith,
}
use kokekokkor.Common.Map.{lookup, insert, lookup-insert}
use kokekokkor.Llm.{pos, Message, ResponseState, Request, Response}
use kokekokkor.State.Continued.{
  IsContinuable, said, assistant_content_whole, assistant_content_other, with_answer-said,
}
use kokekokkor.State.{
  Record, Conversation, StateError, not_continuable_conversation, Store, ResponseStatePlan,
  save_response, save_conversation, save_encoded, keep_response, resolve_responses_state, prior_of,
  normalize_responses_id, assistant_content, with_answer, persist_responses_state,
}

-- Saving a response leaves the conversations alone.
record Leaves (s : Store) (out : Result StateError (Unit {0}) × Store) : Type 0 where
  same : (out.1).conversations ≡ s.conversations

save_response-Leaves :
    (now : ℕ) (id : String) (saved : Record) (s : Store) → Leaves s (save_response now id saved s)
unfolding save_response
save_response-Leaves now id saved s =
    if_both (Leaves s) (id == "") record { same = refl } record { same = refl }

save_encoded-Leaves :
    (now : ℕ) (state : ResponseState) (history : List Message) (continuable : Bool)
    (response : Response) (encoded : Result String String) (s : Store)
    → Leaves s (save_encoded now state history continuable response encoded s)
save_encoded-Leaves now state history continuable response (err e) s = record { same = refl }
save_encoded-Leaves now state history continuable response (ok payload) s =
    save_response-Leaves now response.id _ s

-- A request that goes on with a conversation, after its first `n` messages.
abbrev pub going_on : String → ℕ → ResponseState → Request → Request
going_on id n next request = record request {
  response_state = some (record next { conversation_id = id; instruction_messages = pos n });
}

module _ (encode : Response → Result String String) (now : ℕ) (state : ResponseState)
    (history : List Message) (response : Response) (s : Store) (conversation : Conversation) where
  abbrev pub conversation_plan : ResponseStatePlan
  conversation_plan = record {
    state = some state;
    history = history;
    conversation = some conversation;
  }

  abbrev pub gone_on : Conversation
  gone_on = record conversation {
    messages = with_answer history ((assistant_content response.content).0);
    continuable = (assistant_content response.content).1;
  }

  keep_response-Leaves :
      (answer : Response) (t : Store) (continuable : Bool) (messages : List Message)
      → Leaves t (keep_response encode now state messages continuable answer (ok tt, t))
  keep_response-Leaves answer t continuable messages =
      if_both (Leaves t) (not state.store) record { same = refl }
        (save_encoded-Leaves now state messages continuable answer (encode answer) t)

  persist-lookup :
      (conversation.id == "") ≡ false
      → lookup conversation.id
          ((persist_responses_state encode now conversation_plan response s).1).conversations
        ≡ some gone_on
  unfolding persist_responses_state save_conversation
  persist-lookup named =
      let answer : Response = record response { id = normalize_responses_id response.id } in
      let left : Store = record s {
        conversations = insert conversation.id gone_on s.conversations;
      } in
      rw
        (
          named,
          (keep_response-Leaves answer left gone_on.continuable gone_on.messages).same,
          lookup-insert conversation.id conversation.id gone_on s.conversations,
          ==-refl conversation.id,
        )
        refl

  -- Whatever becomes of the response itself, its conversation, which has an ID, goes on: a request that
  -- names it gets, after its instructions, the earlier messages with the whole answer and then its own,
  -- where the answer held text and tool calls only. If it held anything else, the request is refused.
  pub persist-resolve_conversation :
      (later n : ℕ) (next : ResponseState) (request : Request)
      → (conversation.id == "") ≡ false
      → n ≤ length request.messages
      → let asked = going_on conversation.id n next request in
        let after =
          resolve_responses_state later asked
            ((persist_responses_state encode now conversation_plan response s).1) in
        let prior = history ++ said response.content in
        let current = drop n request.messages in
        (IsContinuable response.content
          → after.0
            ≡ ok (
              record request {
                messages = take n request.messages ++ (prior ++ current);
                response_state = none;
              },
              record {
                state = asked.response_state;
                history = prior ++ current;
                conversation = some (record conversation { messages = prior; continuable = true });
              },
            ))
        × (¬ IsContinuable response.content
            → after.0 ≡ err (not_continuable_conversation conversation.id))
  unfolding resolve_responses_state prior_of
  persist-resolve_conversation later n next request named within =
      let short : ltb (length request.messages) n ≡ false = ground (arith, within) in
      (
        λ whole.
            rw
              (
                short,
                named,
                persist-lookup named,
                assistant_content_whole response.content whole,
                with_answer-said history response.content,
              )
              refl,
        λ other.
            rw (short, named, persist-lookup named, assistant_content_other response.content other)
              refl,
      )
