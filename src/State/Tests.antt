-- ===== src/State/Tests.antt =====
-- Runs of the response state.
use kokekokkor.Common.{
  map, ap, sym, if◌then◌else◌, List, ◌==◌, Option, String, true, false, none, some, [], ◌∷◌, All,
  ◌≡◌, refl, Result, ok, err, string_eq, arith,
}
use kokekokkor.Common.Map.{lookup, insert, delete}
use kokekokkor.Llm.{
  pos, text_block, image_block, tool_call_block, tool_result_block, nil_block, no_blocks,
  more_blocks, MediaSource, Message, ResponseState, Request, Response,
}
use kokekokkor.State.{
  Conversation, Record, ResponseStatePlan, Store, assistant_content, new_store,
  normalize_responses_id, persist_responses_state, resolve_responses_state, response_not_found,
  save_response,
}
use kokekokkor.State.Background.{
  BackgroundResponseState, Runtime, responded, mark_status, publish_status,
  cancel_background_response, start_background_responses, begin_work, end_work,
}
use kokekokkor.State.Cancelled.{IsCancelled, cancel-end_work}
use kokekokkor.State.Codec.{
  MessageWire, WireJson, bad_block, not_marshalled, not_persistable, missing_source, block_wire,
  no_wires, more_wires, marshal_messages, unmarshal_messages, marshal_from, unmarshal_from,
}
use kokekokkor.State.Wires.{are_raw_messages, compact_message, compact_wire, JsonLaws}
use kokekokkor.State.Restored.{IsPersistable, IsStorable, Restores, unmarshal-marshal}
use kokekokkor.State.Continued.{answered_plan, continuing, persist-resolve}
use kokekokkor.State.Conversations.{conversation_plan, going_on, persist-resolve_conversation}

abbrev picture : MediaSource
picture = record { kind = "url"; url = "u"; media_type = ""; content = ""; file_id = "" }

abbrev tool_turn : Message
tool_turn = record {
  role = "user";
  name = "";
  content =
      more_blocks
        (tool_result_block "c1" "f" (more_blocks (image_block picture "alt") no_blocks) false)
        (more_blocks (text_block "done" []) no_blocks);
  metadata = [];
}

-- An encoding/json that keeps the structs as they are; the only JSON is "{}".
abbrev kept_json : WireJson (List MessageWire)
kept_json = record {
  marshal = λ wires.
      if are_raw_messages (λ raw. raw == "{}") wires then ok wires else err "invalid character";
  unmarshal = λ payload. ok (map (compact_message (λ raw. raw)) payload);
}

kept_payload :
    (wires payload : List MessageWire) → kept_json.marshal wires ≡ ok payload → wires ≡ payload
kept_payload wires payload e = ground (arith, e)

kept_json-JsonLaws : JsonLaws kept_json (λ raw. raw == "{}") (λ raw. raw)
kept_json-JsonLaws = record {
  accepts = λ wires raw. (wires, rw (raw) refl);
  refuses = λ wires payload e. ground (arith, e);
  reads = λ wires payload e.
      ap (λ given. ok (map (compact_message (λ raw. raw)) given))
        (sym (kept_payload wires payload e));
}

abbrev tool_call_turn : Message
tool_call_turn = record {
  role = "assistant";
  name = "";
  content =
      more_blocks (tool_call_block "c1" "f" "{}") (more_blocks (text_block "soon" []) no_blocks);
  metadata = [];
}

marshals :
    marshal_messages kept_json (tool_turn ∷ [])
    ≡ ok (
        record {
          role = "user";
          name = "";
          content =
              more_wires
                (block_wire "tool_result" "" [] none "f" "" "" "" "c1"
                  (more_wires
                    (block_wire "image" "" [] (some picture) "" "" "" "" "" no_wires false)
                    no_wires)
                  false)
                (more_wires
                  (block_wire "text" "done" [] none "" "" "" "" "" no_wires false)
                  no_wires);
        }
        ∷ [])
unfolding marshal_from are_raw_messages
marshals = refl

refuses_block :
    marshal_messages kept_json (
      record tool_turn {
        content = more_blocks (text_block "a" []) (more_blocks nil_block no_blocks);
      }
      ∷ [])
    ≡ err (bad_block 0 1 (not_persistable nil_block))
unfolding marshal_from
refuses_block = refl

refuses_arguments :
    marshal_messages kept_json
      (record tool_turn { content = more_blocks (tool_call_block "c1" "f" "{") no_blocks } ∷ [])
    ≡ err (not_marshalled "invalid character")
unfolding marshal_from are_raw_messages
refuses_arguments = refl

refuses_image :
    unmarshal_messages kept_json (
      record {
        role = "user";
        name = "";
        content = more_wires (block_wire "image" "" [] none "" "" "" "" "" no_wires false) no_wires;
      }
      ∷ [])
    ≡ err (bad_block 0 0 (missing_source "image"))
unfolding unmarshal_from compact_wire
refuses_image = refl

turns-IsStorable : All (IsStorable (λ raw. raw == "{}")) (tool_call_turn ∷ tool_turn ∷ [])
unfolding IsPersistable
turns-IsStorable = ((refl, (refl, (tt, tt))), ((refl, ((tt, tt), (tt, tt))), tt))

unmarshal-marshal_example : Restores kept_json (λ raw. raw) (tool_call_turn ∷ tool_turn ∷ [])
unmarshal-marshal_example =
    (unmarshal-marshal kept_json (λ raw. raw == "{}") (λ raw. raw) kept_json-JsonLaws
        (tool_call_turn ∷ tool_turn ∷ [])).0
      turns-IsStorable

abbrev stored : ResponseState
stored = record {
  previous_response_id = "";
  conversation_id = "";
  store = true;
  background = false;
  instruction_messages = pos 0;
}

abbrev answer : Response
answer = record {
  id = "1";
  created_at = pos 0;
  previous_response_id = "";
  conversation_id = "";
  background = false;
  store = true;
  model = "m";
  content =
      more_blocks (text_block "hi" []) (more_blocks (tool_call_block "c2" "f" "{}") no_blocks);
  stop_reason = "tool_use";
  stop_sequence = "";
  usage = record {
    input_tokens = pos 0;
    output_tokens = pos 0;
    reasoning_tokens = pos 0;
    cache_read_tokens = pos 0;
    cache_write_tokens = pos 0;
    metadata = [];
  };
  metadata = [];
}

abbrev chat : Request
chat = record {
  model = "m";
  messages =
      record { role = "system"; name = ""; content = no_blocks; metadata = [] } ∷ tool_turn ∷ [];
  tools = [];
  tool_choice = none;
  reasoning = none;
  response_format = none;
  response_state = none;
  max_output_tokens = none;
  temperature = none;
  top_p = none;
  stop = [];
  metadata = [];
}

-- EncodeResponsesResponse, as far as a test needs it.
abbrev encode_id : Response → Result String String
encode_id response = ok response.id

abbrev said : Message
said = record { role = "assistant"; name = ""; content = answer.content; metadata = [] }

abbrev after_answer : Store
after_answer =
    (persist_responses_state encode_id 5 (answered_plan encode_id 5 stored [] answer new_store)
      answer new_store).1

keeps_answer :
    lookup "resp_1" after_answer.responses
    ≡ some (record {
      messages = said ∷ [];
      continuable = true;
      payload = "resp_1";
      status = "completed";
      expires_at = 2592000000000005;
    })
unfolding persist_responses_state lookup insert
keeps_answer = refl

misses_other :
    (resolve_responses_state 6 (continuing "resp_2" 1 stored chat) after_answer).0
    ≡ err (response_not_found "resp_2")
unfolding resolve_responses_state persist_responses_state lookup insert
misses_other = refl

persist-resolve_example :
    (resolve_responses_state 6 (continuing "resp_1" 1 stored chat) after_answer).0
    ≡ ok (
      record chat {
        messages =
            record { role = "system"; name = ""; content = no_blocks; metadata = [] }
            ∷ said
            ∷ tool_turn
            ∷ [];
      },
      record {
        state = (continuing "resp_1" 1 stored chat).response_state;
        history = said ∷ tool_turn ∷ [];
        conversation = none;
      },
    )
unfolding normalize_responses_id assistant_content
persist-resolve_example =
    (persist-resolve encode_id 5 stored [] answer new_store "resp_1" 6 1 stored chat refl refl
        (omega arith) (omega arith)).0
      tt

abbrev talk : Conversation
talk = record { id = "conv_1"; created_at = 1; metadata = []; messages = []; continuable = true }

persist-resolve_conversation_example :
    (resolve_responses_state 6 (going_on "conv_1" 1 stored chat) (
      (persist_responses_state encode_id 5
        (conversation_plan encode_id 5 stored (tool_turn ∷ []) answer new_store talk)
        answer
        new_store).1)).0
    ≡ ok (
      record chat {
        messages =
            record { role = "system"; name = ""; content = no_blocks; metadata = [] }
            ∷ tool_turn
            ∷ said
            ∷ tool_turn
            ∷ [];
      },
      record {
        state = (going_on "conv_1" 1 stored chat).response_state;
        history = tool_turn ∷ said ∷ tool_turn ∷ [];
        conversation = some (record talk { messages = tool_turn ∷ said ∷ [] });
      },
    )
unfolding assistant_content
persist-resolve_conversation_example =
    (persist-resolve_conversation encode_id 5 stored (tool_turn ∷ []) answer new_store talk 6 1
        stored chat refl (omega arith)).0
      tt

abbrev background_plan : ResponseStatePlan
background_plan = record {
  state = some (record stored { background = true });
  history = tool_turn ∷ [];
  conversation = none;
}

-- EncodeBackgroundResponseState, as far as a test needs it.
abbrev encode_status : BackgroundResponseState → Result String String
encode_status job = ok job.status

abbrev idle : Runtime
idle = record { background = []; cancelled = []; responses = new_store }

abbrev queued : Runtime
queued =
    (start_background_responses encode_status 5 1 (ok "resp_gateway_a") "m" background_plan idle).1

abbrev status_text : Option Record → String
status_text none = ""
status_text (some saved) = saved.status

starts_queued : status_text (lookup "resp_gateway_a" queued.responses.responses) ≡ "queued"
unfolding start_background_responses lookup insert
starts_queued = refl

-- The response of `answer`, in full, ends the job.
completes :
    let left =
      end_work encode_status encode_id
        (λ body status. body)
        (λ e. "")
        7
        "resp_gateway_a"
        background_plan
        stored
        (responded 200 "" answer)
        (begin_work encode_status 6 "resp_gateway_a" queued) in
    (left.background ≡ [])
    × (status_text (lookup "resp_gateway_a" left.responses.responses) ≡ "completed")
unfolding start_background_responses end_work lookup insert delete
completes = (refl, refl)

-- A cancellation between the two parts of setBackgroundStatus is overwritten by the second.
overwrites_cancelled :
    let (job, marked) = mark_status encode_status "resp_gateway_a" "in_progress" "" queued in
    let (reported, cancelled) =
      cancel_background_response encode_status 6 "resp_gateway_a" marked in
    let left = publish_status encode_status 7 "resp_gateway_a" "in_progress" (job, cancelled) in
    (reported ≡ ok true)
    × (left.background ≡ [])
    × (status_text (lookup "resp_gateway_a" left.responses.responses) ≡ "in_progress")
unfolding start_background_responses cancel_background_response save_response lookup insert delete
overwrites_cancelled = (refl, refl, refl)

cancel-end_work_example :
    let left = (cancel_background_response encode_status 6 "resp_gateway_a" queued).1 in
    IsCancelled "resp_gateway_a" left.responses
    × (end_work encode_status encode_id
          (λ body status. body)
          (λ e. "")
          7
          "resp_gateway_a"
          background_plan
          stored
          (responded 200 "" answer)
          left
        ≡ left)
unfolding start_background_responses cancel_background_response lookup insert delete
cancel-end_work_example =
    cancel-end_work encode_status 6 "resp_gateway_a" encode_id (λ body status. body) (λ e. "") 7
      background_plan stored (responded 200 "" answer) queued refl
