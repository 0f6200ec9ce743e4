-- ===== src/State/Background.antt =====
-- Responses that are made in the background: internal/translator/background_responses.go. What happens
-- between two calls of the store or under the mutex is one step; a job's cancel function is its ID in
-- `cancelled`.
use kokekokkor.Common.{
  String, ℕ, ◌+◌, Bool, true, false, not, ◌||◌, Option, none, some, List, ◌∷◌, Result, ok, err, ltb,
  leb, ◌==◌, string_eq, ℕ_eq, if◌then◌else◌,
}
use kokekokkor.Common.Map.{Map, lookup, insert, delete}
use kokekokkor.Llm.{ResponseState, Response}
use kokekokkor.State.{
  background_retention, Record, StateError, not_encoded, not_background, not_stored, Store,
  ResponseStatePlan, is_expired, load_response, save_response, persist_responses_state,
}

pub record BackgroundResponseState : Type 0 where
  pub id : String
  pub model : String
  pub status : String
  pub previous_response_id : String
  pub conversation_id : String
  pub store : Bool
  pub created_at : ℕ
  pub error_message : String

-- The part of the translator's Runtime that background responses use.
pub record Runtime : Type 0 where
  pub background : Map String BackgroundResponseState
  pub cancelled : List String
  pub responses : Store

-- What the work came to: its context ended, it failed, or an upstream response with its status and body
-- and the neutral one.
pub data WorkOutcome : Type 0 where
  context_ended work_failed : String → WorkOutcome
  responded : ℕ → String → Response → WorkOutcome

abbrev pub claimed :
    String → Option BackgroundResponseState → Runtime → Option BackgroundResponseState × Runtime
claimed id none r = (none, r)
claimed id (some job) r = (some job, record r { background = delete id r.background })

abbrev pub claim_background_job : String → Runtime → Option BackgroundResponseState × Runtime
claim_background_job id r = claimed id (lookup id r.background) r

-- `job.cancel()`.
abbrev pub cancel_job : String → Runtime → Runtime
cancel_job id r = record r { cancelled = id ∷ r.cancelled }

-- A stored record with another payload and status, which cannot be continued.
abbrev pub with_status : String → String → Record → Record
with_status payload status saved = record saved {
  payload = payload;
  status = status;
  continuable = false;
}

abbrev pub save_status : ℕ → String → String → String → Result StateError Record × Store → Store
save_status now id payload status (err e, s) = s
save_status now id payload status (ok saved, s) =
    (save_response now id (with_status payload status saved) s).1

abbrev pub saved_cancelled : Result StateError (Unit {0}) × Store → Result StateError Bool × Store
saved_cancelled (err e, s) = (err e, s)
saved_cancelled (ok tt, s) = (ok true, s)

abbrev pub save_cancelled :
    ℕ → String → String → Result StateError Record × Store → Result StateError Bool × Store
save_cancelled now id payload (err e, s) = (err e, s)
save_cancelled now id payload (ok saved, s) = saved_cancelled (
    save_response now id
      (record (with_status payload "cancelled" saved) {
        expires_at = if saved.expires_at == 0 then now + background_retention else saved.expires_at;
      })
      s)

abbrev pub with_store : {A : Type 0} → Runtime → A × Store → A × Runtime
with_store r (value, s) = (value, record r { responses = s })

-- `encode_state` is EncodeBackgroundResponseState.
module _ (encode_state : BackgroundResponseState → Result String String) where
  abbrev pub publish_encoded : ℕ → String → String → Result String String → Runtime → Runtime
  publish_encoded now id status (err e) r = r
  publish_encoded now id status (ok payload) r = record r {
    responses = save_status now id payload status (load_response now id r.responses);
  }

  -- The part of setBackgroundStatus under the mutex, and the part after it.
  abbrev marked :
      String
      → String
      → String
      → Option BackgroundResponseState
      → Runtime
      → Option BackgroundResponseState × Runtime
  marked id status message none r = (none, r)
  marked id status message (some job) r =
      let changed = record job { status = status; error_message = message } in
      (some changed, record r { background = insert id changed r.background })

  abbrev pub mark_status :
      String → String → String → Runtime → Option BackgroundResponseState × Runtime
  mark_status id status message r = marked id status message (lookup id r.background) r

  abbrev pub publish_status :
      ℕ → String → String → Option BackgroundResponseState × Runtime → Runtime
  publish_status now id status (none, r) = r
  publish_status now id status (some job, r) = publish_encoded now id status (encode_state job) r

  unfoldable pub set_background_status : ℕ → String → String → String → Runtime → Runtime
  unfolding save_response is_expired
  set_background_status now id status message r =
      publish_status now id status (mark_status id status message r)

  abbrev pub cancel_encoded :
      ℕ → String → Result String String → Runtime → Result StateError Bool × Runtime
  cancel_encoded now id (err e) r = (err (not_encoded e), r)
  cancel_encoded now id (ok payload) r =
      with_store r (save_cancelled now id payload (load_response now id r.responses))

  abbrev pub cancel_claimed :
      ℕ → String → Option BackgroundResponseState × Runtime → Result StateError Bool × Runtime
  cancel_claimed now id (none, r) = (ok false, r)
  cancel_claimed now id (some job, r) =
      cancel_encoded now id (encode_state (record job { status = "cancelled" })) (cancel_job id r)

  unfoldable pub cancel_background_response :
      ℕ → String → Runtime → Result StateError Bool × Runtime
  unfolding save_response is_expired
  cancel_background_response now id r = cancel_claimed now id (claim_background_job id r)

  abbrev pub queue_saved :
      String
      → BackgroundResponseState
      → String
      → Runtime
      → Result StateError (Unit {0}) × Store
      → Result StateError String × Runtime
  queue_saved id queued payload r (err e, s) = (err e, record r { responses = s })
  queue_saved id queued payload r (ok tt, s) =
      (ok payload, record r { background = insert id queued r.background; responses = s })

  abbrev pub queue_encoded :
      ℕ
      → String
      → ResponseStatePlan
      → BackgroundResponseState
      → Result String String
      → Runtime
      → Result StateError String × Runtime
  queue_encoded now id plan queued (err e) r = (err (not_encoded e), r)
  queue_encoded now id plan queued (ok payload) r = queue_saved id queued payload r (
      save_response now id
        (record {
          messages = plan.history;
          continuable = false;
          payload = payload;
          status = "queued";
          expires_at = now + background_retention;
        })
        r.responses)

  -- `seconds` is time.Now().Unix() and the ID is newGatewayResponseID's.
  abbrev pub queue_identified :
      ℕ
      → ℕ
      → String
      → ResponseStatePlan
      → ResponseState
      → Result String String
      → Runtime
      → Result StateError String × Runtime
  queue_identified now seconds model plan state (err e) r = (err (not_encoded e), r)
  queue_identified now seconds model plan state (ok id) r =
      let queued : BackgroundResponseState = record {
        id = id;
        model = model;
        status = "queued";
        previous_response_id = state.previous_response_id;
        conversation_id = state.conversation_id;
        store = true;
        created_at = seconds;
        error_message = "";
      } in
      queue_encoded now id plan queued (encode_state queued) r

  abbrev pub start_with :
      ℕ
      → ℕ
      → Result String String
      → String
      → ResponseStatePlan
      → Option ResponseState
      → Runtime
      → Result StateError String × Runtime
  start_with now seconds new_id model plan none r = (err not_background, r)
  start_with now seconds new_id model plan (some state) r =
      if not state.background
      then (err not_background, r)
      else if not state.store
      then (err not_stored, r)
      else queue_identified now seconds model plan state new_id r

  unfoldable pub start_background_responses :
      ℕ
      → ℕ
      → Result String String
      → String
      → ResponseStatePlan
      → Runtime
      → Result StateError String × Runtime
  unfolding save_response
  start_background_responses now seconds new_id model plan r =
      start_with now seconds new_id model plan plan.state r

  -- runBackgroundResponses before the work and after it. `encode` is EncodeResponsesResponse and
  -- `error_message` upstream.ErrorMessage.
  abbrev pub begin_work : ℕ → String → Runtime → Runtime
  begin_work now id r = set_background_status now id "in_progress" "" r

  abbrev release : String → Option BackgroundResponseState → Runtime → Runtime
  release id none r = r
  release id (some job) r = record (cancel_job id r) { background = delete id r.background }

  abbrev pub after_work : String → Runtime → Runtime
  after_work id r = release id (lookup id r.background) r

  abbrev pub persist_failed :
      ℕ
      → String
      → BackgroundResponseState
      → Runtime
      → Result StateError (Unit {0}) × Store
      → (StateError → String)
      → Runtime
  persist_failed now id job r (ok tt, s) text = record r { responses = s }
  persist_failed now id job r (err e, s) text =
      publish_encoded now id "failed"
        (encode_state
          (record job { id = id; status = "failed"; store = true; error_message = text e }))
        (record r { responses = s })

  module _ (encode : Response → Result String String) (error_message : String → ℕ → String)
      (error_text : StateError → String) where
    abbrev pub complete :
        ℕ
        → String
        → ResponseStatePlan
        → ResponseState
        → Response
        → Option BackgroundResponseState × Runtime
        → Runtime
    complete now id plan state response (none, r) = r
    complete now id plan state response (some job, r) =
        persist_failed now id job (cancel_job id r)
          (persist_responses_state encode now plan
            (record response {
              id = id;
              previous_response_id = state.previous_response_id;
              conversation_id = state.conversation_id;
              background = true;
              store = true;
            })
            r.responses)
          error_text

    abbrev pub finish_work :
        ℕ → String → ResponseStatePlan → ResponseState → WorkOutcome → Runtime → Runtime
    finish_work now id plan state (context_ended text) r =
        set_background_status now id "failed" text r
    finish_work now id plan state (work_failed text) r =
        set_background_status now id "failed" text r
    finish_work now id plan state (responded status body response) r =
        if ltb status 200 || leb 300 status
        then set_background_status now id "failed" (error_message body status) r
        else complete now id plan state response (claim_background_job id r)

    unfoldable pub end_work :
        ℕ → String → ResponseStatePlan → ResponseState → WorkOutcome → Runtime → Runtime
    unfolding set_background_status persist_responses_state
    end_work now id plan state outcome r = after_work id (finish_work now id plan state outcome r)
