-- ===== src/State/Cancelled.antt =====
-- What becomes of a cancelled background response: internal/translator/background_responses.go.
use kokekokkor.Common.{
  String, ℕ, Bool, true, false, ◌||◌, Option, none, some, ◌≡◌, refl, ◌∙◌, Result, ok, err, ltb, leb,
  ◌==◌, string_eq, ℕ_eq, if_both, ==-refl,
}
use kokekokkor.Common.Map.{lookup, lookup-insert, lookup-delete}
use kokekokkor.Llm.{ResponseState, Response}
use kokekokkor.State.{
  Record, StateError, Store, ResponseStatePlan, load_response, save_response, with_expiry,
}
use kokekokkor.State.Background.{
  BackgroundResponseState, Runtime, WorkOutcome, context_ended, work_failed, responded, claimed,
  saved_cancelled, save_cancelled, set_background_status, cancel_encoded, cancel_claimed,
  cancel_background_response, finish_work, end_work,
}

-- A store holds the response as cancelled, not to be continued.
abbrev pub IsCancelled : String → Store → Type 0
IsCancelled id s =
    (saved : Record) × (lookup id s.responses ≡ some saved)
    × (saved.status ≡ "cancelled")
    × (saved.continuable ≡ false)

record Ends (id : String) (out : Result StateError Bool × Store) : Type 0 where
  ends : out.0 ≡ ok true → IsCancelled id (out.1)

save-Ends :
    (now : ℕ) (id : String) (ended : Record) (s : Store)
    → ended.status ≡ "cancelled"
    → ended.continuable ≡ false
    → Ends id (saved_cancelled (save_response now id ended s))
unfolding save_response
save-Ends now id ended s stopped final =
    let Kept : Record → Type 0 = λ r. (r.status ≡ "cancelled") × (r.continuable ≡ false) in
    let kept : Kept (with_expiry now ended) =
      if_both Kept (ended.expires_at == 0) (stopped, final) (stopped, final) in
    let Ended : Result StateError (Unit {0}) × Store → Type 0 =
      λ out. Ends id (saved_cancelled out) in
    if_both Ended (id == "") record { ends = λ wrong. cc }
      record {
        ends = λ fine. (
          with_expiry now ended,
          rw (lookup-insert id id (with_expiry now ended) s.responses, ==-refl id) refl,
          kept.0,
          kept.1,
        );
      }

save_cancelled-Ends :
    (now : ℕ) (id payload : String) (found : Result StateError Record × Store)
    → Ends id (save_cancelled now id payload found)
save_cancelled-Ends now id payload (err e, s) = record { ends = λ wrong. cc }
save_cancelled-Ends now id payload (ok saved, s) = save-Ends now id _ s refl refl

module _ (encode_state : BackgroundResponseState → Result String String) (now : ℕ)
    (id : String) where
  -- The job is gone, and the response is stored as cancelled.
  record Settled (out : Result StateError Bool × Runtime) : Type 0 where
    settled :
        out.0 ≡ ok true → (lookup id (out.1).background ≡ none) × IsCancelled id (out.1).responses

  cancel_encoded-Settled :
      (encoded : Result String String) (r : Runtime)
      → lookup id r.background ≡ none
      → Settled (cancel_encoded encode_state now id encoded r)
  cancel_encoded-Settled (err e) r gone = record { settled = λ wrong. cc }
  cancel_encoded-Settled (ok payload) r gone = record {
    settled = λ fine.
        (gone, (save_cancelled-Ends now id payload (load_response now id r.responses)).ends fine);
  }

  cancel_claimed-Settled :
      (job : Option BackgroundResponseState) (r : Runtime)
      → Settled (cancel_claimed encode_state now id (claimed id job r))
  cancel_claimed-Settled none r = record { settled = λ wrong. cc }
  cancel_claimed-Settled (some job) r =
      cancel_encoded-Settled _ _ (lookup-delete id id r.background ∙ rw (==-refl id) refl)

  module _ (encode : Response → Result String String) (error_message : String → ℕ → String)
      (error_text : StateError → String) (later : ℕ) (plan : ResponseStatePlan)
      (state : ResponseState) (r : Runtime) where
    finish_work-gone :
        (outcome : WorkOutcome)
        → lookup id r.background ≡ none
        → finish_work encode_state encode error_message error_text later id plan state outcome r ≡ r
    unfolding set_background_status
    finish_work-gone (context_ended text) gone = rw (gone) refl
    finish_work-gone (work_failed text) gone = rw (gone) refl
    finish_work-gone (responded status body response) gone =
        if_both (λ t. t ≡ r) (ltb status 200 || leb 300 status) (rw (gone) refl) (rw (gone) refl)

    end_work-gone :
        (outcome : WorkOutcome)
        → lookup id r.background ≡ none
        → end_work encode_state encode error_message error_text later id plan state outcome r ≡ r
    unfolding end_work
    end_work-gone outcome gone = rw (finish_work-gone outcome gone, gone) refl

  -- A background response whose cancellation reports success is stored as cancelled and cannot be
  -- continued, and the end of its work, where it comes after the cancellation, changes nothing, however
  -- the work ended.
  pub cancel-end_work :
      (encode : Response → Result String String) (error_message : String → ℕ → String)
      (error_text : StateError → String) (later : ℕ) (plan : ResponseStatePlan)
      (state : ResponseState) (outcome : WorkOutcome) (r : Runtime)
      → (cancel_background_response encode_state now id r).0 ≡ ok true
      → let left = (cancel_background_response encode_state now id r).1 in
        IsCancelled id left.responses
        × (end_work encode_state encode error_message error_text later id plan state outcome left
            ≡ left)
  unfolding cancel_background_response
  cancel-end_work encode error_message error_text later plan state outcome r fine =
      let (gone, stopped) = (cancel_claimed-Settled (lookup id r.background) r).settled fine in
      (
        stopped,
        end_work-gone encode error_message error_text later plan state
            ((cancel_background_response encode_state now id r).1) outcome gone,
      )
