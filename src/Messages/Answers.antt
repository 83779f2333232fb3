-- ===== src/Messages/Answers.antt =====
-- src/stratum_client/messages.cpp: which answers are told apart, and what a submission says.
use btccpu.Prelude.{
  Option-cases, ◌⊎◌, true, false, ap, ℕ, ℤ, Bool, List, [], subst, ◌∷◌, Option, none, some, ◌≡◌,
  ◌≢◌, refl, ◌∙◌, equal_text-false, inl, inr, arith,
}
use btccpu.Prelude.Options.{◌>>=◌, >>=-eq-some, or_else-eq-some}
use btccpu.Target.{FloatingPoint}
use btccpu.Json.{
  as_bool-some, as_array-boolean, as_string, Kind, null, boolean, int64, uint64, double, string,
  array, object, Json, IsJson, as_bool,
}
use btccpu.Messages.{
  AuthorizeResponse, SubmitResponse, SubmitShareRequest, IncomingMessage, subscribe_response,
  authorize_response, submit_response,
}
use btccpu.Messages.Parse.{
  error_key, id_key, method_key, params_key, result_key, fits_int, parse_message_id, parse_accepted,
  parse_error, parse_submit_response, parse_subscribe_response, parse_authorize_response,
  parse_method_message, parse_incoming_message, parse_object,
}
use btccpu.Messages.Wire.{submit_method, request_object, submit_object, submit_wire}

module _ (f : FloatingPoint) (json : Json f.Double) where
  parse_accepted-bool :
      (obj : json.Object) (result : json.Value) (accepted : Bool)
      → json.find obj result_key ≡ some result
      → json.kind result ≡ boolean accepted
      → parse_accepted f json obj ≡ some accepted
  unfolding parse_accepted
  parse_accepted-bool obj result accepted has_result is_bool =
      rw (has_result, is_bool, parse_accepted) refl

  parse_submit_response-bool :
      (obj : json.Object) (id : ℤ) (result : json.Value) (accepted : Bool)
      → parse_message_id f json obj ≡ some id
      → json.find obj result_key ≡ some result
      → json.kind result ≡ boolean accepted
      → parse_submit_response f json obj
        ≡ some (record {
          id = id;
          accepted = accepted;
          has_error = (parse_error f json obj).0;
          error_text = (parse_error f json obj).1;
        })
  unfolding parse_submit_response
  parse_submit_response-bool obj id result accepted has_id has_result is_bool =
      rw (has_id, parse_accepted-bool obj result accepted has_result is_bool) refl

  -- What the authorize parser takes, the submit parser takes, too.
  parse_authorize_response-submit :
      (obj : json.Object) (answer : AuthorizeResponse)
      → parse_authorize_response f json obj ≡ some answer
      → (r : SubmitResponse) × (parse_submit_response f json obj ≡ some r)
  unfolding parse_authorize_response
  parse_authorize_response-submit obj answer h =
      let (id, has_id, rest) = >>=-eq-some (parse_message_id f json obj) _ h in
      let (result, has_result, read) = >>=-eq-some (json.find obj result_key) _ rest in
      let (accepted, reads, made) = >>=-eq-some (as_bool json result) _ read in
      (
        _,
        parse_submit_response-bool obj id result accepted has_id has_result
            (as_bool-some json result accepted reads),
      )

  -- A method is not taken for an answer.
  parse_method_message-authorize_response :
      (obj : json.Object) (answer : AuthorizeResponse)
      → parse_method_message f json obj ≢ some (authorize_response answer)
  unfolding parse_method_message
  parse_method_message-authorize_response obj answer h =
      let (v, has_method, rest) = >>=-eq-some (json.find obj method_key) _ h in
      let (s, reads, made) = >>=-eq-some (as_string json v) _ rest in ground arith

  -- Nor is an answer.
  parse_object-authorize_response :
      (line : List ℕ) (obj : json.Object) (answer : AuthorizeResponse)
      → parse_object f json line obj ≢ some (authorize_response answer)
  unfolding parse_object
  parse_object-authorize_response line obj answer h =
      elim (or_else-eq-some (parse_method_message f json obj) _ h) [
        | inl e ↦ parse_method_message-authorize_response obj answer e
        | inr (_, h2) ↦
            elim (or_else-eq-some
              (parse_subscribe_response f json obj >>= λ msg. some (subscribe_response msg)) _ h2) [
                | inl e ↦
                    let (r, _, made) = >>=-eq-some (parse_subscribe_response f json obj) _ e in cc
                | inr (_, h3) ↦
                    elim (or_else-eq-some
                      (parse_submit_response f json obj >>= λ msg. some (submit_response msg)) _
                      h3) [
                        | inl e ↦
                            let (r, _, made) = >>=-eq-some (parse_submit_response f json obj) _ e in
                            cc
                        | inr (no_submit, h4) ↦
                            elim (or_else-eq-some
                              (parse_authorize_response f json obj >>= λ msg.
                                some (authorize_response msg))
                              _ h4) [
                                | inl e ↦
                                    (let (a, is_answer, _) =
                                        >>=-eq-some (parse_authorize_response f json obj) _ e in
                                      let (r, is_submit) =
                                        parse_authorize_response-submit obj a is_answer in
                                      let made =
                                        subst
                                          (λ o.
                                            (o >>= λ (msg : SubmitResponse). some (
                                              let m : IncomingMessage f.Double =
                                                submit_response msg in
                                              m))
                                            ≡ none)
                                          is_submit no_submit in
                                      cc)
                                | inr (_, made) ↦ cc
                              ]
                      ]
              ]
      ]

  kind-authorize_response :
      (line : List ℕ) (k : Kind json.Value json.Object f.Double) (answer : AuthorizeResponse)
      → elim k
          as (λ (k : Kind json.Value json.Object f.Double). Option (IncomingMessage f.Double)) [
            | object obj ↦ parse_object f json line obj
            | _ ↦ none
          ]
        ≢ some (authorize_response answer)
  kind-authorize_response line null answer h = cc
  kind-authorize_response line (boolean c) answer h = cc
  kind-authorize_response line (int64 i) answer h = cc
  kind-authorize_response line (uint64 n) answer h = cc
  kind-authorize_response line (double d) answer h = cc
  kind-authorize_response line (string s) answer h = cc
  kind-authorize_response line (array vs) answer h = cc
  kind-authorize_response line (object o) answer h = parse_object-authorize_response line o answer h

  -- No message of the pool is taken for the answer to an authorization.
  pub parse_incoming_message-authorize_response :
      (line : List ℕ) (answer : AuthorizeResponse)
      → parse_incoming_message f json line ≢ some (authorize_response answer)
  unfolding parse_incoming_message
  parse_incoming_message-authorize_response line answer h =
      let (v, parsed, rest) = >>=-eq-some (json.parse line) _ h in
      kind-authorize_response line (json.kind v) answer rest

  parse_message_id-int64 :
      (obj : json.Object) (id : ℤ) (id_value : json.Value)
      → json.find obj id_key ≡ some id_value
      → json.kind id_value ≡ int64 id
      → fits_int id ≡ true
      → parse_message_id f json obj ≡ some id
  unfolding parse_message_id
  parse_message_id-int64 obj id id_value has_id is_int fits = rw (has_id, is_int, fits) refl

  -- A response says of its error what the object says: nothing if there is none or it is null, and
  -- else that there is one, with its text.
  abbrev pub TellsError : json.Object → SubmitResponse → Type 0
  TellsError obj answer =
      ((json.find obj error_key ≡ none) × (answer.has_error ≡ false) × (answer.error_text ≡ []))
      ⊎ ((error : json.Value) × (json.find obj error_key ≡ some error)
          × (((json.kind error ≡ null) × (answer.has_error ≡ false) × (answer.error_text ≡ []))
              ⊎ ((json.kind error ≢ null)
                  × (answer.has_error ≡ true)
                  × (answer.error_text ≡ json.serialize error))))

  Kind-null : (k : Kind json.Value json.Object f.Double) → (k ≡ null) ⊎ (k ≢ null)
  Kind-null null = inl refl
  Kind-null (boolean c) = inr (λ h. cc)
  Kind-null (int64 i) = inr (λ h. cc)
  Kind-null (uint64 n) = inr (λ h. cc)
  Kind-null (double d) = inr (λ h. cc)
  Kind-null (string s) = inr (λ h. cc)
  Kind-null (array vs) = inr (λ h. cc)
  Kind-null (object o) = inr (λ h. cc)

  error_of_kind :
      (k : Kind json.Value json.Object f.Double) (text : List ℕ)
      → k ≢ null
      → elim k as (λ (k : Kind json.Value json.Object f.Double). Bool × List ℕ) [
        | null ↦ (false, [])
        | _ ↦ (true, text)
      ]
        ≡ (true, text)
  error_of_kind null text h = absurd (h refl)
  error_of_kind (boolean c) text h = refl
  error_of_kind (int64 i) text h = refl
  error_of_kind (uint64 n) text h = refl
  error_of_kind (double d) text h = refl
  error_of_kind (string s) text h = refl
  error_of_kind (array vs) text h = refl
  error_of_kind (object o) text h = refl

  parse_error-TellsError :
      (obj : json.Object) (id : ℤ) (accepted : Bool)
      → TellsError obj (record {
        id = id;
        accepted = accepted;
        has_error = (parse_error f json obj).0;
        error_text = (parse_error f json obj).1;
      })
  unfolding parse_error
  parse_error-TellsError obj id accepted = elim (Option-cases (json.find obj error_key)) [
    | inl e ↦ inl (e, rw (e, parse_error) refl, rw (e, parse_error) refl)
    | inr (error, e) ↦ elim (Kind-null (json.kind error)) [
      | inl is_null ↦ inr (
        error,
        e,
        inl (is_null, rw (e, is_null, parse_error) refl, rw (e, is_null, parse_error) refl),
      )
      | inr not_null ↦
          let told : parse_error f json obj ≡ (true, json.serialize error) =
            rw (e, parse_error) (error_of_kind (json.kind error) (json.serialize error) not_null) in
          inr (
            error,
            e,
            inr (
              not_null,
              ap (λ (q : Bool × List ℕ). q.0) told,
              ap (λ (q : Bool × List ℕ). q.1) told,
            ),
          )
    ]
  ]

  -- A line that parses to an object without a method, with a whole number that an int holds as its id
  -- and a Boolean as its result is taken for the response to a submission, with that id and that
  -- result; the response has no error if the object has none or null, and else the error's text.
  pub parse_incoming_message-bool :
      (line : List ℕ) (v : json.Value) (obj : json.Object) (id : ℤ) (id_value result : json.Value)
      (accepted : Bool)
      → json.parse line ≡ some v
      → json.kind v ≡ object obj
      → json.find obj method_key ≡ none
      → json.find obj id_key ≡ some id_value
      → json.kind id_value ≡ int64 id
      → fits_int id ≡ true
      → json.find obj result_key ≡ some result
      → json.kind result ≡ boolean accepted
      → (answer : SubmitResponse) × (parse_incoming_message f json line
          ≡ some (submit_response answer))
        × (answer.id ≡ id)
        × (answer.accepted ≡ accepted)
        × TellsError obj answer
  unfolding parse_incoming_message parse_object parse_method_message parse_subscribe_response
  parse_incoming_message-bool line v obj id id_value result accepted parsed is_object no_method
        has_id is_int fits has_result is_bool =
      let reads_id = parse_message_id-int64 obj id id_value has_id is_int fits in
      (
        _,
        rw
            (
              parsed,
              is_object,
              no_method,
              reads_id,
              has_result,
              as_array-boolean json result accepted is_bool,
              parse_submit_response-bool obj id result accepted reads_id has_result is_bool,
            )
            refl,
        refl,
        refl,
        parse_error-TellsError obj id accepted,
      )

module _ (f : FloatingPoint) (json : Json f.Double) where
  abbrev text_value : List ℕ → json.Value
  text_value s = json.value (string s)

  -- A submission as the protocol has it: an object with the id, the method mining.submit and, as
  -- parameters, the worker's name, the job's id, the second extranonce, the time and the nonce.
  abbrev pub submission_params : SubmitShareRequest → List json.Value
  submission_params request =
      text_value request.worker_name
      ∷ text_value request.job_id
      ∷ text_value request.extranonce2_hex
      ∷ text_value request.ntime_hex
      ∷ text_value request.nonce_hex
      ∷ []

  abbrev pub submission_value : SubmitShareRequest → ℤ → json.Value
  submission_value request id =
      let numbered = json.assign json.empty_object id_key (json.value (int64 id)) in
      let named = json.assign numbered method_key (text_value submit_method) in
      json.value
        (object (json.assign named params_key (json.value (array (submission_params request)))))

  -- When the JSON library reads its own text of a submission back, as it does for texts in UTF-8, what
  -- the other side parses of the line that the client writes is an object with the id, the method
  -- mining.submit and, as parameters, the worker's name, the job's id, the second extranonce, the time
  -- and the nonce.
  pub parse-submit_wire :
      (request : SubmitShareRequest) (id : ℤ)
      → IsJson json
      → json.parse (json.serialize (submission_value request id))
        ≡ some (submission_value request id)
      → (obj : json.Object) × (json.parse (submit_wire f json request id)
          ≡ some (json.value (object obj)))
        × (json.find obj id_key ≡ some (json.value (int64 id)))
        × (json.find obj method_key ≡ some (text_value submit_method))
        × (json.find obj params_key ≡ some (json.value (array (submission_params request))))
  unfolding submit_wire submit_object request_object
  parse-submit_wire request id law parsed = (
    submit_object f json request id,
    parsed,
    law.find-assign_other _ params_key id_key _ (equal_text-false id_key params_key refl)
        ∙ law.find-assign_other _ method_key id_key _ (equal_text-false id_key method_key refl)
        ∙ law.find-assign json.empty_object id_key (json.value (int64 id)),
    law.find-assign_other _ params_key method_key _ (equal_text-false method_key params_key refl)
        ∙ law.find-assign _ method_key _,
    law.find-assign _ params_key _,
  )
