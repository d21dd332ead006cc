-- ===== src/Receiver/Middleware/Answers.antt =====
-- What the client gets through `StructLogMiddleware`.
use gex_test_jonatha.Prelude.{
  ℕ, suc, ◌≡◌, refl, sym, ap, ◌∙◌, inl, inr, String, Bool, true, false, List, [], ◌∷◌, ◌++◌, map,
  ◌==◌, if◌then◌else◌, Bool-cases,
}
use mathlib.Core.List.{append-nil, append_assoc}
use gex_test_jonatha.Prelude.Strings.{is_empty}
use gex_test_jonatha.Exec.{Result, ok, raise, recover}
use gex_test_jonatha.Common.Library.{Library, Bytes}
use gex_test_jonatha.Receiver.Middleware.{
  Message, start, other, Scope, Behaviour, Wire, run_app, bind_contextvars, decode_headers,
  last_value, request_id, tagged, inner_send, on_error, guarded, handle,
}

-- the last status that was sent, and whether there was one
abbrev pub status_after : ℕ → List Message → ℕ
status_after code [] = code
status_after code (start status headers ∷ ms) = status_after status ms
status_after code (other kind body ∷ ms) = status_after code ms

abbrev pub starts : Bool → List Message → Bool
starts b [] = b
starts b (start status headers ∷ ms) = starts true ms
starts b (other kind body ∷ ms) = starts b ms

module _ (l : Library) (encode : String → Bytes) (error_headers : List (Bytes × Bytes))
    (error_body : Bytes) where
  -- what the middleware adds: an answer of its own, after an exception before any start
  abbrev pub error_answer : Result (Unit {0}) → Bool → List Message
  error_answer (ok _) started = []
  error_answer (raise e) true = []
  error_answer (raise e) false =
      start 500 error_headers ∷ other "http.response.body" error_body ∷ []

  -- the wire after the application, and after the whole call, if no `send` raises
  abbrev pub after_app : String → List Message → Wire → Wire
  after_app id ms w = record w {
    sent = w.sent ++ map (tagged l encode error_headers error_body id) ms;
    send_faults = [];
    status_code = status_after w.status_code ms;
    response_started = starts w.response_started ms;
  }

  abbrev pub calm : Wire → Wire
  calm w = record w { send_faults = [] }

  run_app-quiet :
      (id : String) (ms : List Message) (ends : Result (Unit {0})) (w : Wire)
      → run_app (inner_send l encode error_headers error_body id) ms ends (calm w)
        ≡ (ends, after_app id ms w)
  unfolding run_app inner_send
  run_app-quiet id [] ends w = rw (append-nil w.sent) refl
  run_app-quiet id (start status headers ∷ ms) ends w =
      let m = tagged l encode error_headers error_body id (start status headers) in
      run_app-quiet id ms ends
        (record w { sent = w.sent ++ m ∷ []; status_code = status; response_started = true })
      ∙ rw (append_assoc w.sent (m ∷ []) (map (tagged l encode error_headers error_body id) ms))
          refl
  run_app-quiet id (other kind body ∷ ms) ends w =
      let m : Message = other kind body in
      run_app-quiet id ms ends (record w { sent = w.sent ++ m ∷ [] })
      ∙ rw (append_assoc w.sent (m ∷ []) (map (tagged l encode error_headers error_body id) ms))
          refl

  -- what the client gets, and the status that is logged
  abbrev pub answer : String → Behaviour → List Message
  answer id b =
      map (tagged l encode error_headers error_body id) b.sends
      ++ error_answer b.ends (starts false b.sends)

  abbrev pub logged_status : Behaviour → ℕ
  logged_status b = status_after 500 b.sends

  -- the wire where the `try` begins
  abbrev pub opened : Wire → Wire
  opened w = record w { send_faults = []; status_code = 500; response_started = false }

  status_unstarted :
      (code : ℕ) (ms : List Message) → starts false ms ≡ false → status_after code ms ≡ code
  status_unstarted code [] h = refl
  status_unstarted code (start status headers ∷ ms) h = absurd (starts_true ms h)
    where
      starts_true : (ms : List Message) → starts true ms ≡ false → ⊥
      starts_true [] h = cc
      starts_true (start status headers ∷ ms) h = starts_true ms h
      starts_true (other kind body ∷ ms) h = starts_true ms h
  status_unstarted code (other kind body ∷ ms) h = status_unstarted code ms h

  abbrev Caught : Behaviour → String → Wire → Result (Unit {0}) × Wire → Type 0
  Caught b id w p =
      (p.0 ≡ ok tt)
      × (p.1.sent ≡ w.sent ++ answer id b)
      × (p.1.access_log ≡ w.access_log)
      × (p.1.status_code ≡ logged_status b)

  recover-quiet :
      (id : String) (ms : List Message) (ends : Result (Unit {0})) (w : Wire)
      → Caught
          (record { sends = ms; ends = ends })
          id
          w
          (recover (on_error l encode error_headers error_body) (ends, after_app id ms (opened w)))
  unfolding on_error
  recover-quiet id ms (ok _) w = (refl, ap (λ xs. w.sent ++ xs) (sym (append-nil _)), refl, refl)
  recover-quiet id ms (raise e) w = elim (Bool-cases (starts false ms)) [
    | inl begun ↦ rw begun (refl, ap (λ xs. w.sent ++ xs) (sym (append-nil _)), refl, refl)
    | inr unbegun ↦
        let tags = map (tagged l encode error_headers error_body id) ms in
        rw unbegun (
          refl,
          append_assoc (w.sent ++ tags) (start 500 error_headers ∷ []) _
              ∙ append_assoc w.sent tags _,
          refl,
          sym (status_unstarted 500 ms unbegun),
        )
  ]

  guarded-quiet :
      (id : String) (b : Behaviour) (w : Wire)
      → let (r, w') = guarded l encode error_headers error_body id b (opened w) in
        (r ≡ ok tt)
        × (w'.sent ≡ w.sent ++ answer id b)
        × (w'.access_log ≡ w.access_log ++ logged_status b ∷ [])
  unfolding guarded
  guarded-quiet id b w =
      let (r, sent, log, code) = recover-quiet id b.sends b.ends w in
      rw (run_app-quiet id b.sends b.ends (opened w)) (r, sent, rw (log, code) refl)

  -- the id of a request: its last header of that name, or a fresh one if that is empty or missing
  abbrev pub id_of : List (String × String) → Wire → String
  id_of headers w =
      let id = last_value l encode error_headers error_body "x-correlation-id" "" headers in
      if is_empty id then l.uuid4 w.uuid_count else id

  -- the wire that the application sees
  abbrev pub bound : Scope → List (String × String) → Wire → Wire
  bound scope headers w =
      let id = last_value l encode error_headers error_body "x-correlation-id" "" headers in
      record (bind_contextvars (id_of headers w) scope w) {
        uuid_count = if is_empty id then suc w.uuid_count else w.uuid_count;
        status_code = 500;
        response_started = false;
      }

  module _ (scope : Scope) (http : (scope.kind == "http") ≡ true) (app : Wire → Behaviour) where
    pub handle-bound :
        (headers : List (String × String)) (w : Wire)
        → decode_headers l encode error_headers error_body scope.headers ≡ ok headers
        → handle l encode error_headers error_body scope app w
          ≡ guarded l encode error_headers error_body
              (id_of headers w)
              (app (bound scope headers w))
              (bound scope headers w)
    unfolding handle request_id
    handle-bound headers w h =
        elim (Bool-cases
          (is_empty (last_value l encode error_headers error_body "x-correlation-id" "" headers))) [
            | inl missing ↦ rw (http, h, missing) refl
            | inr given ↦ rw (http, h, given) refl
          ]

    -- While no `send` raises, an HTTP request with headers in UTF-8 is answered by the application's
    -- messages, each start with the correlation id of the request or a fresh one added, nothing is
    -- raised, and the last status, or 500 without one, is logged. If the application raises before
    -- any start, a response of status 500 follows, which has no correlation id.
    pub handle_answers :
        (headers : List (String × String)) (w : Wire)
        → decode_headers l encode error_headers error_body scope.headers ≡ ok headers
        → let (r, w') = handle l encode error_headers error_body scope app (calm w) in
          let b = app (bound scope headers (calm w)) in
          (r ≡ ok tt)
          × (w'.sent ≡ w.sent ++ answer (id_of headers w) b)
          × (w'.access_log ≡ w.access_log ++ logged_status b ∷ [])
    handle_answers headers w h = rw (handle-bound headers (calm w) h) (
        guarded-quiet (id_of headers w) (app (bound scope headers (calm w)))
          (bound scope headers (calm w)))
