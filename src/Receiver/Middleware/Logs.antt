-- ===== src/Receiver/Middleware/Logs.antt =====
-- What `StructLogMiddleware` logs.
use gex_test_jonatha.Prelude.{
  ℕ, ◌≡◌, refl, ◌⊎◌, inl, inr, String, true, none, some, List, [], ◌∷◌, ◌++◌, not, ◌==◌,
}
use gex_test_jonatha.Exec.{Exn, Result, ok, raise, Exec, catch}
use gex_test_jonatha.Exec.Keeps.{
  Keeps, Keeps-then, Keeps-pure, Keeps-lift, Keeps-modify, Keeps-if, Keeps-catch,
}
use gex_test_jonatha.Common.Library.{Library, Bytes}
use gex_test_jonatha.World.{Fault}
use gex_test_jonatha.Receiver.Middleware.{
  Message, start, other, Scope, Behaviour, Wire, send_with, send, run_app, decode_headers,
  inner_send, on_error, guarded, handle,
}
use gex_test_jonatha.Receiver.Middleware.Answers.{id_of, bound, handle-bound}

module _ (l : Library) (encode : String → Bytes) (error_headers : List (Bytes × Bytes))
    (error_body : Bytes) where
  send-Keeps :
      (log : List ℕ) (fs : List Fault) (m : Message) (w : Wire)
      → w.access_log ≡ log
      → (send_with fs m w).1.access_log ≡ log
  send-Keeps log [] m w h = h
  send-Keeps log (none ∷ fs) m w h = h
  send-Keeps log (some (c, x) ∷ fs) m w h = h

  module _ (log : List ℕ) where
    abbrev Logs : {A : Type 0} → Exec Wire A → Type 0
    Logs m = Keeps (λ w. w.access_log ≡ log) m

    Keeps-send : (m : Message) → Logs (send m)
    Keeps-send m = record { at = λ w h. send-Keeps log w.send_faults m w h }

    Keeps-inner_send :
        (id : String) (m : Message) → Logs (inner_send l encode error_headers error_body id m)
    unfolding inner_send
    Keeps-inner_send id (start status headers) = record {
      at = λ w h. send-Keeps log w.send_faults _ _ h;
    }
    Keeps-inner_send id (other kind body) = record {
      at = λ w h. send-Keeps log w.send_faults _ _ h;
    }

    Keeps-run_app :
        (id : String) (ms : List Message) (ends : Result (Unit {0}))
        → Logs (run_app (inner_send l encode error_headers error_body id) ms ends)
    unfolding run_app
    Keeps-run_app id [] ends = Keeps-lift ends
    Keeps-run_app id (m ∷ ms) ends =
        Keeps-then _ _ (Keeps-inner_send id m) (Keeps-run_app id ms ends)

    Keeps-on_error : (e : Exn) → Logs (on_error l encode error_headers error_body e)
    unfolding on_error
    Keeps-on_error e = record {
      at = λ w h.
          (Keeps-if (not w.response_started) _ _
              (Keeps-then _ _ (Keeps-send (start 500 error_headers)) (
                Keeps-then _ _ (Keeps-send (other "http.response.body" error_body))
                  (Keeps-modify (λ v. record v { status_code = 500 }) (λ v k. k))))
              (Keeps-pure tt)).at
            w h;
    }

    guarded_logs :
        (id : String) (b : Behaviour) (w : Wire)
        → w.access_log ≡ log
        → (code : ℕ) × ((guarded l encode error_headers error_body id b w).1.access_log
            ≡ log ++ code ∷ [])
    unfolding guarded
    guarded_logs id b w h =
        let m = run_app (inner_send l encode error_headers error_body id) b.sends b.ends in
        let caught = catch m (on_error l encode error_headers error_body) w in
        let k =
          (Keeps-catch m (on_error l encode error_headers error_body)
              (Keeps-run_app id b.sends b.ends) Keeps-on_error).at
            w h in
        (caught.1.status_code, rw k refl)

  module _ (scope : Scope) (http : (scope.kind == "http") ≡ true) (app : Wire → Behaviour) where
    abbrev Logged : Wire → Result (List (String × String)) → Type 0
    Logged w decoded =
        ((headers : List (String × String)) × (code : ℕ) × (decoded ≡ ok headers)
          × ((handle l encode error_headers error_body scope app w).1.access_log
              ≡ w.access_log ++ code ∷ []))
        ⊎ ((e : Exn) × (decoded ≡ raise e)
            × (handle l encode error_headers error_body scope app w
                ≡ (raise e, record w { context = [] })))

    logs_lem :
        (w : Wire) (decoded : Result (List (String × String)))
        → decode_headers l encode error_headers error_body scope.headers ≡ decoded
        → Logged w decoded
    unfolding handle
    logs_lem w (ok headers) h =
        let (code, k) =
          guarded_logs w.access_log (id_of l encode error_headers error_body headers w)
            (app (bound l encode error_headers error_body scope headers w))
            (bound l encode error_headers error_body scope headers w) refl in
        inl (
          headers,
          code,
          refl,
          rw (handle-bound l encode error_headers error_body scope http app headers w h) k,
        )
    logs_lem w (raise e) h = inr (e, refl, rw (http, h) refl)

    -- Whatever the application and `send` do, an HTTP request leaves one entry in the access log, if
    -- its headers are in UTF-8. If they are not, the exception goes to the server, with nothing sent
    -- and nothing logged.
    pub handle_logs :
        (w : Wire)
        → ((headers : List (String × String)) × (code : ℕ) × (decode_headers l encode error_headers
                error_body scope.headers
              ≡ ok headers)
            × ((handle l encode error_headers error_body scope app w).1.access_log
                ≡ w.access_log ++ code ∷ []))
          ⊎ ((e : Exn) × (decode_headers l encode error_headers error_body scope.headers ≡ raise e)
              × (handle l encode error_headers error_body scope app w
                  ≡ (raise e, record w { context = [] })))
    handle_logs w = logs_lem w (decode_headers l encode error_headers error_body scope.headers) refl
