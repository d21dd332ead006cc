-- ===== src/Common/Logging/Laws.antt =====
-- Where a record goes after `setup_logging`.
use gex_test_jonatha.Prelude.{
  ℕ, ◌≡◌, refl, String, true, Option, none, some, List, [], ◌∷◌, ◌++◌, ◌==◌, ◌||◌, eqb, ltb,
  if◌then◌else◌,
}
use gex_test_jonatha.Exec.{ok}
use gex_test_jonatha.Common.Logging.{
  Handler, Logger, Loggers, is_level, new_handler, setup_logging, get_app_logger, get_access_logger,
}

-- a logger's own handlers, and those above it while records are passed up
abbrev pub reached : Logger → List Handler → List Handler
reached lgr above = if lgr.propagate then lgr.handlers ++ above else lgr.handlers

-- A logger as Python makes it.
pub record IsUntouched (lgr : Logger) : Type 0 where
  pub handlers : lgr.handlers ≡ []
  pub propagate : lgr.propagate ≡ true
  pub level : lgr.level ≡ none

-- Python's number of a level name that it knows
abbrev pub level_number : String → ℕ
level_number name =
    if name == "CRITICAL" || name == "FATAL"
    then 50
    else if name == "ERROR"
    then 40
    else if name == "WARN" || name == "WARNING"
    then 30
    else if name == "INFO"
    then 20
    else if name == "DEBUG"
    then 10
    else 0

-- `getEffectiveLevel`: the first level that is set, from the logger up to the root
abbrev pub effective : List (Option String) → ℕ
effective [] = 0
effective (none ∷ ls) = effective ls
effective (some name ∷ ls) =
    let n = level_number name in let above = effective ls in if eqb n 0 then above else n

-- where a record goes: nowhere, to handlers, or to `logging.lastResort`
pub data Output : Type 0 where
  dropped : Output
  handled : List Handler → Output
  last_resort : Output

-- `Logger.isEnabledFor` and `callHandlers`, for a record of level `n` at a logger with this effective
-- level and these handlers; `lastResort` has the level WARNING.
abbrev pub output : ℕ → ℕ → List Handler → Output
output n level hs =
    if ltb n level
    then dropped
    else elim hs [ [] ↦ if ltb n 30 then dropped else last_resort | h ∷ rest ↦ handled (h ∷ rest) ]

-- where a record of level `n` goes that is logged at a logger under the root, or under a child of it
abbrev pub logged : ℕ → Logger → Logger → Output
logged n root lgr = output n (effective (lgr.level ∷ root.level ∷ [])) (reached lgr root.handlers)

abbrev pub logged_below : ℕ → Logger → Logger → Logger → Output
logged_below n root parent lgr =
    output n (effective (lgr.level ∷ parent.level ∷ root.level ∷ []))
      (reached lgr (reached parent root.handlers))

-- With a level that Python knows, and whatever was set up before: a record of the program's own
-- loggers, if nothing else configured them, goes to one new handler, once, if its level is at least
-- the given one, and else nowhere; so does one of `uvicorn` and of `uvicorn.error`, where a level that
-- was set on these loggers before still counts first; and one of `uvicorn.access` goes to no handler
-- but, from WARNING on, Python's last resort.
pub setup_logging_handlers :
    (upper : String → String) (level : String) (ls : Loggers) (n : ℕ)
    → is_level (upper level) ≡ true
    → IsUntouched (get_app_logger ls)
    → IsUntouched (get_access_logger ls)
    → let (r, ls') = setup_logging upper level ls in
      let own = new_handler ls.made ∷ [] in
      let given = some (upper level) in
      let from = λ (levels : List (Option String)).
        if ltb n (effective levels) then dropped else handled own in
      (r ≡ ok tt)
      × (logged n ls'.root (get_app_logger ls') ≡ from (given ∷ []))
      × (logged n ls'.root (get_access_logger ls') ≡ from (given ∷ []))
      × (logged n ls'.root ls'.uvicorn ≡ from (ls.uvicorn.level ∷ given ∷ []))
      × (logged_below n ls'.root ls'.uvicorn ls'.uvicorn_error
          ≡ from (ls.uvicorn_error.level ∷ ls.uvicorn.level ∷ given ∷ []))
      × (logged_below n ls'.root ls'.uvicorn ls'.uvicorn_access ≡ (
          if ltb n (effective (ls.uvicorn_access.level ∷ ls.uvicorn.level ∷ given ∷ []))
          then dropped
          else if ltb n 30
          then dropped
          else last_resort))
unfolding setup_logging
setup_logging_handlers upper level ls n known app access = rw known (
  refl,
  rw (app.propagate, app.handlers, app.level) refl,
  rw (access.propagate, access.handlers, access.level) refl,
  refl,
  refl,
  refl,
)
