-- ===== src/Request/Reverts.antt =====
-- Which errors are saved, and when saving one panics.
use Prim.Native.String.{String}
use text.Mathlib.Text.{◌==◌ as str_eq}
use text.Mathlib.TextEquality.{eq_iff}
use web3_proxy.Prelude.{
  ℕ, ◌≤◌, ◌≡◌, refl, sym, ◌∙◌, ◌≢◌, ◌⊎◌, ◌↔◌, inl, inr, true, Option, none, some, List, arith, ◌==◌,
  Bool-cases, Option-cases,
}
use web3_proxy.Prelude.Results.{Result, ok, err}
use web3_proxy.JsonRpc.{ProviderError}
use web3_proxy.Entities.{Method, method_name}
use web3_proxy.Request.{
  RequestRevertHandler, trace_level, debug_level, error_level, warn_level, save, Provider, certain,
  chance_handler, is_saved_method, method_of, revert_handler_of, EthCallFirstParams,
  wait_for_provider, RpcCounters, waiting, dropped, panicked, answered, spawn_save, handle_error,
  Asked, after_request, request,
}

-- An error is to be saved: the caller asks for it, the method is one of two, there is a database, and
-- the chance is 1, or is not 0 and not above the random number.
pub record IsToSave {P : Type 0} (asked : Asked P) : Type 0 where
  pub wanted : asked.revert_handler ≡ save
  pub saved_method : is_saved_method asked.method ≡ true
  pub database : asked.has_db ≡ true
  pub chance : asked.authorization.checks.log_revert_chance ≢ 0
  pub lucky :
      (asked.authorization.checks.log_revert_chance ≡ certain)
      ⊎ (asked.authorization.checks.log_revert_chance ≤ asked.draw)

chance_handler-save :
    (chance draw : ℕ)
    → chance_handler chance draw ≡ save
    → (chance ≢ 0) × ((chance ≡ certain) ⊎ (chance ≤ draw))
unfolding chance_handler
chance_handler-save chance draw h = elim (Bool-cases (chance == 0)) [
  | inl e ↦ absurd (ground arith)
  | inr e ↦ (
    λ z. ground arith,
    elim (Bool-cases (chance == certain)) [
      | inl q ↦ inl (ground arith)
      | inr q ↦ inr (ground arith)
    ],
  )
]

save-chance_handler :
    (chance draw : ℕ)
    → chance ≢ 0
    → (chance ≡ certain) ⊎ (chance ≤ draw)
    → chance_handler chance draw ≡ save
unfolding chance_handler
save-chance_handler chance draw z (inl e) = ground arith
save-chance_handler chance draw z (inr e) = ground arith

method_of-name : (s : String) (m : Method) → method_of s ≡ some m → method_name m ≡ s
unfolding method_of method_name
method_of-name s m h = elim (Bool-cases (str_eq s "eth_call")) [
  | inl e ↦
      let same : s ≡ "eth_call" = (eq_iff s "eth_call").0 e in
      let found : Method.eth_call ≡ m = ground arith in rw (sym found, same) refl
  | inr e ↦ elim (Bool-cases (str_eq s "eth_estimateGas")) [
    | inl q ↦
        let same : s ≡ "eth_estimateGas" = (eq_iff s "eth_estimateGas").0 q in
        let found : Method.eth_estimate_gas ≡ m = ground arith in rw (sym found, same) refl
    | inr q ↦ elim (Bool-cases (str_eq s "eth_sendRawTransaction")) [
      | inl w ↦
          let same : s ≡ "eth_sendRawTransaction" = (eq_iff s "eth_sendRawTransaction").0 w in
          let found : Method.eth_send_raw_transaction ≡ m = ground arith in
          rw (sym found, same) refl
      | inr w ↦ absurd (ground arith)
    ]
  ]
]

method_of-saved : (s : String) → is_saved_method s ≡ true → method_of s ≢ none
unfolding method_of is_saved_method
method_of-saved s h e = ground arith

module _ {P : Type 0} where
  abbrev handler_of : Asked P → RequestRevertHandler
  handler_of asked =
      revert_handler_of asked.revert_handler asked.method asked.has_db
        asked.authorization.checks.log_revert_chance asked.draw

  handler_of-IsToSave : (asked : Asked P) → handler_of asked ≡ save → IsToSave asked
  unfolding revert_handler_of
  handler_of-IsToSave asked h = go asked.revert_handler refl h
    where
      go :
          (handler : RequestRevertHandler)
          → asked.revert_handler ≡ handler
          → revert_handler_of handler asked.method asked.has_db
              asked.authorization.checks.log_revert_chance asked.draw
            ≡ save
          → IsToSave asked
      go save e q = elim (Bool-cases (is_saved_method asked.method)) [
        | inr b ↦ absurd (ground arith)
        | inl b ↦ (elim (Bool-cases asked.has_db) [
          | inr d ↦ absurd (ground arith)
          | inl d ↦
              let (chance, lucky) =
                chance_handler-save asked.authorization.checks.log_revert_chance asked.draw
                  (ground arith) in
              record { wanted = e; saved_method = b; database = d; chance = chance; lucky = lucky }
        ])
      ]
      go trace_level e q = absurd (ground arith)
      go debug_level e q = absurd (ground arith)
      go error_level e q = absurd (ground arith)
      go warn_level e q = absurd (ground arith)

  IsToSave-handler_of : (asked : Asked P) → IsToSave asked → handler_of asked ≡ save
  unfolding revert_handler_of
  IsToSave-handler_of asked i =
      rw (i.wanted, revert_handler_of, i.saved_method, i.database)
        (save-chance_handler asked.authorization.checks.log_revert_chance asked.draw i.chance
          i.lucky)

module _ {P : Type 0} (R : Type 0) (parse_params : P → Option EthCallFirstParams) where
  -- An answer that is handed on with something to save comes from the arm for `save`.
  handle_error-saved :
      (handler : RequestRevertHandler) (method : String) (params : P) (e : ProviderError)
      {r : Result ProviderError R} {m : Method} {p : EthCallFirstParams}
      → handle_error parse_params handler method params e ≡ answered r (some (m, p))
      → (handler ≡ save)
        × (method_of method ≡ some m)
        × (parse_params params ≡ some p)
        × (r ≡ err e)
  unfolding handle_error spawn_save
  handle_error-saved save method params e {r} {m} {p} h = elim (Option-cases (method_of method)) [
    | inl gone ↦ absurd (ground arith)
    | inr (n, found) ↦ (elim (Option-cases (parse_params params)) [
      | inl gone ↦ absurd (ground arith)
      | inr (q, parsed) ↦ (refl, ground arith, ground arith, ground arith)
    ])
  ]
  handle_error-saved trace_level method params e h = absurd (ground arith)
  handle_error-saved debug_level method params e h = absurd (ground arith)
  handle_error-saved error_level method params e h = absurd (ground arith)
  handle_error-saved warn_level method params e h = absurd (ground arith)

  handle_error-panicked :
      (handler : RequestRevertHandler) (method : String) (params : P) (e : ProviderError)
      → handle_error {R = R} parse_params handler method params e ≡ panicked
      → (handler ≡ save) × ((method_of method ≡ none) ⊎ (parse_params params ≡ none))
  unfolding handle_error spawn_save
  handle_error-panicked save method params e h = elim (Option-cases (method_of method)) [
    | inl gone ↦ (refl, inl gone)
    | inr (n, found) ↦ (elim (Option-cases (parse_params params)) [
      | inl gone ↦ (refl, inr gone)
      | inr (q, parsed) ↦ absurd (ground arith)
    ])
  ]
  handle_error-panicked trace_level method params e h = absurd (ground arith)
  handle_error-panicked debug_level method params e h = absurd (ground arith)
  handle_error-panicked error_level method params e h = absurd (ground arith)
  handle_error-panicked warn_level method params e h = absurd (ground arith)

  panicked-handle_error :
      (method : String) (params : P) (e : ProviderError) (m : Method)
      → method_of method ≡ some m
      → parse_params params ≡ none
      → handle_error {R = R} parse_params save method params e ≡ panicked
  unfolding handle_error spawn_save
  panicked-handle_error method params e m found gone = ground (arith, found, gone)

  -- The provider came, and its answer was an error.
  abbrev FailedWith :
      Option Provider
      → List (Option Provider)
      → (Provider → Option (Result ProviderError R))
      → ProviderError
      → Type 0
  FailedWith unlocked readings answer e =
      (p : Provider) × (wait_for_provider unlocked readings ≡ some p) × (answer p ≡ some (err e))

  -- The end of a request is that of its answer.
  request-end :
      (asked : Asked P) (unlocked : Option Provider) (readings : List (Option Provider))
      (answer : Provider → Option (Result ProviderError R)) (c : RpcCounters)
      → let end = (request parse_params asked unlocked readings answer c).1 in
        (end ≡ waiting)
        ⊎ (end ≡ dropped)
        ⊎ ((r : R) × (end ≡ answered (ok r) none))
        ⊎ ((e : ProviderError) × FailedWith unlocked readings answer e
            × (end ≡ handle_error parse_params (handler_of asked) asked.method asked.params e))
  unfolding request after_request
  request-end asked unlocked readings answer c =
      elim (Option-cases (wait_for_provider unlocked readings)) [
        | inl gone ↦ inl (ground (arith, gone))
        | inr (p, there) ↦ (elim (Option-cases (answer p)) [
          | inl gone ↦ inr (inl (rw (request, there, after_request, gone) refl))
          | inr (ok r, came) ↦ inr (inr (inl (r, rw (request, there, after_request, came) refl)))
          | inr (err e, came) ↦
              inr (inr (inr (e, (p, there, came), rw (request, there, after_request, came) refl)))
        ])
      ]

  -- Only an error that is to be saved is saved, and with it the request's own method and parameters:
  -- the caller asks for it, the method is eth_call or eth_estimateGas, there is a database, and the
  -- chance is 1, or is not 0 and not above the random number. Any error will do, not a revert only.
  pub request-IsToSave :
      (asked : Asked P) (unlocked : Option Provider) (readings : List (Option Provider))
      (answer : Provider → Option (Result ProviderError R)) (c : RpcCounters)
      {r : Result ProviderError R} {m : Method} {params : EthCallFirstParams}
      → (request parse_params asked unlocked readings answer c).1 ≡ answered r (some (m, params))
      → IsToSave asked
        × (method_name m ≡ asked.method)
        × (parse_params asked.params ≡ some params)
        × ((e : ProviderError) × (r ≡ err e))
  request-IsToSave asked unlocked readings answer c {r} {m} {params} h =
      elim (request-end asked unlocked readings answer c) [
        | inl q ↦ absurd (ground arith)
        | inr (inl q) ↦ absurd (ground arith)
        | inr (inr (inl (s, q))) ↦ absurd (ground arith)
        | inr (inr (inr (e, failed, q))) ↦
            let (wanted, named, parsed, same) =
              handle_error-saved (handler_of asked) asked.method asked.params e {r = r} {m = m}
                {p = params} (sym q ∙ h) in
            (
              handler_of-IsToSave asked wanted,
              method_of-name asked.method m named,
              parsed,
              (e, same),
            )
      ]

  -- A request panics exactly when the provider came and answered with an error that is to be saved, and
  -- the parameters are not those of a call with an address.
  pub request-panicked_iff :
      (asked : Asked P) (unlocked : Option Provider) (readings : List (Option Provider))
      (answer : Provider → Option (Result ProviderError R)) (c : RpcCounters)
      → ((request parse_params asked unlocked readings answer c).1 ≡ panicked) ↔ (
          ((e : ProviderError) × (p : Provider) × (wait_for_provider unlocked readings ≡ some p)
            × (answer p ≡ some (err e)))
          × IsToSave asked
          × (parse_params asked.params ≡ none))
  unfolding request after_request
  request-panicked_iff asked unlocked readings answer c = (forth, back)
    where
      forth :
          (request parse_params asked unlocked readings answer c).1 ≡ panicked
          → ((e : ProviderError) × (p : Provider) × (wait_for_provider unlocked readings ≡ some p)
              × (answer p ≡ some (err e)))
            × IsToSave asked
            × (parse_params asked.params ≡ none)
      forth h = elim (request-end asked unlocked readings answer c) [
        | inl q ↦ absurd (ground arith)
        | inr (inl q) ↦ absurd (ground arith)
        | inr (inr (inl (s, q))) ↦ absurd (ground arith)
        | inr (inr (inr (e, failed, q))) ↦
            let (wanted, why) =
              handle_error-panicked (handler_of asked) asked.method asked.params e (sym q ∙ h) in
            let to_save = handler_of-IsToSave asked wanted in
            (
              (e, failed.0, failed.1, failed.2),
              to_save,
              elim why [
                | inl unknown ↦ absurd (method_of-saved asked.method to_save.saved_method unknown)
                | inr unparsed ↦ unparsed
              ],
            )
      ]

      back :
          ((e : ProviderError) × (p : Provider) × (wait_for_provider unlocked readings ≡ some p)
              × (answer p ≡ some (err e)))
            × IsToSave asked
            × (parse_params asked.params ≡ none)
          → (request parse_params asked unlocked readings answer c).1 ≡ panicked
      back ((e, p, there, came), to_save, unparsed) = elim (Option-cases (method_of asked.method)) [
        | inl gone ↦ absurd (method_of-saved asked.method to_save.saved_method gone)
        | inr (m, named) ↦
            rw (request, there, after_request, came, IsToSave-handler_of asked to_save)
              (panicked-handle_error asked.method asked.params e m named unparsed)
      ]
