-- ===== src/Connection/Laws.antt =====
-- What `connect` has made sure of when it ends.
use Prim.Native.String.{String}
use text.Mathlib.Text.{starts_with}
use web3_proxy.Prelude.{
  ℕ, ◌≡◌, ◌≢◌, refl, sym, ap, ◌∙◌, inl, inr, Bool, true, false, ◌||◌, Option, none, some, arith,
  ◌==◌, Bool-cases, Option-cases,
}
use web3_proxy.Prelude.Results.{Result, ok, err}
use web3_proxy.Prelude.Outcomes.{Outcome, done, failed, panics}
use web3_proxy.Rpc.Head.{HeadState, ProbeError, check_block_data_limit}
use web3_proxy.Request.{Provider}
use web3_proxy.Connection.{
  ConnectionError, incorrect_chain_id, block_sender_closed, no_http_client, bad_scheme,
  cannot_connect, no_handle, no_chain_id, no_block_limit, no_sender, open_sender, closed_sender,
  from_str, Spawned, Network, Life, BlockSender, is_given, reset_ws, dial, has_ws, has_http,
  open_provider, check_server, connect,
}

module _ (rpc : Spawned) (net : Network) (sender : BlockSender) (has_http_client : Bool) where
  -- There is a provider exactly if the server has a url.
  abbrev pub HasProvider : Life → Type 0
  HasProvider life = is_given life.provider ≡ (is_given rpc.ws_url || is_given rpc.http_url)

  abbrev pub FailsFor : ℕ → Life → ConnectionError → Type 0
  FailsFor chain_id life e = elim e [
    | incorrect_chain_id config found ↦
        (config ≡ chain_id) × (net.chain_id ≡ some found) × (found ≢ chain_id) × HasProvider life
    | _ ↦ Unit
  ]

  -- What is known from how it ends.
  abbrev pub Connects : ℕ → Life → Outcome ConnectionError (Unit {0}) → Type 0
  Connects chain_id life (done _) =
      (net.has_handle ≡ true) × (net.chain_id ≡ some chain_id) × HasProvider life
  Connects chain_id life (failed e) = FailsFor chain_id life e
  Connects chain_id life panics = Unit

  abbrev Opens : Life → Outcome ConnectionError (Option Provider) → Type 0
  Opens life (done p) = HasProvider life
  Opens life (failed e) = (chain_id : ℕ) → FailsFor chain_id life e
  Opens life panics = Unit

  -- Neither a url nor a closed channel is an incorrect chain id.
  from_str-FailsFor :
      (url : String) (has_client : Bool) (e : ConnectionError)
      → from_str net url has_client ≡ err e
      → (life : Life) (chain_id : ℕ) → FailsFor chain_id life e
  unfolding from_str
  from_str-FailsFor url has_client e h life chain_id = elim (Bool-cases (starts_with url "http")) [
    | inl a ↦ elim (Bool-cases (net.accepts url)) [
      | inr b ↦ let same : cannot_connect ≡ e = ground arith in rw (sym same) tt
      | inl b ↦ elim (Bool-cases has_client) [
        | inl c ↦ absurd (ground arith)
        | inr c ↦ let same : no_http_client ≡ e = ground arith in rw (sym same) tt
      ]
    ]
    | inr a ↦ elim (Bool-cases (starts_with url "ws")) [
      | inr b ↦ let same : bad_scheme ≡ e = ground arith in rw (sym same) tt
      | inl b ↦ elim (Bool-cases (net.accepts url)) [
        | inl c ↦ absurd (ground arith)
        | inr c ↦ let same : cannot_connect ≡ e = ground arith in rw (sym same) tt
      ]
    ]
  ]

  dial-FailsFor :
      (is_right : Provider → Bool) (url : String) (has_client : Bool) (e : ConnectionError)
      → dial rpc net sender has_http_client is_right url has_client ≡ failed e
      → (life : Life) (chain_id : ℕ) → FailsFor chain_id life e
  unfolding dial
  dial-FailsFor is_right url has_client e h = go (from_str net url has_client) refl
    where
      go :
          (r : Result ConnectionError Provider)
          → from_str net url has_client ≡ r
          → (life : Life) (chain_id : ℕ) → FailsFor chain_id life e
      go (err f) q =
          let same : f ≡ e = ground arith in from_str-FailsFor url has_client e (q ∙ ap err same)
      go (ok p) q =
          absurd (elim (Bool-cases (is_right p)) [ inl b ↦ ground arith | inr b ↦ ground arith ])

  reset_ws-FailsFor :
      (life : Life) (e : ConnectionError)
      → (reset_ws rpc net sender has_http_client life).1 ≡ err e
      → (life' : Life) (chain_id : ℕ) → FailsFor chain_id life' e
  unfolding reset_ws
  reset_ws-FailsFor life e h life' chain_id = elim (Option-cases life.provider) [
    | inl gone ↦ absurd (ground arith)
    | inr (old, there) ↦ go old there sender refl
  ]
    where
      go :
          (old : Provider)
          → life.provider ≡ some old
          → (b : BlockSender) → sender ≡ b
          → FailsFor chain_id life' e
      go old there no_sender q = absurd (ground arith)
      go old there open_sender q = absurd (ground arith)
      go old there closed_sender q =
          let same : block_sender_closed ≡ e = ground arith in rw (sym same) tt

  open_provider-Opens :
      (life : Life)
      → Opens
          (open_provider rpc net sender has_http_client life).0
          (open_provider rpc net sender has_http_client life).1
  unfolding open_provider
  open_provider-Opens life = elim (Option-cases rpc.ws_url) [
    | inl no_ws ↦ elim (Option-cases rpc.http_url) [
      | inl no_http ↦ rw (open_provider, no_ws, no_http) (ground (arith, no_ws, no_http))
      | inr (url, given) ↦
          over_http no_ws url given
            (dial rpc net sender has_http_client has_http url has_http_client) refl
    ]
    | inr (url, given) ↦
        over_ws url given (reset_ws rpc net sender has_http_client life).1 refl
          (dial rpc net sender has_http_client has_ws url false) refl
  ]
    where
      Goal : Type 0
      Goal =
          Opens (open_provider rpc net sender has_http_client life).0
            (open_provider rpc net sender has_http_client life).1

      over_http :
          rpc.ws_url ≡ none
          → (url : String) → rpc.http_url ≡ some url
          → (d : Outcome ConnectionError Provider)
          → dial rpc net sender has_http_client has_http url has_http_client ≡ d
          → Goal
      over_http no_ws url given (done p) q =
          rw (open_provider, no_ws, given, q) (ground (arith, no_ws, given))
      over_http no_ws url given (failed e) q =
          let same : open_provider rpc net sender has_http_client life ≡ (life, failed e) =
            ground (arith, no_ws, given, q) in
          rw same (λ chain_id. dial-FailsFor has_http url has_http_client e q life chain_id)
      over_http no_ws url given panics q = rw (open_provider, no_ws, given, q) tt

      over_ws :
          (url : String)
          → rpc.ws_url ≡ some url
          → (r : Result ConnectionError (Unit {0}))
          → (reset_ws rpc net sender has_http_client life).1 ≡ r
          → (d : Outcome ConnectionError Provider)
          → dial rpc net sender has_http_client has_ws url false ≡ d
          → Goal
      over_ws url given (err e) r d q =
          let reset = reset_ws rpc net sender has_http_client life in
          let same : open_provider rpc net sender has_http_client life ≡ (reset.0, failed e) =
            ground (arith, given, r) in
          rw same (reset_ws-FailsFor life e r reset.0)
      over_ws url given (ok u) r (done p) q =
          rw (open_provider, given, r, q) (ground (arith, given))
      over_ws url given (ok u) r (failed e) q =
          let reset = reset_ws rpc net sender has_http_client life in
          let same : open_provider rpc net sender has_http_client life ≡ (reset.0, failed e) =
            ground (arith, given, r, q) in
          rw same (λ chain_id. dial-FailsFor has_ws url false e q reset.0 chain_id)
      over_ws url given (ok u) r panics q = rw (open_provider, given, r, q) tt

  check_server-Connects :
      (chain_id : ℕ) (life : Life)
      → HasProvider life
      → Connects chain_id
          (check_server rpc net sender has_http_client chain_id life).0
          (check_server rpc net sender has_http_client chain_id life).1
  unfolding check_server
  check_server-Connects chain_id life has = elim (Bool-cases net.has_handle) [
    | inr refused ↦ rw (same (life, failed no_handle) (ground (arith, refused))) tt
    | inl handle ↦ elim (Option-cases net.chain_id) [
      | inl gone ↦ rw (same (life, failed no_chain_id) (ground (arith, handle, gone))) tt
      | inr (found, there) ↦ elim (Bool-cases (chain_id == found)) [
        | inr wrong ↦
            rw
              (same (life, failed (incorrect_chain_id chain_id found))
                (ground (arith, handle, there, wrong)))
              (refl, there, (λ e. ground arith), has)
        | inl right ↦
            go handle (there ∙ ap some (ground arith)) found there right
              (check_block_data_limit rpc.automatic_block_limit net.probe life.head).0
              (check_block_data_limit rpc.automatic_block_limit net.probe life.head).1 refl
      ]
    ]
  ]
    where
      same :
          (r : Life × Outcome ConnectionError (Unit {0}))
          → check_server rpc net sender has_http_client chain_id life ≡ r
          → check_server rpc net sender has_http_client chain_id life ≡ r
      same r e = e

      go :
          net.has_handle ≡ true
          → net.chain_id ≡ some chain_id
          → (found : ℕ) → net.chain_id ≡ some found
          → (chain_id == found) ≡ true
          → (head : HeadState) (r : Result ProbeError (Option ℕ))
          → check_block_data_limit rpc.automatic_block_limit net.probe life.head ≡ (head, r)
          → Connects chain_id
              (check_server rpc net sender has_http_client chain_id life).0
              (check_server rpc net sender has_http_client chain_id life).1
      go handle agrees found there right head (err e) q =
          rw
            (same (record life { head = head }, failed (no_block_limit e))
              (ground (arith, handle, there, right, q)))
            tt
      go handle agrees found there right head (ok limit) q =
          rw (same (record life { head = head }, done tt) (ground (arith, handle, there, right, q)))
            (handle, agrees, has)

  -- An attempt that takes the lock and succeeds has a provider for the server's url, and the server has
  -- shown the chain id of the configuration. If it fails because the chain id is another one, the
  -- provider stays all the same, so that handles are still given on it.
  pub connect-Connects :
      (chain_id : ℕ) (life : Life)
      → Connects chain_id
          (connect rpc net sender has_http_client false chain_id life).0
          (connect rpc net sender has_http_client false chain_id life).1
  unfolding connect
  connect-Connects chain_id life =
      go (open_provider rpc net sender has_http_client life).0
        (open_provider rpc net sender has_http_client life).1 refl (open_provider-Opens life)
    where
      go :
          (life' : Life) (opened : Outcome ConnectionError (Option Provider))
          → open_provider rpc net sender has_http_client life ≡ (life', opened)
          → Opens life' opened
          → Connects chain_id
              (connect rpc net sender has_http_client false chain_id life).0
              (connect rpc net sender has_http_client false chain_id life).1
      go life' (failed e) q opens =
          let same : connect rpc net sender has_http_client false chain_id life
              ≡ (life', failed e) =
            ground (arith, q) in
          rw same (opens chain_id)
      go life' panics q opens =
          let same : connect rpc net sender has_http_client false chain_id life ≡ (life', panics) =
            ground (arith, q) in
          rw same tt
      go life' (done p) q opens =
          let same : connect rpc net sender has_http_client false chain_id life
              ≡ check_server rpc net sender has_http_client chain_id life' =
            ground (arith, q) in
          rw same (check_server-Connects chain_id life' opens)
