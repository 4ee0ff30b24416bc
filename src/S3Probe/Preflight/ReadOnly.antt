-- ===== src/S3Probe/Preflight/ReadOnly.antt =====
-- What the read-only preflight sends, and what it has seen when it passes.
use homelab_server_configs.Prelude.{
  ℕ, String, Bool, true, false, Option, none, some, List, [], ◌∷◌, ◌≡◌, refl, arith, is_name,
}
use homelab_server_configs.Prelude.Exec
use homelab_server_configs.Prelude.Exec.{
  Error, Outcome, returned, raised, Exec, Post, Post-same, Post-const, Ensures, Ensures-lift,
  Ensures-pure, Ensures-mono, Ensures-require, Ensures-catch,
}
use homelab_server_configs.Prelude.Exec.Chain.{◌>>=◌, ◌>>◌}
use homelab_server_configs.Prelude.Json.{Json}
use homelab_server_configs.S3Probe.Recorder.{Request, Response, Scope, World, Run}
use homelab_server_configs.S3Probe.Recorder.Steps.{
  Ensures-finish, Ensures-observe, Ensures-record_scope,
}
use homelab_server_configs.S3Probe.Listing.{list_keys, require_empty_list}
use homelab_server_configs.S3Probe.Transaction.{Library, list_request, finish_run}
use homelab_server_configs.S3Probe.Transaction.Absence.{exchanges}
use homelab_server_configs.S3Probe.Transaction.Trace.{
  is_put, is_delete, count_sent, IsCalm, Ensures-list_prefix,
}
use homelab_server_configs.S3Probe.Preflight.{
  Opened, scope_of, authorize, check_scope, preflight_steps, refuse_preflight,
  perform_read_only_preflight, storage_of,
}

-- The scope that the preflight demands.
abbrev pub IsExact : Scope → Type 0
IsExact scope =
    (scope.response_shape ≡ "allowed_buckets_array")
    × (scope.exact_bucket_match ≡ true)
    × (scope.exact_capabilities ≡ true)
    × (scope.null_name_prefix ≡ true)
    × (scope.exact_s3_endpoint ≡ true)
    × (scope.no_provider_expiration ≡ true)

module _ (env : World) (lib : Library) (parse_json : List ℕ → Option Json)
    (open_native : env.State → Opened × env.State) (run_id : String) where
  abbrev S : Type 0
  S = Run env.State

  Ensures-authorize :
      (P : S → Type 0)
      → ((s : S) (w : env.State) → P s → P (record s { world = w }))
      → Ensures P (λ _. P) (λ _. P) (authorize env lib parse_json open_native run_id)
  unfolding authorize
  Ensures-authorize P h = record {
    at = λ s p. let (o, w) = open_native s.world in Post-const P _ _ (h s w p);
  }

  abbrev Any : {A : Type 0} → A → S → Type 0
  Any _ s = Unit

  require_keeps :
      (P : S → Type 0) (b : Bool) (e : Error) → Ensures P (λ _. P) (λ _. P) (Exec.require b e)
  require_keeps P b e =
      Ensures-mono (λ s p. p) (λ _ s p. p.0) (λ _ s p. p)
        (Ensures-require P (λ _. P) b e (λ s p _. p))

  outcome_keeps :
      {A : Type 0} (P : S → Type 0) (o : Outcome A) → Ensures P (λ _. P) (λ _. P) (Exec.lift o)
  outcome_keeps P o = Ensures-lift P (λ _. P) (λ _. P) o (λ s p. Post-const P o s p)

  module _ (P : S → Type 0) (calm : IsCalm P)
      (moves : (s : S) (w : env.State) → P s → P (record s { world = w })) where
    finish_keeps :
        (result : String) (code : Option String)
        → Ensures P (λ _. P) (λ _. P) (finish_run env lib run_id result code true false)
    unfolding finish_run
    finish_keeps result code =
        Ensures-finish env P (λ _. P) (λ _. P) _ _ _ _ _ _
          (λ s o w p. Post-const P o _ (calm.writes s _ o w p))

    check_scope_keeps :
        (scope : Scope)
        → Ensures P (λ _. P) (λ _. P) (check_scope env lib parse_json open_native run_id scope)
    unfolding check_scope
    check_scope_keeps scope = do
      require_keeps P _ _
      require_keeps P _ _
      require_keeps P _ _
      require_keeps P _ _
      require_keeps P _ _

    steps_keep : Ensures P (λ _. P) (λ _. P) (preflight_steps env lib parse_json open_native run_id)
    unfolding preflight_steps is_name
    steps_keep = do
      document ← Ensures-authorize P moves
      Ensures-observe env P "preflight" "authorize_canonical_credential" "http_2xx" refl refl refl
          (λ s d o w _ p. calm.writes s d o w p)
      storage ← outcome_keeps P (storage_of document)
      Ensures-record_scope env P (λ _. P) (λ _. P) (scope_of document storage) (λ s e p. p)
          (λ s o w p. Post-const P o _ (calm.writes s _ o w p))
      check_scope_keeps (scope_of document storage)
      response ← Ensures-list_prefix env lib run_id P calm "preflight" refl
      outcome_keeps P (require_empty_list lib.parse_xml response)
      finish_keeps "preflight_passed" none
      Ensures-pure P (λ _. P) (λ _. P) _ (λ s p. p)

    preflight_keeps :
        Ensures P
          (λ _. P)
          (λ _. P)
          (perform_read_only_preflight env lib parse_json open_native run_id)
    unfolding perform_read_only_preflight refuse_preflight
    preflight_keeps = do
      require_keeps P _ _
      Ensures-catch steps_keep (λ e. do
        finish_keeps "preflight_blocked" _
        Ensures-pure P (λ _. P) (λ _. P) _ (λ s p. p))

  -- Whatever the world answers, the preflight sends no PUT and no DELETE: their number stays.
  pub preflight-count_sent :
      (s : Run env.State)
      → let s' = (perform_read_only_preflight env lib parse_json open_native run_id s).1 in
        (count_sent is_put s'.events ≡ count_sent is_put s.events)
        × (count_sent is_delete s'.events ≡ count_sent is_delete s.events)
  unfolding count_sent
  preflight-count_sent s =
      let P : S → Type 0 = λ t.
        (count_sent is_put t.events ≡ count_sent is_put s.events)
        × (count_sent is_delete t.events ≡ count_sent is_delete s.events) in
      let calm : IsCalm P = record {
        writes = λ t d o w p. p;
        reads = λ t r o w np nd p. (rw np (omega arith), rw nd (omega arith));
      } in
      Post-same P _ ((preflight_keeps P calm (λ t w p. p)).at s (refl, refl))

-- The newest exchange is a listing of the prefix of the run that holds no key.
abbrev pub ListedEmpty : Library → String → List (Request × Outcome Response) → Type 0
ListedEmpty lib run_id ((r, returned a) ∷ rest) =
    (r ≡ list_request run_id) × (list_keys lib.parse_xml a ≡ returned [])
ListedEmpty lib run_id ((r, raised e) ∷ rest) = ⊥
ListedEmpty lib run_id [] = ⊥

module _ (env : World) (lib : Library) (parse_json : List ℕ → Option Json)
    (open_native : env.State → Opened × env.State) (run_id : String) where
  abbrev Recorded : Scope → Run env.State → Type 0
  Recorded scope s = s.document.scope ≡ some scope

  -- What holds when the preflight has passed.
  record Passed (s : Run env.State) : Type 0 where
    scope : Scope
    recorded : s.document.scope ≡ some scope
    exact : IsExact scope
    result : s.document.result ≡ "preflight_passed"
    listed : ListedEmpty lib run_id (exchanges s.events)
