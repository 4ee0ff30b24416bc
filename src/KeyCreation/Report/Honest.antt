-- ===== src/KeyCreation/Report/Honest.antt =====
-- What the run of a creation reports, beside what it sent.
use homelab_server_configs.Prelude.{
  String, Bool, true, false, ◌||◌, List, [], ◌≡◌, ℕ, refl, ◌⊎◌, inl, inr, arith, str_eq,
  if◌then◌else◌,
}
use homelab_server_configs.Prelude.Exec.{
  Error, blocked, value_error, os_error, other_error, refused, Outcome, returned, raised, Post,
  Post-const, Post-cases, Ensures, Ensures-lift, Ensures-pure, Ensures-gets, Ensures-mono,
  Ensures-catch,
}
use homelab_server_configs.Prelude.Exec.Chain.{◌>>=◌, ◌>>◌}
use homelab_server_configs.KeyPreflight.Client.{Provider, Run, SplitUrl}
use homelab_server_configs.KeyPreflight.Run.Requests.{AllRead}
use homelab_server_configs.KeyCreation.Creation.{Python}
use homelab_server_configs.KeyCreation.Creation.Once
use homelab_server_configs.KeyCreation.Creation.Once.{note-at, OneCreate, perform_creation-After}
use homelab_server_configs.KeyCreation.Report.{
  Verdict, has_check, refused_verdict, internal_verdict, main_steps, classify, main_verdict,
  read_header, validate_root,
}
use homelab_server_configs.S3Probe.Session.{EvidencePath}

module _ (env : Provider) (split_url : String → SplitUrl) (python : Python)
    (sink : String → String → env.State → Outcome Unit × env.State)
    (read_secrets : env.State → Outcome String × env.State) (own_uid : ℕ)
    (path : EvidencePath) where
  abbrev S : Type 0
  S = Run env.State

  abbrev AnyError : Error → S → Type 0
  AnyError = Once.AnyError env split_url python sink

  abbrev Unsent : S → Type 0
  Unsent s = s.requests ≡ []

  -- The verdict fits the requests.
  abbrev Fits : Verdict → S → Type 0
  Fits v s =
      (AllRead s.requests ⊎ ((v.mutation_attempted ≡ true) × OneCreate s.requests))
      × ((str_eq v.result "created_and_delivered" ≡ false) ⊎ OneCreate s.requests)

  refused_name :
      (b : Bool)
      → str_eq (if b then "manual_intervention" else "blocked") "created_and_delivered" ≡ false
  refused_name true = refl
  refused_name false = refl

  internal_name :
      (b : Bool)
      → str_eq (if b then "manual_intervention" else "internal_error") "created_and_delivered"
        ≡ false
  internal_name true = refl
  internal_name false = refl

  abbrev Noted : Error → Bool → S → Type 0
  Noted e noted s = AnyError e s × (noted ≡ has_check "provider_create_attempted" s.checks)

  refused-Fits :
      (e : Error) (code : String) (attempted noted : Bool) (s : S)
      → Noted e noted s
      → Fits (refused_verdict code (attempted || noted)) s
  refused-Fits e code attempted noted s (inl p, h) =
      (inl p, inl (refused_name (attempted || noted)))
  refused-Fits e code attempted noted s (inr ((one, made), _), h) =
      (inr (ground arith, one), inr one)

  internal-Fits :
      (e : Error) (noted : Bool) (s : S) → Noted e noted s → Fits (internal_verdict noted) s
  internal-Fits e noted s (inl p, h) = (inl p, inl (internal_name noted))
  internal-Fits e noted s (inr ((one, made), _), h) = (inr (ground arith, one), inr one)

  blocked-Fits :
      (code : String) (s : S) → AnyError (blocked code) s → Fits (refused_verdict code false) s
  blocked-Fits code s (inl p) = (inl p, inl refl)
  blocked-Fits code s (inr (after, h)) = absurd h

  abbrev Never : Error → S → Type 0
  Never _ _ = ⊥

  classify-Fits :
      (e : Error)
      → Ensures
          (AnyError e)
          Fits
          Never
          (classify env split_url python sink read_secrets own_uid path e)
  unfolding classify
  classify-Fits (refused code attempted) = do
    noted ← Ensures-gets _ (Noted (refused code attempted)) Never _ (λ s p. (p, refl))
    Ensures-pure _ Fits Never _
        (λ s p. refused-Fits (refused code attempted) code attempted noted s p)
  classify-Fits (blocked code) = Ensures-pure _ Fits Never _ (λ s p. blocked-Fits code s p)
  classify-Fits (value_error m) = do
    noted ← Ensures-gets _ (Noted (value_error m)) Never _ (λ s p. (p, refl))
    Ensures-pure _ Fits Never _ (λ s p. internal-Fits (value_error m) noted s p)
  classify-Fits os_error = do
    noted ← Ensures-gets _ (Noted os_error) Never _ (λ s p. (p, refl))
    Ensures-pure _ Fits Never _ (λ s p. internal-Fits os_error noted s p)
  classify-Fits other_error = do
    noted ← Ensures-gets _ (Noted other_error) Never _ (λ s p. (p, refl))
    Ensures-pure _ Fits Never _ (λ s p. internal-Fits other_error noted s p)

  early : (e : Error) (s : S) → Unsent s → AnyError e s
  early e s p = inl (rw p tt)

  header-Unsent :
      Ensures Unsent
        (λ _. Unsent)
        AnyError
        (read_header env split_url python sink read_secrets own_uid path)
  unfolding read_header
  header-Unsent =
      Ensures-mono (λ s p. p) (λ _ s p. p) early
        (record { at = λ s p. let (o, w) = read_secrets s.world in Post-const Unsent o _ p })

  steps-Fits :
      (names : Outcome (List String))
      → Ensures Unsent Fits AnyError
          (main_steps env split_url python sink read_secrets own_uid path names)
  unfolding main_steps
  steps-Fits names = do
    root ←
        Ensures-lift Unsent (λ _. Unsent) AnyError (validate_root own_uid path)
          (λ s p.
            Post-cases (λ _. Unsent) AnyError (validate_root own_uid path) s (λ _ _. p)
              (λ e _. early e s p))
    basic ← header-Unsent
    note-at env split_url python sink Unsent AnyError _ (λ s p. p)
    perform_creation-After env split_url python sink basic names
    Ensures-pure _ Fits AnyError _ (λ s p. (inr (refl, p.0), inr p.0))

  -- Whatever the provider, the secrets and the writer do, a run that starts without requests ends
  -- with a verdict. All its requests read, or all but one, which goes to the endpoint that creates a
  -- key; a request that creates a key is reported as an attempted mutation, and
  -- "created_and_delivered" is reported only where there was one.
  pub main_verdict-Fits :
      (names : Outcome (List String)) (s : Run env.State)
      → s.requests ≡ []
      → let (o, s') = main_verdict env split_url python sink read_secrets own_uid path names s in
        (v : Verdict) × (o ≡ returned v)
        × (AllRead s'.requests ⊎ ((v.mutation_attempted ≡ true) × OneCreate s'.requests))
        × ((str_eq v.result "created_and_delivered" ≡ false) ⊎ OneCreate s'.requests)
  unfolding main_verdict
  main_verdict-Fits names s h =
      ended (main_verdict env split_url python sink read_secrets own_uid path names s)
        ((Ensures-catch (steps-Fits names) classify-Fits).at s h)
    where
      ended :
          (r : Outcome Verdict × S)
          → Post Fits Never r
          → (v : Verdict) × (r.0 ≡ returned v)
            × (AllRead r.1.requests ⊎ ((v.mutation_attempted ≡ true) × OneCreate r.1.requests))
            × ((str_eq v.result "created_and_delivered" ≡ false) ⊎ OneCreate r.1.requests)
      ended (returned v, t) p = (v, refl, p.0, p.1)
      ended (raised e, t) p = absurd p
