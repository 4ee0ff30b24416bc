-- ===== src/KeyPreflight/Run/Requests.antt =====
-- What the preflight sends: to which URLs, and how often.
use homelab_server_configs.Prelude.{
  ℕ, zero, suc, ◌+◌, ◌≤◌, String, Bool, true, false, Option, none, some, List, [], ◌∷◌, ◌≡◌, refl,
  ◌⊎◌, inl, inr, arith, length, one_of, text_append, if◌then◌else◌,
}
use homelab_server_configs.Prelude.Exec
use homelab_server_configs.Prelude.Exec.{
  Error, Outcome, returned, raised, Exec, pure, raise, modify, Post, Post-same, Post-const,
  Post-cases, Ensures, Ensures-lift, Ensures-pure, Ensures-raise, Ensures-mono, Ensures-bind,
  Ensures-require, Ensures-modify, Ensures-given, ◌>>=◌, ◌>>◌,
}
use homelab_server_configs.Prelude.Json.{find}
use homelab_server_configs.KeyPreflight.Client.{
  preflight_blocked, ApiRequest, Provider, Run, SplitUrl, request_json, validate_api_base,
  validate_api_base-returned, is_api_host, request_json-at,
}
use homelab_server_configs.KeyPreflight.Run.{
  auth_url, NextPage, last, bad, more, next_page, Keys, note, list_keys, authorize, check_keys,
  check_bucket, check_names, check_account, perform_preflight,
}

-- The endpoints of the native API that only read.
abbrev pub read_paths : List String
read_paths =
    "/b2api/v4/b2_list_keys" ∷ "/b2api/v4/b2_list_buckets" ∷ "/b2api/v4/b2_list_file_names" ∷ []

-- `base` is "https://" before a host of the provider's API.
abbrev pub IsApiBase : String → Type 0
IsApiBase base = (host : String) × (is_api_host host ≡ true) × (base ≡ text_append "https://" host)

-- The fixed URL of the authorization, or one of the read endpoints of an API host.
abbrev pub IsReadUrl : String → Type 0
IsReadUrl url =
    (url ≡ auth_url)
    ⊎ ((base path : String) × IsApiBase base
        × (one_of read_paths path ≡ true)
        × (url ≡ text_append base path))

abbrev pub AllRead : List ApiRequest → Type 0
AllRead [] = Unit
AllRead (r ∷ rs) = IsReadUrl r.url × AllRead rs

module _ (env : Provider) where
  abbrev S : Type 0
  S = Run env.State

  -- `n` requests at most were sent, all of them to read.
  abbrev pub Within : ℕ → S → Type 0
  Within n s = AllRead s.requests × (length s.requests ≤ n)

  Within-mono : (m n : ℕ) (s : S) → m ≤ n → Within m s → Within n s
  Within-mono m n s h w = (w.0, omega arith)

  Ensures-request_json :
      (n : ℕ) (r : ApiRequest)
      → IsReadUrl r.url
      → Ensures (Within n) (λ _. Within (suc n)) (λ _. Within (suc n)) (request_json env r)
  Ensures-request_json n r h =
      request_json-at env (Within n) (Within (suc n)) r (λ s w p. ((h, p.0), omega arith))

  lift_keeps :
      {A : Type 0} (P : S → Type 0) (o : Outcome A) → Ensures P (λ _. P) (λ _. P) (Exec.lift o)
  lift_keeps P o = Ensures-lift P (λ _. P) (λ _. P) o (λ s p. Post-const P o s p)

  require_keeps :
      (P : S → Type 0) (b : Bool) (e : Error) → Ensures P (λ _. P) (λ _. P) (Exec.require b e)
  require_keeps P b e =
      Ensures-mono (λ s p. p) (λ _ s p. p.0) (λ _ s p. p)
        (Ensures-require P (λ _. P) b e (λ s p _. p))

  -- The error side may be weakened to a larger bound.
  within :
      {A : Type 0} (n k m : ℕ) (f : Exec S A)
      → n ≤ m
      → Ensures (Within k) (λ _. Within n) (λ _. Within n) f
      → Ensures (Within k) (λ _. Within n) (λ _. Within m) f
  within n k m f h e = Ensures-mono (λ s p. p) (λ _ s p. p) (λ _ s p. Within-mono n m s h p) e

  module _ (split_url : String → SplitUrl) where
    note_keeps :
        (n : ℕ) (check : String)
        → Ensures (Within n) (λ _. Within n) (λ _. Within n) (note env split_url check)
    unfolding note
    note_keeps n check = Ensures-modify (Within n) (λ _. Within n) (λ _. Within n) _ (λ s p. p)

    list_keys-Within :
        (rounds n : ℕ) (base token account : String) (start : Option String) (seen : List String)
        (keys : Keys)
        → IsApiBase base
        → Ensures
            (Within n)
            (λ _. Within (n + rounds))
            (λ _. Within (n + rounds))
            (list_keys env split_url rounds base token account start seen keys)
    unfolding list_keys
    list_keys-Within zero n base token account start seen keys h =
        Ensures-raise _ _ _ _ (λ s p. Within-mono n (n + 0) s (omega arith) p)
    list_keys-Within (suc rounds) n base token account start seen keys h =
        Ensures-bind
          (within (suc n) n (n + suc rounds) _ (omega arith)
            (Ensures-request_json n _ (inr (base, "/b2api/v4/b2_list_keys", h, refl, refl))))
          (λ page.
            Ensures-bind
              (within (suc n) (suc n) (n + suc rounds) _ (omega arith)
                (lift_keeps (Within (suc n)) _))
              (λ found.
                Ensures-bind
                  (within (suc n) (suc n) (n + suc rounds) _ (omega arith)
                    (lift_keeps (Within (suc n)) _))
                  (λ sorted.
                    continue sorted (next_page (find "nextApplicationKeyId" page) seen) (λ next.
                      list_keys-Within rounds (suc n) base token account (some next) (next ∷ seen)
                        sorted h))))
      where
        continue :
            (sorted : Keys) (p : NextPage)
            → ((next : String)
                → Ensures
                    (Within (suc n))
                    (λ _. Within (suc n + rounds))
                    (λ _. Within (suc n + rounds))
                    (list_keys env split_url rounds base token account
                      (some next)
                      (next ∷ seen)
                      sorted))
            → Ensures
                (Within (suc n))
                (λ _. Within (n + suc rounds))
                (λ _. Within (n + suc rounds))
                (elim p [
                  | last ↦ pure sorted
                  | bad ↦ raise (preflight_blocked "invalid_key_pagination")
                  | more next ↦
                      list_keys env split_url rounds base token account
                        (some next)
                        (next ∷ seen)
                        sorted
                ])
        continue sorted last ih = Ensures-pure _ _ _ _ (λ s p. Within-mono _ _ s (omega arith) p)
        continue sorted bad ih = Ensures-raise _ _ _ _ (λ s p. Within-mono _ _ s (omega arith) p)
        continue sorted (more next) ih =
            Ensures-mono (λ s p. p) (λ _ s p. Within-mono _ _ s (omega arith) p)
              (λ _ s p. Within-mono _ _ s (omega arith) p) (ih next)

    -- After the authorization the base is one of the provider's API.
    abbrev Authorized : String × String × String → S → Type 0
    Authorized (account, token, base) s = Within 1 s × IsApiBase base

    lift_at_1 :
        {A : Type 0} (o : Outcome A)
        → Ensures (Within 1) (λ _. Within 1) (λ _. Within 1) (Exec.lift o)
    lift_at_1 o = lift_keeps (Within 1) o

    authority_keeps :
        (b : Bool) (found : List String × List String)
        → Ensures
            (Within 1)
            (λ _. Within 1)
            (λ _. Within 1)
            (if b then pure tt else do
              modify (λ s. record s { authority = some found })
              raise (preflight_blocked "insufficient_management_authority"))
    authority_keeps true found = Ensures-pure _ _ _ _ (λ s p. p)
    authority_keeps false found =
        Ensures-bind (Ensures-modify (Within 1) (λ _. Within 1) (λ _. Within 1) _ (λ s p. p))
          (λ _. Ensures-raise _ _ _ _ (λ s p. p))

    pub base-IsApiBase :
        (parsed : SplitUrl) (base : String)
        → validate_api_base parsed ≡ returned base
        → IsApiBase base
    base-IsApiBase parsed base h =
        let facts = validate_api_base-returned parsed base h in (parsed.hostname, facts.1, facts.0)

    abbrev Based : String → S → Type 0
    Based base s = Within 1 s × IsApiBase base

    drop :
        {A : Type 0} {m : Exec S A} (base : String)
        → Ensures (Based base) (λ _. Based base) (λ _. Based base) m
        → Ensures (Based base) (λ _. Based base) (λ _. Within 1) m
    drop base e = Ensures-mono (λ s p. p) (λ _ s p. p) (λ _ s p. p.0) e

    authorize-Authorized :
        (basic : String)
        → Ensures (Within 0) Authorized (λ _. Within 1) (authorize env split_url basic)
    unfolding authorize
    authorize-Authorized basic = Ensures-bind (Ensures-request_json 0 _ (inl refl)) (λ a.
        Ensures-bind (lift_at_1 _) (λ account. Ensures-bind (lift_at_1 _) (λ token.
          Ensures-bind (note_keeps 1 _) (λ _. Ensures-bind (lift_at_1 _) (λ _.
            Ensures-bind (lift_at_1 _) (λ _. Ensures-bind (lift_at_1 _) (λ _.
              Ensures-bind (lift_at_1 _) (λ _. Ensures-bind (lift_at_1 _) (λ _.
                Ensures-bind (authority_keeps _ _) (λ _. Ensures-bind (note_keeps 1 _) (λ _.
                  Ensures-bind (lift_at_1 _) (λ api_url.
                    Ensures-bind
                      (Ensures-lift (Within 1) (λ base s. Within 1 s × IsApiBase base)
                        (λ _. Within 1) (validate_api_base (split_url api_url))
                        (λ s p.
                          Post-cases _ (λ _. Within 1) (validate_api_base (split_url api_url)) s
                            (λ base e. (p, base-IsApiBase (split_url api_url) base e)) (λ _ _. p)))
                      (λ base. Ensures-bind (drop base (lift_keeps (Based base) _)) (λ s3_url.
                        Ensures-bind (drop base (lift_keeps (Based base) _)) (λ _.
                          Ensures-bind
                            (Ensures-modify (Based base) (λ _. Based base) (λ _. Within 1) _
                              (λ s p. p))
                            (λ _.
                              Ensures-pure (Based base) Authorized (λ _. Within 1) _
                                (λ s p. p)))))))))))))))))

    keys_keep :
        (keys : Keys) (n : ℕ)
        → Ensures (Within n) (λ _. Within n) (λ _. Within n) (check_keys env split_url keys)
    unfolding check_keys
    keys_keep keys n = Ensures-bind (require_keeps (Within n) _ _) (λ _.
        Ensures-bind (note_keeps n _) (λ _. Ensures-bind (require_keeps (Within n) _ _) (λ _.
          Ensures-bind (note_keeps n _) (λ _. Ensures-bind (lift_keeps (Within n) _) (λ _.
            Ensures-bind (lift_keeps (Within n) _) (λ _.
              Ensures-bind (require_keeps (Within n) _ _)
                (λ _. Ensures-bind (require_keeps (Within n) _ _) (λ _. note_keeps n _))))))))

    up :
        {A : Type 0} (n m : ℕ) (f : Exec S A)
        → n ≤ m
        → Ensures (Within n) (λ _. Within n) (λ _. Within n) f
        → Ensures (Within n) (λ _. Within n) (λ _. Within m) f
    up n m f h e = within n n m f h e

    bucket_Within :
        (base token account : String) (n : ℕ)
        → IsApiBase base
        → Ensures
            (Within n)
            (λ _. Within (suc (suc n)))
            (λ _. Within (suc (suc n)))
            (check_bucket env split_url base token account)
    unfolding check_bucket
    bucket_Within base token account n h =
        Ensures-bind
          (within (suc n) n (suc (suc n)) _ (omega arith)
            (Ensures-request_json n _ (inr (base, "/b2api/v4/b2_list_buckets", h, refl, refl))))
          (λ buckets.
            Ensures-bind (up (suc n) (suc (suc n)) _ (omega arith) (lift_keeps (Within (suc n)) _))
              (λ records.
                Ensures-bind
                  (up (suc n) (suc (suc n)) _ (omega arith) (require_keeps (Within (suc n)) _ _))
                  (λ _.
                    Ensures-bind
                      (up (suc n) (suc (suc n)) _ (omega arith)
                        (require_keeps (Within (suc n)) _ _))
                      (λ _.
                        Ensures-bind
                          (up (suc n) (suc (suc n)) _ (omega arith) (note_keeps (suc n) _))
                          (λ _.
                            Ensures-bind
                              (Ensures-request_json (suc n) _
                                (inr (base, "/b2api/v4/b2_list_file_names", h, refl, refl)))
                              (λ files. Ensures-bind (lift_keeps (Within (suc (suc n))) _) (λ found.
                                Ensures-bind (require_keeps (Within (suc (suc n))) _ _)
                                  (λ _. note_keeps (suc (suc n)) _))))))))

    names_keep :
        (names : Outcome (List String)) (n : ℕ)
        → Ensures (Within n) (λ _. Within n) (λ _. Within n) (check_names env split_url names)
    unfolding check_names
    names_keep names n = Ensures-bind (lift_keeps (Within n) _) (λ _.
        Ensures-bind (note_keeps n _) (λ _. Ensures-bind (require_keeps (Within n) _ _) (λ _.
          Ensures-bind (note_keeps n _)
            (λ _. Ensures-bind (require_keeps (Within n) _ _) (λ _. note_keeps n _)))))

    account_Within :
        (account token base : String) (names : Outcome (List String))
        → IsApiBase base
        → Ensures
            (Within 1)
            (λ _. Within 103)
            (λ _. Within 103)
            (check_account env split_url account token base names)
    unfolding check_account
    account_Within account token base names h =
        Ensures-bind
          (within 101 1 103 _ (omega arith) (list_keys-Within 100 1 base token account none [] _ h))
          (λ keys. Ensures-bind (up 101 103 _ (omega arith) (keys_keep keys 101)) (λ _.
            Ensures-bind (bucket_Within base token account 101 h) (λ _. names_keep names 103)))

    pub preflight_Within :
        (basic : String) (names : Outcome (List String))
        → Ensures
            (Within 0)
            (λ _. Within 103)
            (λ _. Within 103)
            (perform_preflight env split_url basic names)
    unfolding perform_preflight
    preflight_Within basic names = Ensures-bind (up 0 103 _ (omega arith) (note_keeps 0 _)) (λ _.
        Ensures-bind
          (Ensures-mono (λ s p. p) (λ _ s p. p) (λ _ s p. Within-mono 1 103 s (omega arith) p)
            (authorize-Authorized basic))
          (λ found. after found))
      where
        after :
            (found : String × String × String)
            → Ensures
                (Authorized found)
                (λ _. Within 103)
                (λ _. Within 103)
                (check_account env split_url found.0 found.1 found.2 names)
        after (account, token, base) = Ensures-given (account_Within account token base names)

    -- Whatever the provider answers, a run of the preflight sends 103 requests at most, and each goes
    -- to the fixed authorization URL or to one of the three read endpoints of a host of the
    -- provider's API.
    pub perform_preflight-reads :
        (basic : String) (names : Outcome (List String)) (s : Run env.State)
        → s.requests ≡ []
        → let s' = (perform_preflight env split_url basic names s).1 in
          AllRead s'.requests × (length s'.requests ≤ 103)
    perform_preflight-reads basic names s h =
        Post-same (Within 103) _ ((preflight_Within basic names).at s (rw h (tt, omega arith)))
