-- ===== src/KeyCreation/Creation/Once.antt =====
-- What a creation sends: which requests, and with which exceptions it ends.
use homelab_server_configs.Prelude.{
  ℕ, zero, suc, String, Bool, true, false, Option, none, some, List, [], ◌∷◌, ◌≡◌, refl, ◌⊎◌, inl,
  inr, arith, text_append, str_eq, any,
}
use homelab_server_configs.Prelude.Exec
use homelab_server_configs.Prelude.Exec.{
  Error, blocked, value_error, os_error, other_error, refused, Outcome, returned, raised, Exec,
  pure, raise, catch, Post, Post-same, Post-const, Post-cases, Ensures, Ensures-lift, Ensures-pure,
  Ensures-raise, Ensures-gets, Ensures-mono, Ensures-require, Ensures-modify, Ensures-catch,
  Ensures-given,
}
use homelab_server_configs.Prelude.Exec.Chain.{◌>>=◌}
use homelab_server_configs.Prelude.Json.{Fields, find}
use homelab_server_configs.KeyPreflight.Client.{
  ApiRequest, Provider, Run, SplitUrl, request_json, request_json-at, validate_api_base,
}
use homelab_server_configs.KeyPreflight.Run.{Keys, NextPage, last, bad, more, next_page}
use homelab_server_configs.KeyPreflight.Run.Requests.{
  IsApiBase, IsReadUrl, AllRead, preflight_Within, base-IsApiBase,
}
use homelab_server_configs.KeyCreation.Creation.{
  Python, Fingerprint, note, as_refused, on_delivery, from_option, validate_metadata, fingerprint,
  authorize_account, list_exact_keys, all_keys, deliver, read_back, create, check_before,
  perform_creation,
}

abbrev pub IsCreateUrl : String → Type 0
IsCreateUrl url =
    (base : String) × IsApiBase base × (url ≡ text_append base "/b2api/v4/b2_create_key")

-- One request creates a key, and all others read.
abbrev pub OneCreate : List ApiRequest → Type 0
OneCreate [] = ⊥
OneCreate (r ∷ rs) = (IsCreateUrl r.url × AllRead rs) ⊎ (IsReadUrl r.url × OneCreate rs)

abbrev pub NotBlocked : Error → Type 0
NotBlocked (blocked code) = ⊥
NotBlocked _ = Unit

module _ (env : Provider) (split_url : String → SplitUrl) (python : Python)
    (sink : String → String → env.State → Outcome Unit × env.State) where
  abbrev pub S : Type 0
  S = Run env.State

  abbrev pub Before : S → Type 0
  Before s = AllRead s.requests

  abbrev pub After : S → Type 0
  After s = OneCreate s.requests × (any (str_eq "provider_create_attempted") s.checks ≡ true)

  abbrev pub AfterError : Error → S → Type 0
  AfterError e s = After s × NotBlocked e

  abbrev pub AnyError : Error → S → Type 0
  AnyError e s = Before s ⊎ AfterError e s

  -- Reading requests, notes and tests keep what holds before the creation, and after it.
  record IsKept (P : S → Type 0) : Type 0 where
    reads :
        (r : ApiRequest) (s : S) (w : env.State)
        → IsReadUrl r.url
        → P s
        → P (record s { world = w; requests = r ∷ s.requests })
    moves : (s : S) (w : env.State) → P s → P (record s { world = w })
    notes : (c : String) (s : S) → P s → P (record s { checks = c ∷ s.checks })

  Before-IsKept : IsKept Before
  Before-IsKept = record { reads = λ r s w h p. (h, p); moves = λ s w p. p; notes = λ c s p. p }

  After-IsKept : IsKept After
  After-IsKept = record {
    reads = λ r s w h p. (inr (h, p.0), p.1);
    moves = λ s w p. p;
    notes = λ c s p. (p.0, ground (arith, p.1));
  }

  pub note-at :
      (P : S → Type 0) (E : Error → S → Type 0) (c : String)
      → ((s : S) → P s → P (record s { checks = c ∷ s.checks }))
      → Ensures P (λ _. P) E (note env split_url python sink c)
  unfolding note
  note-at P E c h = Ensures-modify P (λ _. P) E _ h

  module _ (P : S → Type 0) (kept : IsKept P) where
    module _ (E : Error → S → Type 0)
        (fails : (e : Error) (s : S) → NotBlocked e → P s → E e s) where
      abbrev Holds : {A : Type 0} → Exec S A → Type 0
      Holds m = Ensures P (λ _. P) E m

      note-Holds : (c : String) → Holds (note env split_url python sink c)
      note-Holds c = note-at P E c (λ s p. kept.notes c s p)

      require-Holds : (b : Bool) (e : Error) → NotBlocked e → Holds (Exec.require b e)
      require-Holds b e h =
          Ensures-mono (λ s p. p) (λ _ s p. p.0) (λ _ s p. p)
            (Ensures-require P E b e (λ s p _. fails e s h p))

      option-Holds :
          {A : Type 0} (e : Error) (o : Option A) → NotBlocked e → Holds (from_option e o)
      unfolding from_option
      option-Holds e none h = Ensures-raise P (λ _. P) E e (λ s p. fails e s h p)
      option-Holds e (some a) h = Ensures-pure P (λ _. P) E a (λ s p. p)

      metadata-Holds : (item : Fields) → Holds (validate_metadata env split_url python sink item)
      unfolding validate_metadata
      metadata-Holds item = do
        _ ← require-Holds _ _ tt
        _ ← require-Holds _ _ tt
        _ ← require-Holds _ _ tt
        _ ← require-Holds _ _ tt
        _ ← option-Holds _ _ tt
        _ ← require-Holds _ _ tt
        _ ← require-Holds _ _ tt
        _ ← require-Holds _ _ tt
        require-Holds _ _ tt

      fingerprint-Holds : (item : Fields) → Holds (fingerprint env split_url python sink item)
      unfolding fingerprint
      fingerprint-Holds item = do
        _ ← option-Holds _ _ tt
        _ ← require-Holds _ _ tt
        _ ← require-Holds _ _ tt
        _ ← option-Holds _ _ tt
        Ensures-pure P (λ _. P) E _ (λ s p. p)

      refused-Holds :
          {A : Type 0} (b : Bool) (e : Error) → Ensures {A = A} P (λ _. P) E (as_refused b e)
      unfolding as_refused
      refused-Holds b (blocked c) = Ensures-raise P (λ _. P) E _ (λ s p. fails _ s tt p)
      refused-Holds b (refused c n) = Ensures-raise P (λ _. P) E _ (λ s p. fails _ s tt p)
      refused-Holds b (value_error c) = Ensures-raise P (λ _. P) E _ (λ s p. fails _ s tt p)
      refused-Holds b os_error = Ensures-raise P (λ _. P) E _ (λ s p. fails _ s tt p)
      refused-Holds b other_error = Ensures-raise P (λ _. P) E _ (λ s p. fails _ s tt p)

      delivery-Holds : {A : Type 0} (e : Error) → Ensures {A = A} P (λ _. P) E (on_delivery e)
      unfolding on_delivery
      delivery-Holds (blocked c) = Ensures-raise P (λ _. P) E _ (λ s p. fails _ s tt p)
      delivery-Holds (refused c n) = Ensures-raise P (λ _. P) E _ (λ s p. fails _ s tt p)
      delivery-Holds (value_error c) = Ensures-raise P (λ _. P) E _ (λ s p. fails _ s tt p)
      delivery-Holds os_error = Ensures-raise P (λ _. P) E _ (λ s p. fails _ s tt p)
      delivery-Holds other_error = Ensures-raise P (λ _. P) E _ (λ s p. fails _ s tt p)

    abbrev Keeps : {A : Type 0} → Exec S A → Type 0
    Keeps m = Ensures P (λ _. P) (λ _. P) m

    read-Keeps : (r : ApiRequest) → IsReadUrl r.url → Keeps (request_json env r)
    read-Keeps r h = request_json-at env P P r (λ s w p. kept.reads r s w h p)

    lift-Keeps : {A : Type 0} (o : Outcome A) → Keeps (Exec.lift o)
    lift-Keeps o = Ensures-lift P (λ _. P) (λ _. P) o (λ s p. Post-const P o s p)

    list-Keeps :
        (attempted : Bool) (rounds : ℕ) (base token account : String) (start : Option String)
        (seen : List String) (keys : Keys)
        → IsApiBase base
        → Keeps (
            list_exact_keys env split_url python sink attempted rounds base token account start seen
              keys)
    unfolding list_exact_keys
    list-Keeps attempted zero base token account start seen keys h =
        Ensures-raise P (λ _. P) (λ _. P) _ (λ s p. p)
    list-Keeps attempted (suc rounds) base token account start seen keys h = do
      page ← read-Keeps _ (inr (base, "/b2api/v4/b2_list_keys", h, refl, refl))
      found ← lift-Keeps _
      sorted ← lift-Keeps _
      continue sorted (next_page (find "nextApplicationKeyId" page) seen) (λ next.
          list-Keeps attempted rounds base token account (some next) (next ∷ seen) sorted h)
      where
        continue :
            (sorted : Keys) (p : NextPage)
            → ((next : String)
                → Keeps (
                    list_exact_keys env split_url python sink attempted rounds base token account
                      (some next)
                      (next ∷ seen)
                      sorted))
            → Keeps (elim p [
              | last ↦ pure sorted
              | bad ↦ raise (refused "invalid_key_pagination" attempted)
              | more next ↦
                  list_exact_keys env split_url python sink attempted rounds base token account
                    (some next)
                    (next ∷ seen)
                    sorted
            ])
        continue sorted last ih = Ensures-pure P (λ _. P) (λ _. P) _ (λ s p. p)
        continue sorted bad ih = Ensures-raise P (λ _. P) (λ _. P) _ (λ s p. p)
        continue sorted (more next) ih = ih next

    keys-Hold :
        (E : Error → S → Type 0) (fails : (e : Error) (s : S) → NotBlocked e → P s → E e s)
        (attempted : Bool) (account token base : String)
        → IsApiBase base
        → Ensures P
            (λ _. P)
            E
            (catch
              (all_keys env split_url python sink attempted account token base)
              (as_refused attempted))
    unfolding all_keys
    keys-Hold E fails attempted account token base h =
        Ensures-catch (list-Keeps attempted 100 base token account none [] _ h)
          (λ e. refused-Holds E fails attempted e)

  abbrev Early : {A : Type 0} → Exec S A → Type 0
  Early m = Ensures Before (λ _. Before) AnyError m

  early : (e : Error) (s : S) → NotBlocked e → Before s → AnyError e s
  early e s _ p = inl p

  abbrev Authorized : String × String × String → S → Type 0
  Authorized found s = Before s × IsApiBase found.2

  abbrev Silent : Error → S → Type 0
  Silent _ = Before

  lift-Before : {A : Type 0} (o : Outcome A) → Ensures Before (λ _. Before) Silent (Exec.lift o)
  lift-Before o = lift-Keeps Before Before-IsKept o

  silent : (e : Error) (s : S) → NotBlocked e → Before s → Silent e s
  silent e s _ p = p

  authorize-Authorized :
      (basic : String)
      → Ensures Before Authorized Silent (authorize_account env split_url python sink basic)
  unfolding authorize_account
  authorize-Authorized basic = do
    response ←
        Ensures-catch (read-Keeps Before Before-IsKept _ (inl refl))
          (λ e. refused-Holds Before Before-IsKept Silent silent false e)
    account ← lift-Before _
    token ← lift-Before _
    _ ← lift-Before _
    _ ← lift-Before _
    _ ← lift-Before _
    _ ← lift-Before _
    _ ← require-Holds Before Before-IsKept Silent silent _ _ tt
    _ ← require-Holds Before Before-IsKept Silent silent _ _ tt
    api_url ← lift-Before _
    base ←
        Ensures-lift Before (λ base s. Before s × IsApiBase base) Silent
          (validate_api_base (split_url api_url))
          (λ s p.
            Post-cases _ Silent (validate_api_base (split_url api_url)) s
              (λ base e. (p, base-IsApiBase env split_url (split_url api_url) base e)) (λ _ _. p))
    Ensures-given (λ h. do
      _ ← lift-Before _
      _ ← lift-Before _
      Ensures-pure Before Authorized Silent _ (λ s p. (p, h)))

  check_before-Early :
      (account token base : String)
      → IsApiBase base
      → Early (check_before env split_url python sink account token base)
  unfolding check_before
  check_before-Early account token base h = do
    keys ← keys-Hold Before Before-IsKept AnyError early false account token base h
    _ ← require-Holds Before Before-IsKept AnyError early _ _ tt
    _ ← require-Holds Before Before-IsKept AnyError early _ _ tt
    _ ← fingerprint-Holds Before Before-IsKept AnyError early _
    _ ← note-Holds Before Before-IsKept AnyError early _
    _ ← note-Holds Before Before-IsKept AnyError early _
    Ensures-pure Before (λ _. Before) AnyError _ (λ s p. p)

  abbrev Late : {A : Type 0} → Exec S A → Type 0
  Late m = Ensures After (λ _. After) AnyError m

  late : (e : Error) (s : S) → NotBlocked e → After s → AnyError e s
  late e s h p = inr (p, h)

  -- Inside of the delivery any exception is possible.
  after : (e : Error) (s : S) → NotBlocked e → After s → After s
  after e s h p = p

  sink_keeps :
      (key_id key_value : String)
      → Ensures {S = S} After
          (λ _. After)
          (λ _. After)
          (λ s. let (o, w) = sink key_id key_value s.world in (o, record s { world = w }))
  sink_keeps key_id key_value = record {
    at = λ s p. let (o, w) = sink key_id key_value s.world in Post-const After o _ p;
  }

  deliver-Late : (created : Fields) → Late (deliver env split_url python sink created)
  unfolding deliver
  deliver-Late created = do
    key_id ← option-Holds After After-IsKept AnyError late _ _ tt
    key_value ← option-Holds After After-IsKept AnyError late _ _ tt
    Ensures-catch
        (do
          _ ← metadata-Holds After After-IsKept (λ _. After) after _
          _ ← note-Holds After After-IsKept (λ _. After) after _
          _ ← sink_keeps key_id key_value
          note-Holds After After-IsKept (λ _. After) after _)
        (λ e. delivery-Holds After After-IsKept AnyError late e)

  read_back-Late :
      (account token base : String) (before : Fingerprint)
      → IsApiBase base
      → Late (read_back env split_url python sink account token base before)
  unfolding read_back
  read_back-Late account token base before h = do
    keys ← keys-Hold After After-IsKept AnyError late true account token base h
    _ ← note-Holds After After-IsKept AnyError late _
    _ ← require-Holds After After-IsKept AnyError late _ _ tt
    _ ← require-Holds After After-IsKept AnyError late _ _ tt
    _ ← metadata-Holds After After-IsKept AnyError late _
    _ ← fingerprint-Holds After After-IsKept AnyError late _
    _ ← require-Holds After After-IsKept AnyError late _ _ tt
    _ ← note-Holds After After-IsKept AnyError late _
    _ ← note-Holds After After-IsKept AnyError late _
    note-Holds After After-IsKept AnyError late _

  abbrev Noted : S → Type 0
  Noted s = Before s × (any (str_eq "provider_create_attempted") s.checks ≡ true)

  create-After :
      (account token base : String) (before : Fingerprint)
      → IsApiBase base
      → Ensures Noted
          (λ _. After)
          AnyError
          (create env split_url python sink account token base before)
  unfolding create
  create-After account token base before h = do
    created ←
        Ensures-catch
          (request_json-at env Noted After _ (λ s w p. (inl ((base, h, refl), p.0), p.1)))
          (λ e. refused-Holds After After-IsKept AnyError late true e)
    _ ← note-Holds After After-IsKept AnyError late _
    _ ← deliver-Late created
    read_back-Late account token base before h

  -- The handler only raises.
  weaker :
      (e : Error)
      → Ensures {A = String × String × String} Before Authorized AnyError (as_refused false e)
  unfolding as_refused
  weaker (blocked c) = Ensures-raise Before Authorized AnyError _ (λ s p. inl p)
  weaker (refused c n) = Ensures-raise Before Authorized AnyError _ (λ s p. inl p)
  weaker (value_error c) = Ensures-raise Before Authorized AnyError _ (λ s p. inl p)
  weaker os_error = Ensures-raise Before Authorized AnyError _ (λ s p. inl p)
  weaker other_error = Ensures-raise Before Authorized AnyError _ (λ s p. inl p)

  -- A creation that starts without requests.
  pub perform_creation-After :
      (basic : String) (names : Outcome (List String))
      → Ensures
          (λ s. s.requests ≡ [])
          (λ _. After)
          AnyError
          (perform_creation env split_url python sink basic names)
  unfolding perform_creation note
  perform_creation-After basic names = do
    _ ←
        Ensures-catch
          (Ensures-mono (λ s p. rw p (tt, omega arith)) (λ _ s p. p.0) (λ _ s p. p.0)
            (preflight_Within env split_url basic names))
          (λ e. refused-Holds Before Before-IsKept AnyError early false e)
    _ ← Ensures-modify Before (λ _. Before) AnyError _ (λ s p. p)
    _ ← note-Holds Before Before-IsKept AnyError early _
    found ← Ensures-catch (authorize-Authorized basic) weaker
    Ensures-given (λ h. do
      _ ← note-Holds Before Before-IsKept AnyError early _
      before ← check_before-Early found.0 found.1 found.2 h
      _ ← Ensures-modify Before (λ _. Noted) AnyError _ (λ s p. (p, refl))
      create-After found.0 found.1 found.2 before h)
