-- ===== src/S3Probe/Transaction/Trace.antt =====
-- The trace of a run, and the rules for its read-only exchanges.
use homelab_server_configs.Prelude.{
  ℕ, ◌+◌, String, Bool, true, false, some, List, [], ◌∷◌, ◌≡◌, refl, if◌then◌else◌, is_name,
}
use homelab_server_configs.Prelude.Exec.{
  Error, Outcome, returned, raised, Ensures, Ensures-pure, Ensures-mono,
}
use homelab_server_configs.Prelude.Exec.Chain.{◌>>=◌, ◌>>◌}
use homelab_server_configs.S3Probe.Recorder.{
  Method, put, delete, Request, Response, Document, Event, sent, saved, World, Run,
}
use homelab_server_configs.S3Probe.Recorder.Steps.{
  after_write, after_request, http_class-IsName, Ensures-observe, Ensures-request,
}
use homelab_server_configs.S3Probe.Transaction.{Library, exchange, list_prefix, head_object}

abbrev pub is_put : Method → Bool
is_put put = true
is_put _ = false

abbrev pub is_delete : Method → Bool
is_delete delete = true
is_delete _ = false

-- The requests of a method that were sent.
unfoldable pub count_sent : (Method → Bool) → List Event → ℕ
count_sent p [] = 0
count_sent p (sent r o ∷ es) = (if p r.method then 1 else 0) + count_sent p es
count_sent p (saved d o ∷ es) = count_sent p es

-- Whether the newest write of result.json succeeded, with a document that `f` accepts.
abbrev pub newest_saved : (Document → Bool) → List Event → Bool
newest_saved f [] = false
newest_saved f (sent r o ∷ es) = newest_saved f es
newest_saved f (saved d (returned _) ∷ es) = f d
newest_saved f (saved d (raised _) ∷ es) = false

-- Each PUT and each DELETE addresses `key`, and the newest evidence announced it.
abbrev pub Announced : String → List Event → Type 0
Announced key [] = Unit
Announced key (sent r o ∷ es) =
    (is_put r.method ≡ true
      → (newest_saved (λ d. d.put_attempted) es ≡ true) × (r.object_key ≡ some key))
    × (is_delete r.method ≡ true
        → (newest_saved (λ d. d.delete_attempted) es ≡ true) × (r.object_key ≡ some key))
    × Announced key es
Announced key (saved d o ∷ es) = Announced key es

-- An assertion that writes of evidence and read-only requests keep.
pub record IsCalm {W : Type 0} (P : Run W → Type 0) : Type 0 where
  pub writes : (s : Run W) (d : Document) (o : Outcome Unit) (w : W) → P s → P (after_write s d o w)
  pub reads :
      (s : Run W) (r : Request) (o : Outcome Response) (w : W)
      → is_put r.method ≡ false
      → is_delete r.method ≡ false
      → P s
      → P (after_request s r o w)

module _ (env : World) (lib : Library) (run_id : String) where
  pub Ensures-exchange :
      (P : Run env.State → Type 0) (Q : Response → Run env.State → Type 0)
      (E : Run env.State → Type 0) (phase request_class : String) (r : Request)
      → is_name phase ≡ true
      → is_name request_class ≡ true
      → ((a : Response) (s : Run env.State) (d : Document) (o : Outcome Unit) (w : env.State)
          → Q a s
          → Q a (after_write s d o w))
      → ((a : Response) (s : Run env.State) → Q a s → E s)
      → ((s : Run env.State) (a : Response) (w : env.State)
          → P s
          → Q a (after_request s r (returned a) w))
      → ((s : Run env.State) (e : Error) (w : env.State) → P s → E (after_request s r (raised e) w))
      → Ensures P Q (λ _. E) (exchange env lib run_id phase request_class r)
  unfolding exchange
  Ensures-exchange P Q E phase request_class r hp hr stays weak ok failed = do
    a ←
        Ensures-request env P Q (λ _. E) r
          (λ s. elim [ returned a ↦ λ w p. ok s a w p | raised e ↦ λ w p. failed s e w p ])
    Ensures-mono (λ s p. p) (λ _ s q. q) (λ _ s q. weak a s q)
        (Ensures-observe env (Q a) phase request_class _ hp hr (http_class-IsName a.status)
          (λ s d o w _ q. stays a s d o w q))
    Ensures-pure (Q a) Q (λ _. E) a (λ s q. q)

  module _ (P : Run env.State → Type 0) (calm : IsCalm P) where
    pub Ensures-read :
        (phase request_class : String) (r : Request)
        → is_name phase ≡ true
        → is_name request_class ≡ true
        → is_put r.method ≡ false
        → is_delete r.method ≡ false
        → Ensures P (λ _. P) (λ _. P) (exchange env lib run_id phase request_class r)
    Ensures-read phase request_class r hp hr np nd =
        Ensures-exchange P (λ _. P) P phase request_class r hp hr (λ _. calm.writes) (λ _ s p. p)
          (λ s a w. calm.reads s r (returned a) w np nd)
          (λ s e w. calm.reads s r (raised e) w np nd)

    pub Ensures-list_prefix :
        (phase : String)
        → is_name phase ≡ true
        → Ensures P (λ _. P) (λ _. P) (list_prefix env lib run_id phase)
    unfolding list_prefix is_name
    Ensures-list_prefix phase hp = Ensures-read phase "list_owned_prefix" _ hp refl refl refl

    pub Ensures-head_object :
        (phase : String)
        → is_name phase ≡ true
        → Ensures P (λ _. P) (λ _. P) (head_object env lib run_id phase)
    unfolding head_object is_name
    Ensures-head_object phase hp = Ensures-read phase "head_exact_object" _ hp refl refl refl
