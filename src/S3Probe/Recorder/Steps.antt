-- ===== src/S3Probe/Recorder/Steps.antt =====
-- One rule of `Ensures` for each operation of the recorder, over every answer of the world.
use homelab_server_configs.Prelude.{
  ℕ, String, Bool, true, ◌&&◌, Option, none, some, ◌∷◌, ◌≡◌, refl, is_name, is_name-decimal_between,
  ◌/◌, arith, [], ◌++◌,
}
use homelab_server_configs.Prelude.Exec.{
  Error, Outcome, Post, Post-const, Ensures, Ensures-mono, Ensures-bind, Ensures-require, modify,
  ◌>>=◌, ◌>>◌,
}
use homelab_server_configs.S3Probe.Recorder.{
  Request, Response, Document, sent, saved, World, Run, write, observe, mutation, finish, request,
  http_class, Scope, record_scope,
}

-- A file write ended with `o`: the world moved to `w`, and the document `d` is on the record.
abbrev pub after_write : {W : Type 0} → Run W → Document → Outcome Unit → W → Run W
after_write s d o w = record s { world = w; document = d; events = saved d o ∷ s.events }

abbrev pub after_request : {W : Type 0} → Run W → Request → Outcome Response → W → Run W
after_request s r o w = record s { world = w; events = sent r o ∷ s.events }

abbrev pub flagged : Document → Option Bool → Option Bool → Document
flagged d putting deleting = record d {
  put_attempted = elim putting [ none ↦ d.put_attempted | some b ↦ b ];
  delete_attempted = elim deleting [ none ↦ d.delete_attempted | some b ↦ b ];
}

abbrev pub finished :
    Document → String × ℕ → String → Option String → String → Bool → Bool → Document
finished d content result error_class hash absence residue = record d {
  result = result;
  run_id_sha256 = some hash;
  content = some content;
  absence_proven = absence;
  residue_possible = residue;
  error_class = elim error_class [ none ↦ d.error_class | some c ↦ some c ];
}

-- An observation leaves the two flags of the document alone.
abbrev pub SameFlags : Document → Document → Type 0
SameFlags d d' =
    (d'.put_attempted ≡ d.put_attempted)
    × (d'.delete_attempted ≡ d.delete_attempted)
    × (d'.result ≡ d.result)
    × (d'.residue_possible ≡ d.residue_possible)
    × (d'.scope ≡ d.scope)

pub http_class-IsName : (n : ℕ) → is_name (http_class n) ≡ true
unfolding http_class
http_class-IsName n = is_name-decimal_between "http_" (n / 100) "xx" (unfold is_name in refl) refl

module _ (env : World) where
  Ensures-write :
      (P : Run env.State → Type 0) (Q : Unit → Run env.State → Type 0)
      (E : Error → Run env.State → Type 0)
      → ((s : Run env.State) (o : Outcome Unit) (w : env.State)
          → P s
          → Post Q E (o, after_write s s.document o w))
      → Ensures P Q E (write env)
  unfolding write
  Ensures-write P Q E h = record {
    at = λ s p. let (o, w) = env.write_result s.document s.world in h s o w p;
  }

  -- The document is changed by `f`, and written.
  Ensures-change :
      (P : Run env.State → Type 0) (Q : Unit → Run env.State → Type 0)
      (E : Error → Run env.State → Type 0) (f : Document → Document)
      → ((s : Run env.State) (o : Outcome Unit) (w : env.State)
          → P s
          → Post Q E (o, after_write s (f s.document) o w))
      → Ensures P Q E (modify (λ s. record s { document = f s.document }) >> write env)
  unfolding ◌>>=◌ write
  Ensures-change P Q E f h = record {
    at = λ s p. let (o, w) = env.write_result (f s.document) s.world in h s o w p;
  }

  pub Ensures-mutation :
      (P : Run env.State → Type 0) (Q : Unit → Run env.State → Type 0)
      (E : Error → Run env.State → Type 0) (putting deleting : Option Bool)
      → ((s : Run env.State) (o : Outcome Unit) (w : env.State)
          → P s
          → Post Q E (o, after_write s (flagged s.document putting deleting) o w))
      → Ensures P Q E (mutation env putting deleting)
  unfolding mutation
  Ensures-mutation P Q E putting deleting h =
      Ensures-change P Q E (λ d. flagged d putting deleting) h

  pub Ensures-finish :
      (P : Run env.State → Type 0) (Q : Unit → Run env.State → Type 0)
      (E : Error → Run env.State → Type 0) (content : String × ℕ) (result : String)
      (error_class : Option String) (hash : String) (absence residue : Bool)
      → ((s : Run env.State) (o : Outcome Unit) (w : env.State)
          → P s
          → Post Q E (
            o,
            after_write s (finished s.document content result error_class hash absence residue) o w,
          ))
      → Ensures P Q E (finish env content result error_class hash absence residue)
  unfolding finish
  Ensures-finish P Q E content result error_class hash absence residue h =
      Ensures-change P Q E (λ d. finished d content result error_class hash absence residue) h

  -- What every observation keeps is kept, whether its write returns or raises.
  pub Ensures-observe :
      (P : Run env.State → Type 0) (phase request_class status : String)
      → is_name phase ≡ true
      → is_name request_class ≡ true
      → is_name status ≡ true
      → ((s : Run env.State) (d : Document) (o : Outcome Unit) (w : env.State)
          → SameFlags s.document d
          → P s
          → P (after_write s d o w))
      → Ensures P (λ _. P) (λ _. P) (observe env phase request_class status)
  unfolding observe
  Ensures-observe P phase request_class status hp hr hs h =
      Ensures-bind
        (Ensures-require P (λ _. P) (is_name phase && is_name request_class && is_name status) _
          (λ s p refused. absurd (ground arith)))
        (λ _.
          Ensures-change
            (λ s. P s × (is_name phase && is_name request_class && is_name status ≡ true)) (λ _. P)
            (λ _. P)
            (λ d. record d {
              observations =
                  d.observations
                  ++ (record { phase = phase; request_class = request_class; status = status })
                    ∷ [];
            })
            (λ s o w p. Post-const P o _ (h s _ o w (refl, refl, refl, refl, refl) p.0)))

  pub Ensures-record_scope :
      (P : Run env.State → Type 0) (Q : Unit → Run env.State → Type 0)
      (E : Error → Run env.State → Type 0) (scope : Scope)
      → ((s : Run env.State) (e : Error) → P s → E e s)
      → ((s : Run env.State) (o : Outcome Unit) (w : env.State)
          → P s
          → Post Q E (o, after_write s (record s.document { scope = some scope }) o w))
      → Ensures P Q E (record_scope env scope)
  unfolding record_scope
  Ensures-record_scope P Q E scope refused h =
      Ensures-bind (Ensures-require P E _ _ (λ s p _. refused s _ p)) (λ _.
        Ensures-bind
          (Ensures-mono (λ s p. p.0) (λ _ s p. p.0) (λ _ s p. p)
            (Ensures-require P E _ _ (λ s p _. refused s _ p)))
          (λ _. Ensures-change P Q E (λ d. record d { scope = some scope }) h))

  pub Ensures-request :
      (P : Run env.State → Type 0) (Q : Response → Run env.State → Type 0)
      (E : Error → Run env.State → Type 0) (r : Request)
      → ((s : Run env.State) (o : Outcome Response) (w : env.State)
          → P s
          → Post Q E (o, after_request s r o w))
      → Ensures P Q E (request env r)
  unfolding request
  Ensures-request P Q E r h = record { at = λ s p. let (o, w) = env.request r s.world in h s o w p }
