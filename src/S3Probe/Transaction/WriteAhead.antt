-- ===== src/S3Probe/Transaction/WriteAhead.antt =====
-- The order of the requests of `perform_probe` and its writes of result.json.
use homelab_server_configs.Prelude.{
  ℕ, ◌≤◌, String, Bool, true, false, Option, none, some, List, [], ◌≡◌, refl, arith, if◌then◌else◌,
  is_name, ◌==◌,
}
use homelab_server_configs.Prelude.Exec.{
  Post-same, Error, blocked, value_error, os_error, other_error, refused, Outcome, returned, raised,
  Exec, pure, ◌>>◌, Post, Ensures, Ensures-lift, Ensures-pure, Ensures-raise, Ensures-gets,
  Ensures-mono, Ensures-bind, Ensures-require, Ensures-modify, Ensures-catch, Ensures-from,
}
use homelab_server_configs.S3Probe.Recorder.{
  delete, Request, Response, Document, World, Run, observe,
}
use homelab_server_configs.S3Probe.Listing.{list_keys, require_empty_list}
use homelab_server_configs.S3Probe.Recorder.Steps.{
  after_write, after_request, Ensures-mutation, Ensures-finish, Ensures-observe,
}
use homelab_server_configs.S3Probe.Transaction.Trace.{
  is_put, is_delete, count_sent, newest_saved, Announced, IsCalm, Ensures-exchange,
  Ensures-list_prefix, Ensures-head_object, Ensures-read,
}
use homelab_server_configs.S3Probe.Transaction.{
  error_code, Library, object_key_of, object_request, put_request, exchange, begin_delete,
  put_object, read_back, delete_object, accept, forward, cleanup_delete, cleanup_head, cleanup_list,
  cleanup, recover, perform_probe, finish_run, on_blocked,
}

-- The two local variables, and bounds on what was sent.
record At (key : String) (p d : Bool) (i j : ℕ) {W : Type 0} (s : Run W) : Type 0 where
  put_flag : s.put_attempted ≡ p
  delete_flag : s.delete_attempted ≡ d
  few_puts : count_sent is_put s.events ≤ i
  few_deletes : count_sent is_delete s.events ≤ j
  announced : Announced key s.events

-- What the handler can rely on, wherever the `try` block was left.
record Failed (key : String) {W : Type 0} (s : Run W) : Type 0 where
  few_puts : count_sent is_put s.events ≤ 1
  few_deletes : count_sent is_delete s.events ≤ 1
  no_put : s.put_attempted ≡ false → count_sent is_put s.events ≡ 0
  no_delete : s.delete_attempted ≡ false → count_sent is_delete s.events ≡ 0
  announced : Announced key s.events

module _ {W : Type 0} (key : String) where
  At-after_write :
      (p d : Bool) (i j : ℕ) (s : Run W) (doc : Document) (o : Outcome Unit) (w : W)
      → At key p d i j s
      → At key p d i j (after_write s doc o w)
  unfolding count_sent
  At-after_write p d i j s doc o w h = ground arith

  Failed-after_write :
      (s : Run W) (doc : Document) (o : Outcome Unit) (w : W)
      → Failed key s
      → Failed key (after_write s doc o w)
  unfolding count_sent
  Failed-after_write s doc o w h = ground arith

  At-after_read :
      (p d : Bool) (i j : ℕ) (s : Run W) (r : Request) (o : Outcome Response) (w : W)
      → is_put r.method ≡ false
      → is_delete r.method ≡ false
      → At key p d i j s
      → At key p d i j (after_request s r o w)
  unfolding count_sent
  At-after_read p d i j s r o w hp hd h = ground arith

  Failed-after_read :
      (s : Run W) (r : Request) (o : Outcome Response) (w : W)
      → is_put r.method ≡ false
      → is_delete r.method ≡ false
      → Failed key s
      → Failed key (after_request s r o w)
  unfolding count_sent
  Failed-after_read s r o w hp hd h = ground arith

module _ {W : Type 0} (key : String) where
  At-IsCalm : (p d : Bool) (i j : ℕ) → IsCalm {W = W} (At key p d i j)
  At-IsCalm p d i j = record {
    writes = At-after_write key p d i j;
    reads = At-after_read key p d i j;
  }

  Failed-IsCalm : IsCalm {W = W} (Failed key)
  Failed-IsCalm = record { writes = Failed-after_write key; reads = Failed-after_read key }

module _ (env : World) (lib : Library) (run_id : String) where
  abbrev key : String
  key = object_key_of run_id

  abbrev Stage : Bool → Bool → ℕ → ℕ → Run env.State → Type 0
  Stage p d i j = At key p d i j

  abbrev Left : Error → Run env.State → Type 0
  Left _ = Failed key

  At-Failed :
      (p d : Bool) (i j : ℕ) (s : Run env.State)
      → i ≤ 1
      → j ≤ 1
      → (p ≡ false → i ≡ 0)
      → (d ≡ false → j ≡ 0)
      → Stage p d i j s
      → Failed key s
  At-Failed p d i j s hi hj hp hd h = ground arith

  -- A PUT is announced, sent once, and observed.
  Ensures-put_object :
      Ensures (Stage false false 0 0) (λ _. Stage true false 1 0) Left (put_object env lib run_id)
  unfolding put_object is_name count_sent
  Ensures-put_object =
      Ensures-bind
        (Ensures-modify (Stage false false 0 0) (λ _. Stage true false 0 0) Left _
          (λ s h. ground arith))
        (λ _.
          Ensures-bind
            (Ensures-mutation env (Stage true false 0 0)
              (λ _ s.
                Stage true false 0 0 s × (newest_saved (λ d. d.put_attempted) s.events ≡ true))
              Left (some true) none
              (λ s. elim [ returned a ↦ λ w h. ground arith | raised e ↦ λ w h. ground arith ]))
            (λ _.
              Ensures-bind
                (Ensures-exchange env lib run_id _ (λ _. Stage true false 1 0) (Failed key)
                  "forward" "put_exact_object" (put_request run_id) refl refl
                  (λ _. At-after_write key true false 1 0) (λ _ s h. ground arith)
                  (λ s a w h. ground arith) (λ s e w h. ground arith))
                (λ a.
                  Ensures-mono (λ s h. h) (λ _ s h. h.0) (λ _ s h. h)
                    (Ensures-require (Stage true false 1 0) Left (a.status == 200) _
                      (λ s h _. ground arith)))))

  Ensures-read_back :
      Ensures (Stage true false 1 0) (λ _. Stage true false 1 0) Left (read_back env lib run_id)
  unfolding read_back is_name
  Ensures-read_back =
      let fails : (s : Run env.State) → Stage true false 1 0 s → Failed key s =
        λ s h. ground arith in
      Ensures-bind
        (Ensures-mono (λ s h. h) (λ _ s h. h) (λ _. fails)
          (Ensures-head_object env lib run_id _ (At-IsCalm key true false 1 0) "forward" refl))
        (λ a.
          Ensures-bind (Ensures-require (Stage true false 1 0) Left _ _ (λ s h _. fails s h)) (λ _.
            Ensures-bind
              (Ensures-mono (λ s h. h.0) (λ _ s h. h) (λ _. fails)
                (Ensures-list_prefix env lib run_id _ (At-IsCalm key true false 1 0) "forward"
                  refl))
              (λ listing.
                Ensures-bind
                  (Ensures-lift _ (λ _. Stage true false 1 0) Left (list_keys lib.parse_xml listing)
                    (keep (list_keys lib.parse_xml listing)))
                  (λ keys.
                    Ensures-bind
                      (Ensures-require (Stage true false 1 0) Left _ _ (λ s h _. fails s h))
                      (λ _.
                        Ensures-bind
                          (Ensures-mono (λ s h. h.0) (λ _ s h. h) (λ _. fails)
                            (Ensures-read env lib run_id _ (At-IsCalm key true false 1 0) "forward"
                              "get_exact_object" _ refl refl refl refl))
                          (λ reply.
                            Ensures-mono (λ s h. h) (λ _ s h. h.0) (λ _ s h. h)
                              (Ensures-require (Stage true false 1 0) Left _ _
                                (λ s h _. fails s h))))))))
    where
      keep :
          (o : Outcome (List String)) (s : Run env.State)
          → Stage true false 1 0 s
          → Post (λ _. Stage true false 1 0) Left (o, s)
      keep (returned a) s h = h
      keep (raised e) s h = ground arith

  -- A DELETE is announced: afterwards it is on record, and none has been sent.
  Ensures-begin_delete :
      Ensures
        (λ s. Failed key s × (s.delete_attempted ≡ false))
        (λ _ s.
          Failed key s
          × (count_sent is_delete s.events ≡ 0)
          × (newest_saved (λ d. d.delete_attempted) s.events ≡ true)
          × (s.delete_attempted ≡ true))
        Left
        (begin_delete env lib run_id)
  unfolding begin_delete count_sent
  Ensures-begin_delete =
      Ensures-bind
        (Ensures-modify _
          (λ _ s. Failed key s × (count_sent is_delete s.events ≡ 0) × (s.delete_attempted ≡ true))
          Left _ (λ s h. ground arith))
        (λ _.
          Ensures-mutation env _ _ _ none (some true)
            (λ s. elim [ returned a ↦ λ w h. ground arith | raised e ↦ λ w h. ground arith ]))

  Ensures-send_delete :
      (phase : String)
      → is_name phase ≡ true
      → Ensures
          (λ s.
            Failed key s
            × (count_sent is_delete s.events ≡ 0)
            × (newest_saved (λ d. d.delete_attempted) s.events ≡ true)
            × (s.delete_attempted ≡ true))
          (λ _. Failed key)
          Left
          (exchange env lib run_id phase "delete_exact_object" (object_request delete run_id))
  unfolding count_sent is_name
  Ensures-send_delete phase hp =
      Ensures-exchange env lib run_id _ (λ _. Failed key) (Failed key) phase "delete_exact_object" _
        hp refl (λ _. Failed-after_write key) (λ _ s h. h) (λ s a w h. ground arith)
        (λ s e w h. ground arith)

  Ensures-delete_object :
      Ensures (Stage true false 1 0) (λ _. Failed key) Left (delete_object env lib run_id)
  unfolding delete_object is_name
  Ensures-delete_object =
      Ensures-bind (Ensures-from (λ s h. ground arith) Ensures-begin_delete) (λ _.
        Ensures-bind (Ensures-send_delete "forward" refl) (λ a.
          Ensures-mono (λ s h. h) (λ _ s h. h.0) (λ _ s h. h)
            (Ensures-require (Failed key) Left (a.status == 204) _ (λ s h _. h))))

  Failed-outcome :
      {A : Type 0} (o : Outcome A) (s : Run env.State)
      → Failed key s
      → Post (λ _. Failed key) Left (o, s)
  Failed-outcome (returned a) s h = h
  Failed-outcome (raised e) s h = h

  Ensures-finish_run :
      (result : String) (code : Option String) (absence residue : Bool)
      → Ensures
          (Failed key)
          (λ _. Failed key)
          Left
          (finish_run env lib run_id result code absence residue)
  unfolding finish_run
  Ensures-finish_run result code absence residue =
      Ensures-finish env _ _ _ _ _ _ _ _ _
        (λ s o w h. Failed-outcome o _ (Failed-after_write key s _ o w h))

  Ensures-accept : Ensures (Failed key) (λ _. Failed key) Left (accept env lib run_id)
  unfolding accept is_name
  Ensures-accept =
      Ensures-bind (Ensures-head_object env lib run_id _ (Failed-IsCalm key) "acceptance" refl)
        (λ a. Ensures-bind (Ensures-require (Failed key) Left _ _ (λ s h _. h)) (λ _.
          Ensures-bind
            (Ensures-from (λ s h. h.0)
              (Ensures-list_prefix env lib run_id _ (Failed-IsCalm key) "acceptance" refl))
            (λ listing.
              Ensures-bind
                (Ensures-lift _ (λ _. Failed key) Left (require_empty_list lib.parse_xml listing)
                  (Failed-outcome (require_empty_list lib.parse_xml listing)))
                (λ _.
                  Ensures-bind (Ensures-finish_run "passed" none true false)
                    (λ _. Ensures-pure (Failed key) (λ _. Failed key) Left _ (λ s h. h))))))

  Ensures-forward : Ensures (Stage false false 0 0) (λ _. Failed key) Left (forward env lib run_id)
  unfolding forward is_name
  Ensures-forward =
      Ensures-bind
        (Ensures-mono (λ s h. h) (λ _ s h. h) (λ _ s h. ground arith)
          (Ensures-list_prefix env lib run_id _ (At-IsCalm key false false 0 0) "initial" refl))
        (λ listing.
          Ensures-bind
            (Ensures-lift (Stage false false 0 0) (λ _. Stage false false 0 0) Left
              (require_empty_list lib.parse_xml listing)
              (keep (require_empty_list lib.parse_xml listing)))
            (λ _. Ensures-bind Ensures-put_object (λ _.
              Ensures-bind Ensures-read_back
                (λ _. Ensures-bind Ensures-delete_object (λ _. Ensures-accept)))))
    where
      keep :
          (o : Outcome Unit) (s : Run env.State)
          → Stage false false 0 0 s
          → Post (λ _. Stage false false 0 0) Left (o, s)
      keep (returned a) s h = h
      keep (raised e) s h = ground arith

  Ensures-on_blocked :
      {A : Type 0} (h : Exec (Run env.State) A) (e : Error)
      → Ensures (Failed key) (λ _. Failed key) Left h
      → Ensures (Failed key) (λ _. Failed key) Left (on_blocked h e)
  Ensures-on_blocked h (blocked code) k = k
  Ensures-on_blocked h (value_error m) k = Ensures-raise _ _ _ _ (λ s p. p)
  Ensures-on_blocked h os_error k = Ensures-raise _ _ _ _ (λ s p. p)
  Ensures-on_blocked h other_error k = Ensures-raise _ _ _ _ (λ s p. p)
  Ensures-on_blocked h (refused code m) k = Ensures-raise _ _ _ _ (λ s p. p)

  -- An observation that a step of the handler failed.
  Ensures-observe_error :
      (request_class : String)
      → is_name request_class ≡ true
      → Ensures
          (Failed key)
          (λ _. Failed key)
          Left
          (observe env "cleanup" request_class "transport_error")
  unfolding is_name
  Ensures-observe_error request_class hr =
      Ensures-observe env (Failed key) "cleanup" request_class "transport_error" refl hr refl
        (λ s d o w _ h. Failed-after_write key s d o w h)

  Ensures-cleanup_delete :
      Ensures
        (λ s. Failed key s × (s.delete_attempted ≡ false))
        (λ _. Failed key)
        Left
        (cleanup_delete env lib run_id)
  unfolding cleanup_delete is_name
  Ensures-cleanup_delete =
      Ensures-catch
        (Ensures-bind Ensures-begin_delete (λ _.
          Ensures-bind (Ensures-send_delete "cleanup" refl)
            (λ _. Ensures-pure (Failed key) (λ _. Failed key) Left tt (λ s h. h))))
        (λ e. Ensures-on_blocked _ e (Ensures-observe_error "delete_exact_object" refl))

  Ensures-cleanup_head : Ensures (Failed key) (λ _. Failed key) Left (cleanup_head env lib run_id)
  unfolding cleanup_head is_name
  Ensures-cleanup_head =
      Ensures-catch
        (Ensures-bind (Ensures-head_object env lib run_id _ (Failed-IsCalm key) "cleanup" refl)
          (λ a. Ensures-pure (Failed key) (λ _. Failed key) Left _ (λ s h. h)))
        (λ e. Ensures-on_blocked _ e (
          Ensures-bind (Ensures-observe_error "head_exact_object" refl)
            (λ _. Ensures-pure (Failed key) (λ _. Failed key) Left _ (λ s h. h))))

  Ensures-cleanup_list : Ensures (Failed key) (λ _. Failed key) Left (cleanup_list env lib run_id)
  unfolding cleanup_list is_name
  Ensures-cleanup_list =
      Ensures-catch
        (Ensures-bind (Ensures-list_prefix env lib run_id _ (Failed-IsCalm key) "cleanup" refl)
          (λ listing.
            Ensures-bind
              (Ensures-lift _ (λ _. Failed key) Left (list_keys lib.parse_xml listing)
                (Failed-outcome (list_keys lib.parse_xml listing)))
              (λ keys. Ensures-pure (Failed key) (λ _. Failed key) Left _ (λ s h. h))))
        (λ e. Ensures-on_blocked _ e (
          Ensures-bind (Ensures-observe_error "list_owned_prefix" refl)
            (λ _. Ensures-pure (Failed key) (λ _. Failed key) Left _ (λ s h. h))))

  Ensures-delete_unless :
      (deleted : Bool)
      → Ensures
          (λ s. Failed key s × (s.delete_attempted ≡ deleted))
          (λ _. Failed key)
          Left
          (if deleted then pure tt else cleanup_delete env lib run_id)
  Ensures-delete_unless true = Ensures-pure _ (λ _. Failed key) Left tt (λ s h. h.0)
  Ensures-delete_unless false = Ensures-cleanup_delete

  Ensures-cleanup :
      (code : String) → Ensures (Failed key) (λ _. Failed key) Left (cleanup env lib run_id code)
  unfolding cleanup
  Ensures-cleanup code =
      Ensures-bind
        (Ensures-gets (Failed key) (λ deleted s. Failed key s × (s.delete_attempted ≡ deleted)) Left
          _ (λ s h. (h, refl)))
        (λ deleted. Ensures-bind (Ensures-delete_unless deleted) (λ _.
          Ensures-bind Ensures-cleanup_head (λ head_absent.
            Ensures-bind Ensures-cleanup_list (λ list_empty.
              Ensures-bind (Ensures-gets (Failed key) (λ _. Failed key) Left _ (λ s h. h))
                (λ attempted.
                  Ensures-bind (Ensures-finish_run _ _ _ _)
                    (λ _. Ensures-pure (Failed key) (λ _. Failed key) Left _ (λ s h. h)))))))

  Ensures-recover_at :
      (attempted : Bool) (e : Error)
      → Ensures
          (Failed key)
          (λ _. Failed key)
          Left
          (if attempted then cleanup env lib run_id (error_code e) else (do
            finish_run env lib run_id "blocked" (some (error_code e)) true false
            pure "blocked"))
  Ensures-recover_at true e = Ensures-cleanup (error_code e)
  Ensures-recover_at false e =
      Ensures-bind (Ensures-finish_run _ _ _ _)
        (λ _. Ensures-pure (Failed key) (λ _. Failed key) Left _ (λ s h. h))

  Ensures-recover :
      (e : Error) → Ensures (Failed key) (λ _. Failed key) Left (recover env lib run_id e)
  unfolding recover
  Ensures-recover e =
      Ensures-bind (Ensures-gets (Failed key) (λ _. Failed key) Left _ (λ s h. h))
        (λ attempted. Ensures-recover_at attempted e)

  -- At most one PUT and one DELETE, each announced and to the key of the run.
  abbrev Traced : Run env.State → Type 0
  Traced s =
      (count_sent is_put s.events ≤ 1)
      × (count_sent is_delete s.events ≤ 1)
      × Announced key s.events

  Ensures-perform_probe :
      Ensures (λ s. s.events ≡ []) (λ _. Traced) (λ _. Traced) (perform_probe env lib run_id)
  unfolding perform_probe count_sent
  Ensures-perform_probe =
      Ensures-bind
        (Ensures-require (λ s. s.events ≡ []) (λ _. Traced) _ _ (λ s h _. rw h (ground arith)))
        (λ _.
          Ensures-bind
            (Ensures-modify _ (λ _. Stage false false 0 0) (λ _. Traced) _
              (λ s h. record {
                put_flag = refl;
                delete_flag = refl;
                few_puts = rw h.0 (omega arith);
                few_deletes = rw h.0 (omega arith);
                announced = rw h.0 tt;
              }))
            (λ _.
              Ensures-mono (λ s h. h) (λ _ s h. (h.few_puts, h.few_deletes, h.announced))
                (λ _ s h. (h.few_puts, h.few_deletes, h.announced))
                (Ensures-catch Ensures-forward Ensures-recover)))

  -- Whatever the provider, the network and the disk answer, a run that starts with an empty trace
  -- sends at most one PUT and at most one DELETE. Each of them addresses the object key of the run,
  -- and is sent only when the newest write of result.json succeeded and announced it.
  pub perform_probe-Announced :
      (s : Run env.State)
      → s.events ≡ []
      → let s' = (perform_probe env lib run_id s).1 in
        (count_sent is_put s'.events ≤ 1)
        × (count_sent is_delete s'.events ≤ 1)
        × Announced (object_key_of run_id) s'.events
  perform_probe-Announced s h =
      Post-same Traced (perform_probe env lib run_id s) (Ensures-perform_probe.at s h)
