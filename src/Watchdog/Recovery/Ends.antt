-- ===== src/Watchdog/Recovery/Ends.antt =====
-- How long `recovery_observation` takes.
use homelab_server_configs.Prelude.{
  ℕ, zero, suc, ◌+◌, ◌-◌, ◌*◌, ◌≤◌, ◌<◌, String, Bool, true, false, Option, none, some, ◌≡◌, refl,
  ◌⊎◌, inl, inr, arith, Bool-cases, leb,
}
use homelab_server_configs.Prelude.Exec.{
  Error, Outcome, returned, raised, Exec, pure, Post, Ensures, Ensures-pure, Ensures-gets,
  Ensures-mono, Ensures-if, Ensures-given, Ensures-require, Ensures-modify, Ensures-from,
}
use homelab_server_configs.Prelude.Exec.Chain.{◌>>=◌, ◌>>◌}
use homelab_server_configs.Watchdog.Timing
use homelab_server_configs.Watchdog.Checks.{Stage}
use homelab_server_configs.Watchdog.Sample.{Lab, Watch}
use homelab_server_configs.Watchdog.Recovery.{
  smaller, converge, stabilize, finish_observation, recovery_observation,
}
use homelab_server_configs.Prelude.Exec.Quiet.{Any, anything}
use homelab_server_configs.Watchdog.Sample.Timed
use homelab_server_configs.Watchdog.Sample.Timed.{Timed}
use homelab_server_configs.Watchdog.Recovery.Rounds

abbrev Ended : {A : Type 0} → Option A → Type 0
Ended none = ⊥
Ended (some a) = Unit

module _ (lab : Lab) (time : lab.State → ℕ) (timed : Timed lab time) (initial : String)
    (healthy submit : ℕ) where
  abbrev S : Type 0
  S = Watch lab.State

  abbrev Since : ℕ → Bool → S → Type 0
  Since = Timed.Since lab time timed

  abbrev Keeps : {A : Type 0} → ℕ → Bool → Exec S A → Type 0
  Keeps = Timed.Keeps lab time timed

  abbrev Slept : ℕ → Bool → S → Type 0
  Slept = Rounds.Slept lab time timed initial healthy submit

  abbrev Noted : ℕ → Bool → ℕ → S → Type 0
  Noted = Rounds.Noted lab time timed initial healthy submit

  -- So many rounds are enough from here: one for each five seconds up to the deadline of the
  -- convergence, one more, and one for the wait that ends at the deadline of the availability.
  abbrev Due : ℕ → S → Type 0
  Due fuel s =
      (k : ℕ) × (submit + Timing.convergence ≤ time s.world + k * 5000)
      × ((((s.availability.passed ≡ true) ⊎ (healthy + Timing.availability ≤ time s.world))
            × (k < fuel))
          ⊎ (suc k < fuel))

  module _ (t : ℕ) (p : Bool) (fuel k : ℕ) where
    abbrev Enough : ℕ → Type 0
    Enough n =
        (submit + Timing.convergence ≤ t + k * 5000)
        × ((((p ≡ true) ⊎ (healthy + Timing.availability ≤ t)) × (k < n)) ⊎ (suc k < n))

    -- After a round without a boot.
    unbooted-Due :
        (s : S)
        → Enough (suc fuel)
        → (p ≡ true → s.availability.passed ≡ true)
        → t < submit + Timing.convergence
        → t + 5000 ≤ time s.world
        → Due fuel s
    unbooted-Due s enough passed early slept = (
      k - 1,
      omega arith,
      elim enough.1 [
        | inl (settled, n) ↦
            inl (elim settled [ inl e ↦ inl (passed e) | inr h ↦ inr (omega arith) ], omega arith)
        | inr n ↦ inr (omega arith)
      ],
    )

    -- The availability had passed, or its deadline had, and the round did not fail.
    settled_then :
        (s : S) (f : ℕ)
        → t ≤ f
        → Noted t p f s
        → (p ≡ true) ⊎ (healthy + Timing.availability ≤ t)
        → s.availability.passed ≡ true
    settled_then s f began noted (inl e) = noted.0.1 e
    settled_then s f began noted (inr h) = elim (Bool-cases s.availability.passed) [
      | inl e ↦ e
      | inr e ↦ let early = noted.1 e in absurd (omega arith)
    ]

    advanced :
        (s : S) (f : ℕ)
        → Enough (suc fuel)
        → t ≤ f
        → f < submit + Timing.convergence
        → Noted t p f s
        → submit + Timing.convergence ≤ time s.world + (k - 1) * 5000
        → Due fuel s
    advanced s f enough began early noted far = (
      k - 1,
      far,
      elim enough.1 [
        | inl (settled, n) ↦ inl (inl (settled_then s f began noted settled), omega arith)
        | inr n ↦ inr (omega arith)
      ],
    )

    Slept-Due : (s : S) → Enough (suc fuel) → Slept t p s → Due fuel s
    Slept-Due s enough (f, began, early, noted, inl h) =
        advanced s f enough began early noted (omega arith)
    Slept-Due s enough (f, began, early, noted, inr (inl h)) =
        advanced s f enough began early noted (omega arith)
    Slept-Due s enough (f, began, early, noted, inr (inr (failed, h))) = elim enough.1 [
      | inl (settled, n) ↦ let e = settled_then s f began noted settled in absurd cc
      | inr n ↦ (k, omega arith, inl (inr h, omega arith))
    ]

    -- One round, with what follows it.
    round-Ended :
        Enough (suc fuel)
        → Ensures (Due fuel) (λ o _. Ended o) Any (converge lab initial healthy submit fuel)
        → Ensures (Since t p) (λ o _. Ended o) Any (converge lab initial healthy submit (suc fuel))
    unfolding converge
    round-Ended enough rest = do
      loop ←
          Ensures-mono (λ s h. h) (λ _ s h. (h.2, h.0)) (λ _ s h. tt)
            (Timed.clock-Since lab time timed t p)
      Ensures-given (λ reached. do
        Timed.loose lab time timed t p
            (Rounds.look_for_boot-Since lab time timed initial healthy submit t p)
        Timed.loose lab time timed t p (Timed.gets-Since lab time timed t p _) >>= elim [
          | none ↦ do
            now ←
                Ensures-mono (λ s h. h) (λ _ s h. (h.2, h.0)) (λ _ s h. tt)
                  (Timed.clock-Since lab time timed t p)
            Ensures-given (λ come. do
              Ensures-require _ Any _ _ (λ s h h'. tt)
              Ensures-from (λ s h. ((h.0.1, h.0.0), h.1))
                  (Ensures-given (λ before. do
                    Rounds.sleep_until-After lab time timed initial healthy submit t p
                        (λ s. p ≡ true → s.availability.passed ≡ true) (loop + 5000) (λ s w h. h)
                    Ensures-from (λ s h. unbooted-Due s enough h.0.0 (ground arith) (omega arith))
                        rest)))
          | some boot ↦
              Rounds.observe_round-Rounded lab time timed initial healthy submit t p boot >>= elim [
                | true ↦ Ensures-pure _ _ Any (some boot) (λ s h. tt)
                | false ↦ Ensures-from (λ s h. Slept-Due s enough h) rest
              ]
        ])

  converge-Ended :
      (fuel : ℕ)
      → Ensures (Due fuel) (λ o _. Ended o) Any (converge lab initial healthy submit fuel)
  converge-Ended zero = record {
    at = λ s due. absurd (elim due.2 [ inl (x, n) ↦ omega arith | inr n ↦ omega arith ]);
  }
  converge-Ended (suc fuel) = record {
    at = λ s (k, far, cases).
        (round-Ended (time s.world) s.availability.passed fuel k (far, cases)
            (converge-Ended fuel)).at
          s (omega arith, λ e. e);
  }

  module _ (boot : String) where
    stabilize-Ended :
        (fuel k deadline last : ℕ)
        → deadline ≤ last + k * 60000
        → k < fuel
        → Ensures
            (λ _. Unit)
            (λ o _. Ended o)
            Any
            (stabilize lab initial healthy submit fuel boot deadline last)
    unfolding stabilize
    stabilize-Ended zero k deadline last far n = absurd (omega arith)
    stabilize-Ended (suc fuel) k deadline last far n =
        Ensures-if (leb deadline last) (λ _. Ensures-pure _ _ _ (some last) (λ s h. tt))
          (λ more.
            let until = smaller (last + Timing.cadence) deadline in
            do
              Ensures-mono (λ s h. (tt, omega arith)) (λ _ s h. (h.1, λ e. absurd cc)) (λ _ s h. h)
                  (Rounds.sleep_until-After lab time timed initial healthy submit 0 false
                    (λ _. Unit) until (λ s w h. h))
              observed ←
                  Timed.loose lab time timed until false
                    (Timed.call-Since lab time timed until false _ timed.boot_keeps)
              Timed.loose lab time timed until false
                  (Timed.require-Since lab time timed until false _ _)
              row ←
                  Ensures-mono (λ s h. h) (λ row s h. (tt, h.0)) (λ _ s h. tt)
                    (Timed.recovery_sample-Since lab time timed until false boot)
              Ensures-given (λ after. do
                anything _ _
                first ← anything _ _
                anything _ _
                anything _ _
                stabilize-Ended fuel (k - 1) deadline row.finished (ground arith) (ground arith)))

    finish_observation-Ended :
        (fuel c : ℕ)
        → 30 < fuel
        → Ensures
            (λ _. Unit)
            (λ o _. Ended o)
            Any
            (finish_observation lab initial healthy submit fuel boot c)
    unfolding finish_observation
    finish_observation-Ended fuel c n =
        stabilize-Ended fuel 30 (c + Timing.stability) c (omega arith) n >>= elim [
          | none ↦ record { at = λ s h. absurd h }
          | some last ↦ do anything _ _; anything _ _; Ensures-pure _ _ Any (some boot) (λ s h. tt)
        ]

  finish_found-Ended :
      (fuel : ℕ) (stage : Stage) (found : Option String)
      → 30 < fuel
      → Ensures {S = S} {A = Option String}
          (λ _. Ended found)
          (λ (o : Option String) _. Ended o)
          Any
          (elim found [
            | none ↦ pure none
            | some boot ↦ finish_observation lab initial healthy submit fuel boot stage.finished
          ])
  finish_found-Ended fuel stage none n = record { at = λ s h. absurd h }
  finish_found-Ended fuel stage (some boot) n = finish_observation-Ended boot fuel stage.finished n

  recovery_observation-Ended :
      (fuel : ℕ)
      → 362 ≤ fuel
      → Ensures
          (λ s. submit ≤ time s.world)
          (λ o _. Ended o)
          Any
          (recovery_observation lab initial healthy submit fuel)
  unfolding recovery_observation
  recovery_observation-Ended fuel n = do
    Ensures-modify _ (λ _. Due fuel) Any _ (λ s h. (360, omega arith, inr (omega arith)))
    found ← converge-Ended fuel
    stage ← Ensures-gets _ (λ _ _. Ended found) Any _ (λ s h. h)
    finish_found-Ended fuel stage found (omega arith)

  Post-Ended :
      (r : Outcome (Option String) × S)
      → Post (λ o _. Ended o) Any r
      → ((boot : String) × (r.0 ≡ returned (some boot))) ⊎ ((e : Error) × (r.0 ≡ raised e))
  Post-Ended (returned none, s) h = absurd h
  Post-Ended (returned (some boot), s) h = inl (boot, refl)
  Post-Ended (raised e, s) h = inr (e, refl)

  -- From the grant on, 362 rounds are enough: the observation ends, with a boot or an exception.
  pub recovery_observation-ends :
      (fuel : ℕ) (s : S)
      → 362 ≤ fuel
      → submit ≤ time s.world
      → let o = (recovery_observation lab initial healthy submit fuel s).0 in
        ((boot : String) × (o ≡ returned (some boot))) ⊎ ((e : Error) × (o ≡ raised e))
  recovery_observation-ends fuel s n h =
      Post-Ended (recovery_observation lab initial healthy submit fuel s)
        ((recovery_observation-Ended fuel n).at s h)
