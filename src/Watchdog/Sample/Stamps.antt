-- ===== src/Watchdog/Sample/Stamps.antt =====
-- What one more sample makes of the first sample and of the stamps.
use homelab_server_configs.Prelude.{
  ℕ, String, true, Option, none, some, List, [], ◌∷◌, ◌≡◌, refl, sym, ◌∙◌, Bool, ◌&&◌, Bool-cases,
  ◌⊎◌, inl, inr, arith, &&-parts, if◌then◌else◌,
}
use homelab_server_configs.Prelude.Exec.{returned}
use homelab_server_configs.Watchdog.Checks.{Native, Row, native_or}
use homelab_server_configs.Watchdog.Checks.Passed.{stable_service-Same}
use homelab_server_configs.Watchdog.Sample.Good.{Stamped, Built, Compared, Built-Good}
use homelab_server_configs.Watchdog.Sample.{first_or, stable_since}

abbrev pub FirstIs : Option Native → Option String → Type 0
FirstIs none boot = Unit
FirstIs (some f) boot = boot ≡ some f.boot

pub FirstIs-none :
    (first : Option Native) (b : Option String) → FirstIs first none → FirstIs first b
FirstIs-none none b h = tt
FirstIs-none (some f) b h = absurd cc

pub first_or-Stamped :
    (native : Native) (first : Option Native) (stamps : List ℕ) (rows : List Row)
    → Stamped first stamps rows
    → Stamped (first_or native first) stamps rows
first_or-Stamped native (some f) stamps rows h = h
first_or-Stamped native none [] rows h = tt
first_or-Stamped native none (t ∷ stamps) rows h = absurd h

pub first_or-FirstIs :
    (native : Native) (first : Option Native) (b : Option String)
    → b ≡ some native.boot
    → FirstIs first b
    → FirstIs (first_or native first) b
first_or-FirstIs native (some f) b e h = h
first_or-FirstIs native none b e h = e

pub first_or-some :
    (native : Native) (first : Option Native) → (f : Native) × (first_or native first ≡ some f)
first_or-some native none = (native, refl)
first_or-some native (some f) = (f, refl)

pub stable_since-Compared :
    (first : Option Native) (f n : Native)
    → first ≡ some f
    → stable_since first n ≡ returned tt
    → Compared first (some n)
stable_since-Compared none f n e h = absurd cc
stable_since-Compared (some g) f n e h = stable_service-Same g n h

-- A precise sample was compared, so there is a first one.
pub Compared-first :
    (first o : Option Native) (b c : Bool)
    → (b && native_or (λ n. n.precision) o && c) ≡ true
    → Compared first o
    → (f : Native) × (first ≡ some f)
Compared-first (some f) o b c h k = (f, refl)
Compared-first none (some n) b c h k = absurd k
Compared-first none none b c h k = absurd (ground arith)

-- The stamps after a sample, over the samples with it.
pub Stamped-next :
    (row : Row) (first : Option Native) (stamps : List ℕ) (rest : List Row)
    → Built row
    → Compared first row.native
    → Stamped first stamps rest
    → let next = if row.precision && row.available then row.finished ∷ stamps else [] in
      Stamped first next (row ∷ rest)
      × ((next ≡ [])
          ⊎ ((row.available ≡ true)
              × (next ≡ row.finished ∷ stamps)
              × ((f : Native) × (first ≡ some f))))
Stamped-next row (some f) stamps rest built same old =
    elim (Bool-cases (row.precision && row.available)) [
      | inl good ↦
          let (precise, available) = &&-parts row.precision row.available good in
          rw good
            ((Built-Good f row built available precise same, old), inr (available, refl, (f, refl)))
      | inr bad ↦ rw bad (tt, inl refl)
    ]
Stamped-next row none stamps rest built same old =
    elim (Bool-cases (row.precision && row.available)) [
      | inl good ↦
          let precise = &&-parts row.precision row.available good in
          let (f, e) =
            Compared-first none row.native row.bounded _ (sym built.1 ∙ precise.0) same in
          absurd cc
      | inr bad ↦ rw bad (tt, inl refl)
    ]
