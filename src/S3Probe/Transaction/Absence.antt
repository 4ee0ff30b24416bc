-- ===== src/S3Probe/Transaction/Absence.antt =====
-- What the probe's result and its evidence say of the object that was put.
use homelab_server_configs.Prelude.{String, true, false, not, List, [], ◌∷◌, ◌≡◌}
use homelab_server_configs.Prelude.Exec.{Outcome, returned, raised, Exec, ◌>>◌}
use homelab_server_configs.S3Probe.Recorder.{
  head, Request, Response, Event, sent, saved, World, Run,
}
use homelab_server_configs.S3Probe.Listing.{list_keys}
use homelab_server_configs.S3Probe.Transaction
use homelab_server_configs.S3Probe.Transaction.{
  Library, object_request, list_request, put_object, read_back, delete_object, cleanup_delete,
}

-- The requests of a trace with what came back, the newest first.
abbrev pub exchanges : List Event → List (Request × Outcome Response)
exchanges [] = []
exchanges (sent r o ∷ es) = (r, o) ∷ exchanges es
exchanges (saved d o ∷ es) = exchanges es

-- The newest exchange is a HEAD of the object that was answered by 404.
abbrev pub HeadAbsent : String → List (Request × Outcome Response) → Type 0
HeadAbsent run_id ((r, returned a) ∷ rest) = (r ≡ object_request head run_id) × (a.status ≡ 404)
HeadAbsent run_id ((r, raised e) ∷ rest) = ⊥
HeadAbsent run_id [] = ⊥

-- The newest exchange is a listing of the prefix that holds no key, and before it came such a HEAD.
abbrev pub ShowsAbsence : Library → String → List (Request × Outcome Response) → Type 0
ShowsAbsence lib run_id ((r, returned a) ∷ rest) =
    (r ≡ list_request run_id) × (list_keys lib.parse_xml a ≡ returned []) × HeadAbsent run_id rest
ShowsAbsence lib run_id ((r, raised e) ∷ rest) = ⊥
ShowsAbsence lib run_id [] = ⊥

module _ (env : World) (lib : Library) (run_id : String) where
  abbrev S : Type 0
  S = Run env.State

  abbrev Any : {A : Type 0} → A → S → Type 0
  Any _ s = Unit

  abbrev UnitAt : S → Type 0
  UnitAt s = Unit

  -- The result in the evidence is the one returned, residue is possible exactly when absence was
  -- not proven, and absence is proven after a PUT only by a HEAD and a listing.
  record Told (result : String) (s : S) : Type 0 where
    same : s.document.result ≡ result
    residue : s.document.residue_possible ≡ not s.document.absence_proven
    shown :
        s.put_attempted ≡ true
        → s.document.absence_proven ≡ true
        → ShowsAbsence lib run_id (exchanges s.events)
    unproven : s.document.absence_proven ≡ false → result ≡ "manual_intervention"

  abbrev Head404 : S → Type 0
  Head404 s = HeadAbsent run_id (exchanges s.events)

  abbrev Absent : S → Type 0
  Absent s = ShowsAbsence lib run_id (exchanges s.events)
