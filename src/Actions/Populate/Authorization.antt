-- ===== src/Actions/Populate/Authorization.antt =====
-- The rows of a registration, and who may merge.
use arguss.Base.{ℕ, ◌≡◌, ◌⊎◌, List, ◌++◌, map, Text, All}
use arguss.Actions.Runs.{ActionRunCandidate, Db}
use arguss.Actions.Populate.{Entry, ActionResult, Populated, ok, integrity_error}
use arguss.Actions.Populate.Tables.{Authorized, Refused, InsertedInto, registered}

module _ (uuid : ℕ → Text) (now : ℕ → ℕ) (run_id : Text) (selected : List Text)
    (es : List Entry) where
  -- The result and the tables, from the tables before: rows were inserted, and either these are the
  -- rows of all actions, or the next one is refused.
  abbrev pub Registered : List ActionResult → List ActionRunCandidate → Db → Populated × Db → Type 0
  Registered actions created db out =
      (rows : List ActionRunCandidate) × All (Authorized selected es) rows
      × InsertedInto db rows out.1
      × (((out.0 ≡ ok (created ++ rows))
            × (map (λ (r : ActionRunCandidate). r.candidate_id) rows ≡ registered es actions))
          ⊎ ((out.0 ≡ integrity_error)
              × (row : ActionRunCandidate) × Authorized selected es row
              × Refused out.1 row))
