-- ===== src/Actions/Populate/Tables.antt =====
-- What a registration is measured by: the rows that may be written, those that the database refuses,
-- and the declined candidates.
use arguss.Base.{
  ◌≡◌, ◌⊎◌, ◌↔◌, inl, inr, refl, subst, Bool, true, false, not, ◌&&◌, Option, none, some, List, [],
  ◌∷◌, arith, if◌then◌else◌, Text, is_in, any, Bool-cases, Member, text_eq, text_eq_iff, or_of_true,
  is_some,
}
use arguss.Models.{FixTier, auto_merge, review_required, decline}
use arguss.Actions.Runs.{ActionRunCandidate, RunRow, Db, pr_opened, pr_only, engine, human_override}
use arguss.Actions.Populate.{
  Entry, ActionResult, ActionStatus, opened, already_exists, failed, skipped, entry_by_id,
  any_declined, declined_entry, is_decline, clashes, is_refused, with_row,
}

-- A row for a selected candidate: armed, by the authority that its tier gives.
abbrev pub Armed : FixTier → ActionRunCandidate → Type 0
Armed auto_merge r = (r.state ≡ pr_opened) × (r.merge_authorization ≡ some engine)
Armed review_required r = (r.state ≡ pr_opened) × (r.merge_authorization ≡ some human_override)
Armed decline r = ⊥

-- A row for any other: terminal from the start, and with no authority.
abbrev pub Unarmed : ActionRunCandidate → Type 0
Unarmed r = (r.state ≡ pr_only) × (r.merge_authorization ≡ none)

abbrev pub Authorized : List Text → List Entry → ActionRunCandidate → Type 0
Authorized selected es r =
    (e : Entry) × (entry_by_id r.candidate_id es ≡ some e)
    × (if is_in r.candidate_id selected then Armed e.verdict.tier r else Unarmed r)

-- A selected candidate whose entry has the tier DECLINE.
abbrev pub DeclinedAmong : List Text → List Entry → Type 0
DeclinedAmong selected es =
    (id : Text) × (e : Entry) × Member id selected
    × (entry_by_id id es ≡ some e)
    × (e.verdict.tier ≡ decline)

-- The database refuses a row: its run is missing, or a row has its id, or its run and candidate.
abbrev pub Refused : Db → ActionRunCandidate → Type 0
Refused db row =
    (¬ ((r : RunRow) × Member r db.runs × (r.id ≡ row.action_run_id)))
    ⊎ ((r : ActionRunCandidate) × Member r db.candidates
        × ((r.id ≡ row.id)
            ⊎ ((r.action_run_id ≡ row.action_run_id) × (r.candidate_id ≡ row.candidate_id))))

-- The tables after rows that are inserted one after the other, none of which is refused.
abbrev pub InsertedInto : Db → List ActionRunCandidate → Db → Type 0
InsertedInto db [] after = after ≡ db
InsertedInto db (row ∷ rows) after = (¬ Refused db row) × InsertedInto (with_row row db) rows after

-- The actions that get a row: those with an open pull request and an entry.
abbrev pub has_pull_request : ActionStatus → Bool
has_pull_request opened = true
has_pull_request already_exists = true
has_pull_request failed = false
has_pull_request skipped = false

abbrev pub registered : List Entry → List ActionResult → List Text
registered es [] = []
registered es (a ∷ as') =
    if has_pull_request a.status && is_some (entry_by_id a.candidate_id es)
    then a.candidate_id ∷ registered es as'
    else registered es as'

tier_cases : (t : FixTier) → is_decline t ≡ true → t ≡ decline
tier_cases decline h = refl
tier_cases auto_merge h = cc
tier_cases review_required h = cc

pub any_declined-DeclinedAmong :
    (ids : List Text) (es : List Entry) → any_declined ids es ≡ true → DeclinedAmong ids es
unfolding any_declined
any_declined-DeclinedAmong [] es h = cc
any_declined-DeclinedAmong (i ∷ ids) es h = elim (Bool-cases (declined_entry (entry_by_id i es))) [
  | inl y ↦ let (e, p, q) = of_entry (entry_by_id i es) y in (i, e, inl refl, p, q)
  | inr n ↦
      let (id, e, m, p, q) = any_declined-DeclinedAmong ids es (rw n at h) in (id, e, inr m, p, q)
]
  where
    of_entry :
        (o : Option Entry)
        → declined_entry o ≡ true
        → (e : Entry) × (o ≡ some e) × (e.verdict.tier ≡ decline)
    of_entry none h = cc
    of_entry (some e) h = (e, refl, tier_cases e.verdict.tier h)

pub DeclinedAmong-any_declined :
    (ids : List Text) (es : List Entry) (id : Text) (e : Entry)
    → Member id ids
    → entry_by_id id es ≡ some e
    → e.verdict.tier ≡ decline
    → any_declined ids es ≡ true
unfolding any_declined declined_entry
DeclinedAmong-any_declined [] es id e m p q = absurd m
DeclinedAmong-any_declined (i ∷ ids) es id e (inl s) p q =
    rw (subst (λ j. entry_by_id j es ≡ some e) s p, q) refl
DeclinedAmong-any_declined (i ∷ ids) es id e (inr m) p q =
    or_of_true (declined_entry (entry_by_id i es)) _ (DeclinedAmong-any_declined ids es id e m p q)

any-Member :
    {A : Type 0} (p : A → Bool) (xs : List A)
    → any p xs ≡ true
    → (x : A) × Member x xs × (p x ≡ true)
any-Member p [] h = cc
any-Member p (x ∷ xs) h = elim (Bool-cases (p x)) [
  | inl y ↦ (x, inl refl, y)
  | inr n ↦ let (z, m, q) = any-Member p xs (rw n at h) in (z, inr m, q)
]

Member-any :
    {A : Type 0} (p : A → Bool) (xs : List A) (x : A) → Member x xs → p x ≡ true → any p xs ≡ true
Member-any p [] x m h = absurd m
Member-any p (y ∷ xs) x (inl e) h = rw (← e, h) refl
Member-any p (y ∷ xs) x (inr m) h = or_of_true (p y) _ (Member-any p xs x m h)

has_run : ActionRunCandidate → RunRow → Bool
has_run row r = text_eq r.id row.action_run_id

SameRow : ActionRunCandidate → ActionRunCandidate → Type 0
SameRow row r =
    (r.id ≡ row.id) ⊎ ((r.action_run_id ≡ row.action_run_id) × (r.candidate_id ≡ row.candidate_id))

clash_iff : (row r : ActionRunCandidate) → (clashes row r ≡ true) ↔ SameRow row r
unfolding SameRow
clash_iff row r =
    let i = text_eq_iff r.id row.id in
    let j = text_eq_iff r.action_run_id row.action_run_id in
    let k = text_eq_iff r.candidate_id row.candidate_id in
    (
      λ h. elim (Bool-cases (text_eq r.id row.id)) [
        | inl y ↦ inl (i.0 y)
        | inr n ↦ inr (j.0 (ground (arith, h, n)), k.0 (ground (arith, h, n)))
      ],
      λ s. elim s [
        | inl e ↦ rw (i.1 e) refl
        | inr (e, f) ↦ or_of_true (text_eq r.id row.id) _ (rw (j.1 e, k.1 f) refl)
      ],
    )

pub is_refused_lem :
    (db : Db) (row : ActionRunCandidate) → (is_refused row db ≡ true) ↔ Refused db row
unfolding is_refused SameRow has_run
is_refused_lem db row = (
  λ h. elim (Bool-cases (any (has_run row) db.runs)) [
    | inr n ↦ inl (λ (r, m, e).
        let y = Member-any (has_run row) db.runs r m ((text_eq_iff r.id row.action_run_id).1 e) in
        cc (y, n))
    | inl y ↦
        let (r, m, c) = any-Member (clashes row) db.candidates (rw y at h) in
        inr (r, m, (clash_iff row r).0 c)
  ],
  λ s. elim s [
    | inl missing ↦ elim (Bool-cases (any (has_run row) db.runs)) [
      | inl y ↦
          let (r, m, c) = any-Member (has_run row) db.runs y in
          absurd (missing (r, m, (text_eq_iff r.id row.action_run_id).0 c))
      | inr n ↦ rw n refl
    ]
    | inr (r, m, c) ↦
        or_of_true (not (any (has_run row) db.runs)) _
          (Member-any (clashes row) db.candidates r m ((clash_iff row r).1 c))
  ],
)
