-- ===== src/Wizard/Refinement.antt =====
-- The table as what it promises: at most one session for each token, changed by the operations that
-- name the token and by the removal of expired sessions, and by nothing else.
use arguss.Base.{
  ℕ, ◌≡◌, refl, ap, sym, ◌∙◌, subst, arith, Bool, false, not, Option, none, some, List, [], ◌∷◌,
  ◌++◌, if◌then◌else◌, leb, keep, Bool-cases, inl, inr, or-false, or_of_false, Text, text_eq,
  text_eq_iff, is_in, lookup, keys, lookup-keep, if_kept, Distinct, Distinct-append, map-append_one,
}
use arguss.Base.Results.{Result, ok, error}
use arguss.Wizard.{
  Row, Table, SqlError, new_row, with_step, with_selection, with_action, insert_new, insert_row,
  create_session, update_row, update_step, set_selection, set_action_id, delete_session,
  prune_expired_sessions,
}

-- The operations that change the table.
pub data Op : Type 0 where
  create : Text → Text → ℕ → Op
  step : Text → Text → Op
  select : Text → List Text → List Text → Op
  act : Text → Text → Op
  delete : Text → Op
  remove_expired : ℕ → Op

-- An insertion that raises leaves the table as it is.
abbrev pub table_after : Table → Result SqlError Table → Table
table_after table (ok t) = t
table_after table (error e) = table

unfoldable pub run : Op → Table → Table
run (create token scan_hash now) table =
    table_after table (create_session token scan_hash now table)
run (step token new_step) table = update_step token new_step table
run (select token ids auto_merge_ids) table = set_selection token ids auto_merge_ids table
run (act token action_id) table = set_action_id token action_id table
run (delete token) table = delete_session token table
run (remove_expired now) table = (prune_expired_sessions now table).1

unfoldable pub run_all : List Op → Table → Table
unfolding run
run_all [] table = table
run_all (op ∷ ops) table = run_all ops (run op table)

abbrev pub changed : (Row → Row) → Option Row → Option Row
changed f none = none
changed f (some row) = some (f row)

abbrev pub or_new : Row → Option Row → Option Row
or_new row none = some row
or_new row (some r) = some r

-- What an operation does to the session of the token `k`.
abbrev pub effect : Op → Text → Option Row → Option Row
effect (create token scan_hash now) k o =
    if text_eq token k then or_new (new_row scan_hash now) o else o
effect (step token new_step) k o = if text_eq token k then changed (with_step new_step) o else o
effect (select token ids auto_merge_ids) k o =
    if text_eq token k then changed (with_selection ids auto_merge_ids) o else o
effect (act token action_id) k o = if text_eq token k then changed (with_action action_id) o else o
effect (delete token) k o = if text_eq token k then none else o
effect (remove_expired now) k o = if_kept (λ row. not (leb row.expires_at now)) o

abbrev pub effects : List Op → Text → Option Row → Option Row
effects [] k o = o
effects (op ∷ ops) k o = effects ops k (effect op k o)

-- One operation on a table without duplicate tokens.
abbrev Refines : Op → Table → Table → Type 0
Refines op table after =
    ((k : Text) → lookup k after ≡ effect op k (lookup k table)) × Distinct (keys after)

lookup-update_row :
    (f : Row → Row) (token k : Text) (table : Table)
    → lookup k (update_row f token table)
      ≡ (if text_eq token k then changed f (lookup k table) else lookup k table)
unfolding lookup update_row
lookup-update_row f token k [] = elim (Bool-cases (text_eq token k)) [
  | inl y ↦ rw y refl
  | inr n ↦ rw n refl
]
lookup-update_row f token k ((j, row) ∷ table) = ground (
  arith,
  text_eq_iff j k,
  text_eq_iff token k,
  text_eq_iff j token,
  lookup-update_row f token k table,
)

keys-update_row :
    (f : Row → Row) (token : Text) (table : Table) → keys (update_row f token table) ≡ keys table
unfolding update_row
keys-update_row f token [] = refl
keys-update_row f token ((j, row) ∷ table) = ap (λ l. j ∷ l) (keys-update_row f token table)

lookup-append :
    (token k : Text) (row : Row) (table : Table)
    → lookup token table ≡ none
    → lookup k (table ++ ((token, row) ∷ []))
      ≡ (if text_eq token k then or_new row (lookup k table) else lookup k table)
unfolding lookup
lookup-append token k row [] h = refl
lookup-append token k row ((j, r) ∷ table) h = elim (Bool-cases (text_eq j token)) [
  | inl y ↦ cc (rw y at h)
  | inr n ↦ ground (
    arith,
    text_eq_iff j k,
    text_eq_iff token k,
    text_eq_iff j token,
    lookup-append token k row table (rw n at h),
  )
]

update_row-Refines :
    (f : Row → Row) (token : Text) (table : Table)
    → Distinct (keys table)
    → ((k : Text)
        → lookup k (update_row f token table)
          ≡ (if text_eq token k then changed f (lookup k table) else lookup k table))
      × Distinct (keys (update_row f token table))
update_row-Refines f token table d =
    (λ k. lookup-update_row f token k table, subst Distinct (sym (keys-update_row f token table)) d)

Distinct-keep :
    (p : Text × Row → Bool) (table : Table) → Distinct (keys table) → Distinct (keys (keep p table))
Distinct-keep p [] d = d
Distinct-keep p (e ∷ table) d = elim (Bool-cases (p e)) [
  | inl y ↦ rw y (absent table d.0, Distinct-keep p table d.1)
  | inr n ↦ rw n (Distinct-keep p table d.1)
]
  where
    absent : (t : Table) → is_in e.0 (keys t) ≡ false → is_in e.0 (keys (keep p t)) ≡ false
    absent [] h = h
    absent (x ∷ t) h =
        let (u, v) = or-false _ _ h in
        elim (Bool-cases (p x)) [
          | inl y ↦ rw y (or_of_false _ _ u (absent t v))
          | inr n ↦ rw n (absent t v)
        ]

lookup-delete :
    (token k : Text) (table : Table)
    → lookup k (keep (λ e. not (text_eq e.0 token)) table)
      ≡ (if text_eq token k then none else lookup k table)
unfolding lookup
lookup-delete token k [] = elim (Bool-cases (text_eq token k)) [
  | inl y ↦ rw y refl
  | inr n ↦ rw n refl
]
lookup-delete token k ((j, row) ∷ table) =
    ground (
      arith,
      text_eq_iff j k,
      text_eq_iff token k,
      text_eq_iff j token,
      lookup-delete token k table,
    )

absent_of_lookup :
    (token : Text) (table : Table) → lookup token table ≡ none → is_in token (keys table) ≡ false
unfolding lookup
absent_of_lookup token [] h = refl
absent_of_lookup token ((j, row) ∷ table) h = elim (Bool-cases (text_eq j token)) [
  | inl y ↦ cc (rw y at h)
  | inr n ↦
      ground
        (arith, text_eq_iff j token, text_eq_iff token j, absent_of_lookup token table (rw n at h))
]

create-Refines :
    (token scan_hash : Text) (now : ℕ) (table : Table)
    → Distinct (keys table)
    → Refines
        (create token scan_hash now)
        table
        (table_after table (create_session token scan_hash now table))
unfolding create_session insert_row insert_new
create-Refines token scan_hash now table d = by_row (lookup token table) refl
  where
    row : Row
    row = new_row scan_hash now

    unchanged :
        (k : Text) (r : Row)
        → lookup token table ≡ some r
        → lookup k table ≡ (if text_eq token k then or_new row (lookup k table) else lookup k table)
    unchanged k r e = elim (Bool-cases (text_eq token k)) [
      | inl y ↦
          let same : lookup k table ≡ some r =
            subst (λ t. lookup t table ≡ some r) ((text_eq_iff token k).0 y) e in
          rw (y, same) refl
      | inr n ↦ rw n refl
    ]

    by_row :
        (o : Option Row)
        → lookup token table ≡ o
        → Refines
            (create token scan_hash now)
            table
            (table_after table (insert_new token row table o))
    by_row none e = (
      λ k. lookup-append token k row table e,
      subst Distinct (sym (map-append_one (λ (x : Text × Row). x.0) table (token, row)))
          (Distinct-append (keys table) token d (absent_of_lookup token table e)),
    )
    by_row (some r) e = (λ k. unchanged k r e, d)

run-Refines : (op : Op) (table : Table) → Distinct (keys table) → Refines op table (run op table)
unfolding run update_step set_selection set_action_id delete_session prune_expired_sessions
run-Refines (create token scan_hash now) table d = create-Refines token scan_hash now table d
run-Refines (step token new_step) table d = update_row-Refines _ token table d
run-Refines (select token ids auto_merge_ids) table d = update_row-Refines _ token table d
run-Refines (act token action_id) table d = update_row-Refines _ token table d
run-Refines (delete token) table d = (λ k. lookup-delete token k table, Distinct-keep _ table d)
run-Refines (remove_expired now) table d = (
  λ k. lookup-keep (λ (row : Row). not (leb row.expires_at now)) k table d,
  Distinct-keep _ table d,
)

run_all-effects :
    (ops : List Op) (k : Text) (table : Table)
    → Distinct (keys table)
    → lookup k (run_all ops table) ≡ effects ops k (lookup k table)
unfolding run_all
run_all-effects [] k table d = refl
run_all-effects (op ∷ ops) k table d =
    let (e, d2) = run-Refines op table d in
    run_all-effects ops k (run op table) d2 ∙ ap (effects ops k) (e k)

-- After any operations on an empty table, in any order and with any arguments, the table holds under
-- a token what the operations, taken one after the other, make of the session of that token alone: created unless there
-- is one, changed by the three updates that name the token, and removed by its deletion or by a removal of expired sessions after its expiry.
pub histories-effects : (ops : List Op) (k : Text) → lookup k (run_all ops []) ≡ effects ops k none
unfolding lookup
histories-effects ops k = run_all-effects ops k [] tt
