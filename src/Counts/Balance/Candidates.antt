-- ===== src/Counts/Balance/Candidates.antt =====
-- The map from candidates to findings, where candidates have different ids.
use arguss.Base.{
  ◌≡◌, refl, ap, sym, ◌∙◌, subst, arith, false, List, [], ◌∷◌, ◌++◌, map, if◌then◌else◌, is_empty,
  is_in, Text, text_eq, text_eq_iff, Dict, insert, keys, Distinct, map-append_one, or-false,
  or_of_false,
}
use mathlib.Core.List.{append_assoc, append-nil}
use arguss.Counts.{ProposalEntry, related_ids}
use arguss.Counts.Build.{
  Message, candidate_empty_related, candidate_finding_map, empty_related, ids_with_fix, mapped_ids,
}

abbrev pub idents : List ProposalEntry → List Text
idents = map (λ e. e.candidate_ident)

abbrev pairs : List ProposalEntry → Dict (List Text)
pairs = map (λ e. (e.candidate_ident, related_ids e.related_findings))

insert-absent :
    (k : Text) (v : List Text) (d : Dict (List Text))
    → is_in k (keys d) ≡ false
    → insert k v d ≡ d ++ ((k, v) ∷ [])
unfolding insert
insert-absent k v [] h = refl
insert-absent k v ((j, w) ∷ d) h =
    let r = or-false (text_eq k j) (is_in k (keys d)) h in
    let n : text_eq j k ≡ false = ground (arith, r.0, text_eq_iff k j, text_eq_iff j k) in
    rw n (ap (λ l. (j, w) ∷ l) (insert-absent k v d r.1))

not_middle :
    (x k : Text) (xs ys : List Text) → is_in x (xs ++ (k ∷ ys)) ≡ false → text_eq x k ≡ false
not_middle x k [] ys h = (or-false _ _ h).0
not_middle x k (y ∷ xs) ys h = not_middle x k xs ys (or-false _ _ h).1

absent_before :
    (xs : List Text) (k : Text) (ys : List Text) → Distinct (xs ++ (k ∷ ys)) → is_in k xs ≡ false
absent_before [] k ys d = refl
absent_before (x ∷ xs) k ys d =
    let n : text_eq x k ≡ false = not_middle x k xs ys d.0 in
    or_of_false _ _ (ground (arith, text_eq_iff x k, text_eq_iff k x)) (absent_before xs k ys d.1)

map_lem :
    (es : List ProposalEntry) (d : Dict (List Text))
    → Distinct (keys d ++ idents es)
    → candidate_finding_map es d ≡ d ++ pairs es
unfolding candidate_finding_map
map_lem [] d h = sym (append-nil d)
map_lem (e ∷ es) d h =
    let entry : Text × List Text = (e.candidate_ident, related_ids e.related_findings) in
    let q =
      insert-absent e.candidate_ident (related_ids e.related_findings) d
        (absent_before (keys d) e.candidate_ident (idents es) h) in
    ap (candidate_finding_map es) q
    ∙ (map_lem es (d ++ (entry ∷ [])) (
          subst Distinct
            (sym (
              ap (λ l. l ++ idents es) (map-append_one (λ (x : Text × List Text). x.0) d entry)
              ∙ append_assoc (keys d) (e.candidate_ident ∷ []) (idents es)))
            h)
        ∙ append_assoc d (entry ∷ []) (pairs es))

-- The messages on candidates without findings.
abbrev pub empty_entries : List ProposalEntry → List Message → List Message
empty_entries [] rest = rest
empty_entries (e ∷ es) rest =
    if is_empty (related_ids e.related_findings)
    then candidate_empty_related e.candidate_ident ∷ empty_entries es rest
    else empty_entries es rest

pairs-empties :
    (es : List ProposalEntry) (rest : List Message)
    → empty_related (pairs es) rest ≡ empty_entries es rest
unfolding empty_related
pairs-empties [] rest = refl
pairs-empties (e ∷ es) rest =
    ap
      (λ l.
        if is_empty (related_ids e.related_findings)
        then candidate_empty_related e.candidate_ident ∷ l
        else l)
      (pairs-empties es rest)

pairs-ids : (es : List ProposalEntry) → mapped_ids (pairs es) ≡ ids_with_fix es
unfolding mapped_ids ids_with_fix
pairs-ids [] = refl
pairs-ids (e ∷ es) = ap (λ l. related_ids e.related_findings ++ l) (pairs-ids es)

pub candidate_finding_map-empties :
    (es : List ProposalEntry) (rest : List Message)
    → Distinct (idents es)
    → empty_related (candidate_finding_map es []) rest ≡ empty_entries es rest
candidate_finding_map-empties es rest h =
    ap (λ d. empty_related d rest) (map_lem es [] h) ∙ pairs-empties es rest

pub candidate_finding_map-ids :
    (es : List ProposalEntry)
    → Distinct (idents es)
    → mapped_ids (candidate_finding_map es []) ≡ ids_with_fix es
candidate_finding_map-ids es h = ap mapped_ids (map_lem es [] h) ∙ pairs-ids es
