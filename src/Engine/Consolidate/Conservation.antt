-- ===== src/Engine/Consolidate/Conservation.antt =====
-- Consolidation loses no finding: every finding id of the input stands in some output candidate.
use arguss.Base.{
  sorted_set-Member, ◌≤◌, refl, sym, subst, List, [], ◌∷◌, ◌++◌, arith, Text, length, Member,
  Member-append_left, Member-append_right, Member-sorted, sorted, inl, inr, if_both,
}
use arguss.Models.{Finding, FixCandidate}
use arguss.Engine.Consolidate.{
  GroupKey, Group, key_eq, add_to_group, group_key, group_all, best_of, all_finding_ids, first_id,
  findings_for_candidates, max_target_satisfies_all, base_of, merged_candidate, consolidate_group,
  consolidate_groups, consolidate_candidates, group_le,
}

-- Some candidate of a list carries the finding.
abbrev pub Carried : Text → List FixCandidate → Type 0
Carried fid outs = (c : FixCandidate) × Member c outs × Member fid c.source_finding_ids

all_ids-Member :
    (c : FixCandidate) (fid : Text) (cs : List FixCandidate)
    → Member c cs
    → Member fid c.source_finding_ids
    → Member fid (all_finding_ids cs)
all_ids-Member c fid [] m k = absurd m
all_ids-Member c fid (d ∷ cs) (inl e) k =
    Member-append_left d.source_finding_ids (all_finding_ids cs) fid
      (subst (λ x. Member fid x.source_finding_ids) e k)
all_ids-Member c fid (d ∷ cs) (inr m) k =
    Member-append_right d.source_finding_ids (all_finding_ids cs) fid (all_ids-Member c fid cs m k)

first_of_one :
    (ids : List Text) (fid : Text) → length ids ≤ 1 → Member fid ids → Member fid (first_id ids)
unfolding first_id
first_of_one [] fid h m = m
first_of_one (i ∷ []) fid h m = m
first_of_one (i ∷ j ∷ is) fid h m = absurd (omega arith)

-- A group keeps the findings of each of its candidates that has at most one.
group-Carried :
    (findings : List Finding) (key : GroupKey) (cs : List FixCandidate) (c : FixCandidate)
    (fid : Text)
    → Member c cs
    → length c.source_finding_ids ≤ 1
    → Member fid c.source_finding_ids
    → Carried fid (consolidate_group findings (key, cs))
unfolding consolidate_group merged_candidate
group-Carried findings key [] c fid m h k = absurd m
group-Carried findings key (d ∷ []) c fid (inl e) h k = (
  record d { source_finding_ids = first_id d.source_finding_ids },
  inl refl,
  first_of_one d.source_finding_ids fid
      (subst (λ (x : FixCandidate). length x.source_finding_ids ≤ 1) e h)
      (subst (λ x. Member fid x.source_finding_ids) e k),
)
group-Carried findings key (d ∷ []) c fid (inr z) h k = absurd z
group-Carried findings key (d ∷ e ∷ cs) c fid m h k =
    let group = d ∷ e ∷ cs in
    let best = best_of d (e ∷ cs) in
    let one = merged_candidate key (base_of best.to_version best group) best.to_version group in
    if_both (Carried fid)
      (max_target_satisfies_all (findings_for_candidates group findings) d.from_version
        best.to_version)
      (one ∷ []) group
      (
        one,
        inl refl,
        sorted_set-Member fid (all_finding_ids group) (all_ids-Member c fid group m k),
      )
      (c, m, k)

-- Some group holds the candidate.
abbrev Grouped : FixCandidate → List Group → Type 0
Grouped c groups = (g : Group) × Member g groups × Member c g.1

later :
    (c : FixCandidate) (g : Group) (groups : List Group) → Grouped c groups → Grouped c (g ∷ groups)
later c g groups (h, m, k) = (h, inr m, k)

add-Grouped_self :
    (key : GroupKey) (c : FixCandidate) (groups : List Group)
    → Grouped c (add_to_group key c groups)
unfolding add_to_group
add-Grouped_self key c [] = ((key, c ∷ []), inl refl, inl refl)
add-Grouped_self key c ((k, cs) ∷ rest) =
    if_both (Grouped c) (key_eq k key) _ _
      ((k, cs ++ c ∷ []), inl refl, Member-append_right cs (c ∷ []) c (inl refl))
      (later c (k, cs) _ (add-Grouped_self key c rest))

add-Grouped :
    (key : GroupKey) (d c : FixCandidate) (groups : List Group)
    → Grouped c groups
    → Grouped c (add_to_group key d groups)
unfolding add_to_group
add-Grouped key d c [] (g, m, k) = absurd m
add-Grouped key d c ((k, cs) ∷ rest) (g, inl e, n) =
    let here : Member c cs = subst (λ (x : Group). Member c x.1) e n in
    if_both (Grouped c) (key_eq k key) _ _
      ((k, cs ++ d ∷ []), inl refl, Member-append_left cs (d ∷ []) c here) ((k, cs), inl refl, here)
add-Grouped key d c ((k, cs) ∷ rest) (g, inr m, n) =
    if_both (Grouped c) (key_eq k key) _ _ (later c _ rest (g, m, n))
      (later c (k, cs) _ (add-Grouped key d c rest (g, m, n)))

group_all-keeps :
    (findings : List Finding) (cs : List FixCandidate) (groups : List Group) (c : FixCandidate)
    → Grouped c groups
    → Grouped c (group_all findings cs groups)
unfolding group_all
group_all-keeps findings [] groups c h = h
group_all-keeps findings (d ∷ cs) groups c h =
    group_all-keeps findings cs (add_to_group (group_key findings d) d groups) c
      (add-Grouped (group_key findings d) d c groups h)

group_all-Grouped :
    (findings : List Finding) (cs : List FixCandidate) (groups : List Group) (c : FixCandidate)
    → Member c cs
    → Grouped c (group_all findings cs groups)
unfolding group_all
group_all-Grouped findings [] groups c m = absurd m
group_all-Grouped findings (d ∷ cs) groups c (inl e) =
    group_all-keeps findings cs (add_to_group (group_key findings d) d groups) c (
      subst (λ x. Grouped x (add_to_group (group_key findings d) d groups)) (sym e)
        (add-Grouped_self (group_key findings d) d groups))
group_all-Grouped findings (d ∷ cs) groups c (inr m) =
    group_all-Grouped findings cs (add_to_group (group_key findings d) d groups) c m

groups-Carried :
    (findings : List Finding) (groups : List Group) (c : FixCandidate) (fid : Text)
    → Grouped c groups
    → length c.source_finding_ids ≤ 1
    → Member fid c.source_finding_ids
    → Carried fid (consolidate_groups findings groups)
unfolding consolidate_groups
groups-Carried findings [] c fid (g, m, n) h k = absurd m
groups-Carried findings ((key, cs) ∷ gs) c fid (g, inl e, n) h k =
    let r = group-Carried findings key cs c fid (subst (λ (x : Group). Member c x.1) e n) h k in
    (r.0, Member-append_left (consolidate_group findings (key, cs)) _ r.0 r.1, r.2)
groups-Carried findings (g' ∷ gs) c fid (g, inr m, n) h k =
    let r = groups-Carried findings gs c fid (g, m, n) h k in
    (r.0, Member-append_right (consolidate_group findings g') _ r.0 r.1, r.2)

-- Every finding id of a candidate that has one finding, as discovery makes them, stands in some
-- candidate of the output.
pub consolidate-Carried :
    (candidates : List FixCandidate) (findings : List Finding) (c : FixCandidate) (fid : Text)
    → Member c candidates
    → length c.source_finding_ids ≤ 1
    → Member fid c.source_finding_ids
    → Carried fid (consolidate_candidates candidates findings)
unfolding consolidate_candidates
consolidate-Carried candidates findings c fid m h k =
    let g = group_all-Grouped findings candidates [] c m in
    groups-Carried findings (sorted group_le (group_all findings candidates [])) c fid
      (g.0, Member-sorted group_le (group_all findings candidates []) g.0 g.1, g.2) h k
