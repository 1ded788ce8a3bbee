-- ===== src/Lenses/Trust.antt =====
-- arguss/lenses/trust.py: the trust lens. The registry's answers are its arguments: the publish
-- times of a packument, already parsed (`none` where the value is no text or no time), and the
-- snapshots of two versions.
pub mod Distance
pub mod Delta
pub mod Subscore
use arguss.Base.{
  ℕ, zero, suc, ◌+◌, ◌-◌, ◌*◌, ◌/◌, ◌%◌, min, Bool, true, false, ◌&&◌, ◌||◌, not, Option, none,
  some, List, [], ◌∷◌, ◌==◌, ltb, leb, if◌then◌else◌, length, drop, Text, codes, text_eq, text_le,
  is_in, sorted, sorted_set, set_minus, set_both, is_empty,
}
use arguss.Base.Int.{ℤ, pos, negsuc}
use arguss.Models.{
  TrustFlag, ownership_transfer, new_maintainer, cadence_anomaly, download_collapse, Change,
  TrustDelta, TrustSnapshot, Severity, high, medium, low,
}

abbrev pub day : ℕ
day = 86_400 * 1_000_000_000

-- A publish time and the version that was published.
abbrev pub Published : Type 0
Published = ℕ × Text

event_le : Published → Published → Bool
event_le (s, v) (t, w) = if s == t then text_le v w else leb s t

parsed_events : List (Text × Option ℕ) → List Published
parsed_events [] = []
parsed_events ((key, none) ∷ rest) = parsed_events rest
parsed_events ((key, some t) ∷ rest) =
    let others = parsed_events rest in
    if is_in key (codes "created" ∷ codes "modified" ∷ codes "unpublished" ∷ [])
    then others
    else (t, key) ∷ others

unfoldable pub published_events : List (Text × Option ℕ) → List Published
unfolding parsed_events event_le
published_events times = sorted event_le (parsed_events times)

-- next((i for i, (_, vk) in enumerate(events) if vk == version), None), with the time there and
-- that of the event before.
unfoldable pub find_event : Text → Option ℕ → ℕ → List Published → Option (ℕ × ℕ × Option ℕ)
find_event version previous i [] = none
find_event version previous i ((t, v) ∷ rest) =
    let later = find_event version (some t) (i + 1) rest in
    if text_eq v version then some (i, t, previous) else later

-- The whole days from an earlier event to a later one.
abbrev pub days_between : ℕ → ℕ → ℕ
days_between earlier later = (later - earlier) / day

-- gaps_before, from the first `n + 1` events.
gaps : ℕ → List Published → List ℕ
gaps n [] = []
gaps n (e ∷ []) = []
gaps zero (e ∷ f ∷ rest) = []
gaps (suc n) (e ∷ f ∷ rest) = days_between e.0 f.0 ∷ gaps n (f ∷ rest)

-- The last ten.
abbrev last_ten : List ℕ → List ℕ
last_ten gs = drop (length gs - 10) gs

nth : List ℕ → ℕ → ℕ
nth [] n = 0
nth (g ∷ gs) zero = g
nth (g ∷ gs) (suc n) = nth gs n

-- Twice statistics.median(gs): the middle of the sorted list, or the sum of the middle two.
twice_median : List ℕ → ℕ
unfolding nth
twice_median gs =
    let s = sorted leb gs in
    let n = length gs in if n % 2 == 1 then 2 * nth s (n / 2) else nth s (n / 2 - 1) + nth s (n / 2)

-- new_gap_days < 0.3 * med, without fractions.
is_sudden : ℕ → List ℕ → Bool
unfolding twice_median
is_sudden gap [] = false
is_sudden gap (g ∷ gs) =
    let med2 = twice_median (g ∷ gs) in if med2 == 0 then false else ltb (20 * gap) (3 * med2)

anomaly_between : List Published → Option (ℕ × ℕ × Option ℕ) → Option (ℕ × ℕ × Option ℕ) → Bool
unfolding gaps is_sudden
anomaly_between events none to = false
anomaly_between events (some from) none = false
anomaly_between events (some (i, s, p)) (some (j, t, q)) =
    if leb j i
    then false
    else if ltb j 5
    then false
    else if leb 7 (days_between s t)
    then false
    else is_sudden (days_between s t) (last_ten (gaps i events))

unfoldable pub is_cadence_anomaly : List Published → Text → Text → Bool
unfolding anomaly_between find_event
is_cadence_anomaly events from_version to_version =
    anomaly_between events (find_event from_version none 0 events)
      (find_event to_version none 0 events)

change_between : Option ℕ → Option ℕ → Option Change
change_between none to = none
change_between (some before) none = none
change_between (some before) (some after) =
    if before == 0 && ltb 0 after then none else some (record { before = before; after = after })

unfoldable pub weekly_downloads_change_pct : TrustSnapshot → TrustSnapshot → Option Change
unfolding change_between
weekly_downloads_change_pct a b = change_between a.weekly_downloads b.weekly_downloads

-- change is not None and change < -0.5, without fractions; (0 - 0) counts as no change.
abbrev pub is_collapse : Option Change → Bool
is_collapse none = false
is_collapse (some c) = ltb (2 * c.after) c.before

-- (b - a).days, which rounds down.
unfoldable pub signed_days : ℕ → ℕ → ℤ
signed_days a b = if leb a b then pos ((b - a) / day) else negsuc ((a - b - 1) / day)

flag_value : TrustFlag → Text
flag_value ownership_transfer = codes "ownership_transfer"
flag_value new_maintainer = codes "new_maintainer"
flag_value cadence_anomaly = codes "cadence_anomaly"
flag_value download_collapse = codes "download_collapse"

unfoldable pub flag_le : TrustFlag → TrustFlag → Bool
unfolding flag_value
flag_le f g = text_le (flag_value f) (flag_value g)

-- The logins of a snapshot are sorted and distinct, so they are their own set.
unfoldable pub is_transferred : List Text → List Text → Bool
is_transferred from to = ltb 0 (length from) && ltb (2 * length (set_both from to)) (length from)

abbrev pub flag_if : Bool → TrustFlag → List TrustFlag → List TrustFlag
flag_if true f fs = f ∷ fs
flag_if false f fs = fs

unfoldable pub raised_flags : Bool → List Text → Bool → Option Change → List TrustFlag
raised_flags transferred added anomaly change = flag_if transferred ownership_transfer (
    flag_if (not (is_empty added)) new_maintainer
      (flag_if anomaly cadence_anomaly (flag_if (is_collapse change) download_collapse [])))

-- `fetch_delta`, after its requests.
unfoldable pub delta_of : Text → TrustSnapshot → TrustSnapshot → List (Text × Option ℕ) → TrustDelta
unfolding is_transferred raised_flags published_events
delta_of package_name a b times =
    let added = sorted text_le (set_minus b.maintainer_logins a.maintainer_logins) in
    let transferred = is_transferred a.maintainer_logins b.maintainer_logins in
    let anomaly = is_cadence_anomaly (published_events times) a.version b.version in
    let change = weekly_downloads_change_pct a b in
    let flags = sorted flag_le (raised_flags transferred added anomaly change) in
    record {
      package_name = package_name;
      from_version = a.version;
      to_version = b.version;
      maintainers_added = added;
      maintainers_removed = sorted text_le (set_minus a.maintainer_logins b.maintainer_logins);
      ownership_transferred = transferred;
      days_between_publishes = signed_days a.published_at b.published_at;
      publish_cadence_anomaly = anomaly;
      weekly_downloads_change_pct = change;
      flags = flags;
      safe_to_auto_merge = is_empty flags;
    }

points_if : Bool → ℕ → ℕ
points_if b n = if b then n else 0

-- value is not None and value < bound
abbrev pub is_below : Option ℕ → ℕ → Bool
is_below none bound = false
is_below (some n) bound = ltb n bound

distance_points : Bool → Option ℕ → ℕ
distance_points true distance = 0
distance_points false none = 0
distance_points false (some d) = if d == 1 then 25 else if d == 2 then 15 else 0

-- `_compute_subscore` with the default weights. The age is the whole days since the first publish.
unfoldable pub compute_subscore : ℕ → Option ℕ → Option ℕ → Bool → Option ℕ → ℕ
unfolding points_if distance_points
compute_subscore maintainer_count age distance in_top_1000 weekly_downloads =
    min
      (points_if (maintainer_count == 1) 30
        + points_if (is_below age 90) 20
        + distance_points in_top_1000 distance
        + points_if (is_below weekly_downloads 1000) 10)
      100

unfoldable pub trust_severity_from_subscore : ℕ → Severity
trust_severity_from_subscore subscore =
    if leb 60 subscore then high else if leb 30 subscore then medium else low
