-- ===== src/Alerts/Conditions/Settled.antt =====
-- internal/store/alerts.go: after a reconciliation the open conditions are those observed.
use valmin.Shared.{
  ℕ, ◌≡◌, ◌↔◌, inl, inr, false, List, [], none, some, Text, lookup, contains, contains-In,
  In-contains, In, NoDup, All, All-In, Bool-cases, Option-cases, In-append, In-append_left,
  In-append_right,
}
use valmin.Alerts.Conditions.{
  Row, Observed, open_conditions, by_key, Scan, resolve_missing, Diff, reconciled, reconcile,
}
use valmin.Alerts.Conditions.Pairs.{
  pairs, open_pairs, ids, keys, observed_keys, new_ids, In-ids, ids-In, In-keys, keys-In,
  ids_unique, pairs-open_conditions,
}
use valmin.Alerts.Conditions.Scanned.{by_key-some, by_key-none, Scanned, observe-Scanned}
use valmin.Alerts.Conditions.Reconciled.{
  missing, In-missing_iff, resolve_missing-pairs, In-resolve_missing_iff,
}

-- A table and a report that match a scan.
pub record Settled (observed : List Observed) (before after : List Row) (d : Diff) : Type 0 where
  pub open_iff : (k : Text) → In k (keys (open_pairs after)) ↔ In k (observed_keys observed)
  pub kept :
      (i k : Text)
      → In (i, k) (open_pairs before)
      → In k (observed_keys observed)
      → In (i, k) (open_pairs after)
  pub opened_iff :
      (k : Text)
      → In k (keys (pairs d.opened))
        ↔ (In k (observed_keys observed) × (¬ In k (keys (open_pairs before))))
  pub resolved_iff :
      (i k : Text)
      → In (i, k) (pairs d.resolved_rows)
        ↔ (In (i, k) (open_pairs before) × (¬ In k (observed_keys observed)))

abbrev fresh_scan : List Row → Scan
fresh_scan rows = record { rows = rows; seen = []; opened = [] }

absent-contains : (k : Text) (xs : List Text) → (¬ In k xs) → contains k xs ≡ false
absent-contains k xs n = elim (Bool-cases (contains k xs)) [
  | inl h ↦ absurd (n (contains-In k xs h))
  | inr h ↦ h
]

contains-absent : (k : Text) (xs : List Text) → contains k xs ≡ false → ¬ In k xs
contains-absent k xs h i = cc (In-contains k xs i, h)

module _ (now : ℕ) (observed : List Observed) (rows : List Row) (s : Scan)
    (r : Scanned (by_key (open_conditions rows) []) observed (fresh_scan rows) s) where
  abbrev held : List Row
  held = open_conditions rows

  abbrev final : List Row
  final = (resolve_missing now s.seen held s.rows).0

  seen-observed : (k : Text) → In k s.seen → In k (observed_keys observed)
  seen-observed k h = elim ((r.seen_iff k).0 h) [ inl j ↦ absurd j | inr j ↦ j ]

  unseen : (k : Text) → (¬ In k (observed_keys observed)) → contains k s.seen ≡ false
  unseen k n = absent-contains k s.seen (λ h. n (seen-observed k h))

  -- A row that was open, with its key in the map.
  mapped :
      (k : Text) (c : Row) → lookup k (by_key held []) ≡ some c → In (c.id, k) (open_pairs rows)
  mapped k c e = elim (by_key-some held [] k c e) [
    | inl (q, i) ↦ rw (← q, ← pairs-open_conditions rows) i
    | inr l ↦ cc l
  ]

  unmapped : (k : Text) → lookup k (by_key held []) ≡ none → ¬ In k (keys (open_pairs rows))
  unmapped k e = rw (← pairs-open_conditions rows) (by_key-none held [] k e).0

  -- The rows whose keys were seen survive the second loop.
  survives :
      (i k : Text)
      → NoDup (ids (open_pairs rows))
      → In (i, k) (open_pairs rows)
      → In k (observed_keys observed)
      → In (i, k) (open_pairs final)
  survives i k d h o = (In-resolve_missing_iff now s.seen held s.rows i k).1 (
    rw r.added (In-append_left (i, k) (open_pairs rows) r.news h),
    λ g.
        let (l, x) = ids-In i (missing s.seen (pairs held)) g in
        let (y, z) = (In-missing_iff s.seen (pairs held) i l).0 x in
        let same : k ≡ l =
          ids_unique i k l (open_pairs rows) d h (rw (← pairs-open_conditions rows) y) in
        contains-absent k s.seen (rw same z) ((r.seen_iff k).1 (inr o)),
  )

  -- So do the rows that the scan has opened.
  new_survives :
      (i k : Text)
      → All (λ n. ¬ In n (ids (open_pairs rows))) (new_ids observed)
      → In (i, k) r.news
      → In (i, k) (open_pairs final)
  new_survives i k f h = (In-resolve_missing_iff now s.seen held s.rows i k).1 (
    rw r.added (In-append_right (i, k) (open_pairs rows) r.news h),
    λ g.
        let (l, x) = ids-In i (missing s.seen (pairs held)) g in
        let (y, z) = (In-missing_iff s.seen (pairs held) i l).0 x in
        All-In (λ n. ¬ In n (ids (open_pairs rows))) i (new_ids observed) f (r.sound i k h).0
          (In-ids i l (open_pairs rows) (rw (← pairs-open_conditions rows) y)),
  )

  final-observed : (i k : Text) → In (i, k) (open_pairs final) → In k (observed_keys observed)
  final-observed i k h =
      let (a, b) = (In-resolve_missing_iff now s.seen held s.rows i k).0 h in
      elim (In-append (i, k) (open_pairs rows) r.news (rw r.added at a)) [
        | inr g ↦ (r.sound i k g).1
        | inl g ↦ elim (Bool-cases (contains k s.seen)) [
          | inl c ↦ seen-observed k (contains-In k s.seen c)
          | inr c ↦ absurd (
              b (
                In-ids i k (missing s.seen (pairs held)) (
                  (In-missing_iff s.seen (pairs held) i k).1
                    (rw (pairs-open_conditions rows) g, c))))
        ]
      ]

  Scanned-Settled :
      NoDup (ids (open_pairs rows))
      → All (λ n. ¬ In n (ids (open_pairs rows))) (new_ids observed)
      → Settled observed rows (reconciled now held s).0 (reconciled now held s).1
  unfolding reconciled
  Scanned-Settled d f = record {
    open_iff = λ k. (
      (λ h. let (i, x) = keys-In k (open_pairs final) h in final-observed i k x),
      (λ h. elim (Option-cases (lookup k (by_key held []))) [
        | inr (c, e) ↦ In-keys c.id k (open_pairs final) (survives c.id k d (mapped k c e) h)
        | inl e ↦
            let (i, x) = keys-In k r.news (r.complete k h (λ z. z) e) in
            In-keys i k (open_pairs final) (new_survives i k f x)
      ]),
    );
    kept = λ i k h o. survives i k d h o;
    opened_iff = λ k. (
      (λ h.
          let (i, x) = keys-In k r.news (rw r.opened at h) in
          let (y, z, l) = r.sound i k x in (z, unmapped k l)),
      (λ h. elim (Option-cases (lookup k (by_key held []))) [
        | inr (c, e) ↦ absurd (h.1 (In-keys c.id k (open_pairs rows) (mapped k c e)))
        | inl e ↦ rw r.opened (r.complete k h.0 (λ z. z) e)
      ]),
    );
    resolved_iff = λ i k.
        rw (resolve_missing-pairs now s.seen held s.rows, pairs-open_conditions rows)
          (
            (λ h.
                let (x, y) = (In-missing_iff s.seen (open_pairs rows) i k).0 h in
                (x, λ o. contains-absent k s.seen y ((r.seen_iff k).1 (inr o)))),
            (λ h. (In-missing_iff s.seen (open_pairs rows) i k).1 (h.0, unseen k h.1)),
          );
  }

-- Identifiers name the open conditions of the table, and those that a scan would open are new to
-- it. Then after the reconciliation with the scan the keys of the open conditions are exactly the
-- observed ones; a condition that was open and is still observed is the same row; the report of
-- those opened names exactly the observed keys that were not open, and the report of those
-- resolved exactly the rows that were open and are not observed.
pub reconcile-Settled :
    (now : ℕ) (observed : List Observed) (rows : List Row)
    → NoDup (ids (open_pairs rows))
    → All (λ n. ¬ In n (ids (open_pairs rows))) (new_ids observed)
    → Settled observed rows (reconcile now observed rows).0 (reconcile now observed rows).1
unfolding reconcile
reconcile-Settled now observed rows d f =
    Scanned-Settled now observed rows _
      (observe-Scanned now (by_key (open_conditions rows) []) observed (fresh_scan rows)) d f
