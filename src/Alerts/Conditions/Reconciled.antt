-- ===== src/Alerts/Conditions/Reconciled.antt =====
-- What the second loop of a reconciliation takes out.
use valmin.Shared.{
  ℕ, ◌≡◌, refl, ap, ◌↔◌, inl, inr, false, List, [], ◌∷◌, Text, if◌then◌else◌, contains, In,
  Bool-cases,
}
use valmin.Alerts.Conditions.{Row, row_key, update_row, resolved, resolve_missing}
use valmin.Alerts.Conditions.Pairs.{pair_of, pairs, open_pairs, ids, In-resolve_iff}

-- The pairs of open rows whose key was not seen.
abbrev pub missing : List Text → List (Text × Text) → List (Text × Text)
missing seen [] = []
missing seen ((i, k) ∷ ps) =
    let rest = missing seen ps in if contains k seen then rest else (i, k) ∷ rest

pub In-missing_iff :
    (seen : List Text) (ps : List (Text × Text)) (i k : Text)
    → In (i, k) (missing seen ps) ↔ (In (i, k) ps × (contains k seen ≡ false))
In-missing_iff seen [] i k = ((λ h. absurd h), λ h. h.0)
In-missing_iff seen ((j, l) ∷ ps) i k = elim (Bool-cases (contains l seen)) [
  | inl c ↦ rw c (
    (λ h. let (x, y) = (In-missing_iff seen ps i k).0 h in (inr x, y)),
    (λ h. elim h.0 [
      | inl q ↦ cc (ap (λ (x : Text × Text). x.1) q, c, h.1)
      | inr g ↦ (In-missing_iff seen ps i k).1 (g, h.1)
    ]),
  )
  | inr c ↦ rw c (
    (λ h. elim h [
      | inl q ↦ (inl q, rw (ap (λ (x : Text × Text). x.1) q) c)
      | inr g ↦ let (x, y) = (In-missing_iff seen ps i k).0 g in (inr x, y)
    ]),
    (λ h. elim h.0 [ inl q ↦ inl q | inr g ↦ inr ((In-missing_iff seen ps i k).1 (g, h.1)) ]),
  )
]

-- The rows of `resolveMissing` are the missing ones, and the open pairs lose their identifiers.
pub resolve_missing-pairs :
    (now : ℕ) (seen : List Text) (found rows : List Row)
    → pairs (resolve_missing now seen found rows).1 ≡ missing seen (pairs found)
unfolding resolve_missing
resolve_missing-pairs now seen [] rows = refl
resolve_missing-pairs now seen (c ∷ found) rows = elim (Bool-cases (contains (row_key c) seen)) [
  | inl h ↦ rw h (resolve_missing-pairs now seen found rows)
  | inr h ↦ rw h (
      ap (λ (ps : List (Text × Text)). pair_of c ∷ ps)
        (resolve_missing-pairs now seen found (update_row c.id (resolved now) rows)))
]

pub In-resolve_missing_iff :
    (now : ℕ) (seen : List Text) (found rows : List Row) (i k : Text)
    → In (i, k) (open_pairs (resolve_missing now seen found rows).0)
      ↔ (In (i, k) (open_pairs rows) × (¬ In i (ids (missing seen (pairs found)))))
unfolding resolve_missing
In-resolve_missing_iff now seen [] rows i k = ((λ h. (h, λ x. x)), λ h. h.0)
In-resolve_missing_iff now seen (c ∷ found) rows i k =
    elim (Bool-cases (contains (row_key c) seen)) [
      | inl h ↦ rw h (In-resolve_missing_iff now seen found rows i k)
      | inr h ↦
          let rest =
            In-resolve_missing_iff now seen found (update_row c.id (resolved now) rows) i k in
          let one = In-resolve_iff c.id now rows i k in
          rw h (
            (λ x.
                let (a, b) = rest.0 x in
                let (d, e) = one.0 a in (d, λ y. elim y [ inl q ↦ e q | inr g ↦ b g ])),
            (λ x. rest.1 (one.1 (x.0, λ q. x.1 (inl q)), λ g. x.1 (inr g))),
          )
    ]
