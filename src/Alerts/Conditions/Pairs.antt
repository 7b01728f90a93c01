-- ===== src/Alerts/Conditions/Pairs.antt =====
-- The open conditions as pairs of an identifier and a key, and what each write does to them.
use valmin.Shared.{
  ℕ, ◌≡◌, refl, sym, ap, ◌∙◌, ◌≢◌, ◌↔◌, inl, inr, List, [], ◌∷◌, ◌++◌, arith, Text, text_eq,
  text_eq_iff, if◌then◌else◌, In, NoDup, Bool-cases,
}
use valmin.Alerts.Conditions.{
  Row, Observed, row_key, observed_key, is_open, open_conditions, update_row, touched, resolved,
}

abbrev pub pair_of : Row → Text × Text
pair_of r = (r.id, row_key r)

abbrev pub pairs : List Row → List (Text × Text)
pairs [] = []
pairs (r ∷ rows) = pair_of r ∷ pairs rows

abbrev pub open_pairs : List Row → List (Text × Text)
open_pairs [] = []
open_pairs (r ∷ rows) =
    let rest = open_pairs rows in if is_open r.resolved_at then pair_of r ∷ rest else rest

abbrev pub ids : List (Text × Text) → List Text
ids [] = []
ids ((i, k) ∷ ps) = i ∷ ids ps

abbrev pub keys : List (Text × Text) → List Text
keys [] = []
keys ((i, k) ∷ ps) = k ∷ keys ps

abbrev pub observed_keys : List Observed → List Text
observed_keys [] = []
observed_keys (o ∷ os) = observed_key o ∷ observed_keys os

abbrev pub new_ids : List Observed → List Text
new_ids [] = []
new_ids (o ∷ os) = o.new_id ∷ new_ids os

pub In-ids : (i k : Text) (ps : List (Text × Text)) → In (i, k) ps → In i (ids ps)
In-ids i k [] h = h
In-ids i k (p ∷ ps) (inl e) = inl (ap (λ (x : Text × Text). x.0) e)
In-ids i k (p ∷ ps) (inr h) = inr (In-ids i k ps h)

pub In-keys : (i k : Text) (ps : List (Text × Text)) → In (i, k) ps → In k (keys ps)
In-keys i k [] h = h
In-keys i k (p ∷ ps) (inl e) = inl (ap (λ (x : Text × Text). x.1) e)
In-keys i k (p ∷ ps) (inr h) = inr (In-keys i k ps h)

pub keys-In : (k : Text) (ps : List (Text × Text)) → In k (keys ps) → (i : Text) × In (i, k) ps
keys-In k [] h = absurd h
keys-In k ((i, j) ∷ ps) (inl e) = (i, inl (ap (λ (x : Text). (i, x)) e))
keys-In k ((i, j) ∷ ps) (inr h) = let (x, y) = keys-In k ps h in (x, inr y)

pub ids-In : (i : Text) (ps : List (Text × Text)) → In i (ids ps) → (k : Text) × In (i, k) ps
ids-In i [] h = absurd h
ids-In i ((j, k) ∷ ps) (inl e) = (k, inl (ap (λ (x : Text). (x, k)) e))
ids-In i ((j, k) ∷ ps) (inr h) = let (x, y) = ids-In i ps h in (x, inr y)

-- Two pairs with one identifier are the same.
pub ids_unique :
    (i k l : Text) (ps : List (Text × Text)) → NoDup (ids ps) → In (i, k) ps → In (i, l) ps → k ≡ l
ids_unique i k l [] d h g = absurd h
ids_unique i k l (p ∷ ps) d (inl e) (inl f) = ap (λ (x : Text × Text). x.1) (e ∙ sym f)
ids_unique i k l (p ∷ ps) d (inl e) (inr g) =
    absurd (d.0 (rw (← ap (λ (x : Text × Text). x.0) e) (In-ids i l ps g)))
ids_unique i k l (p ∷ ps) d (inr h) (inl f) =
    absurd (d.0 (rw (← ap (λ (x : Text × Text). x.0) f) (In-ids i k ps h)))
ids_unique i k l (p ∷ ps) d (inr h) (inr g) = ids_unique i k l ps d.1 h g

pub pairs-open_conditions : (rows : List Row) → pairs (open_conditions rows) ≡ open_pairs rows
unfolding open_conditions
pairs-open_conditions [] = refl
pairs-open_conditions (r ∷ rows) = ground (arith, pairs-open_conditions rows)

pub pairs-append : (rows more : List Row) → pairs (rows ++ more) ≡ pairs rows ++ pairs more
pairs-append [] more = refl
pairs-append (r ∷ rows) more =
    ap (λ (ps : List (Text × Text)). pair_of r ∷ ps) (pairs-append rows more)

pub open_pairs-append :
    (rows more : List Row) → open_pairs (rows ++ more) ≡ open_pairs rows ++ open_pairs more
open_pairs-append [] more = refl
open_pairs-append (r ∷ rows) more = ground (arith, open_pairs-append rows more)

-- A touch leaves the pairs as they are.
pub open_pairs-touch :
    (id : Text) (now : ℕ) (detail : Text) (rows : List Row)
    → open_pairs (update_row id (touched now detail) rows) ≡ open_pairs rows
unfolding update_row
open_pairs-touch id now detail [] = refl
open_pairs-touch id now detail (r ∷ rows) = ground (arith, open_pairs-touch id now detail rows)

-- A resolution takes out the pairs of the identifier.
pub In-resolve_iff :
    (id : Text) (now : ℕ) (rows : List Row) (i k : Text)
    → In (i, k) (open_pairs (update_row id (resolved now) rows))
      ↔ (In (i, k) (open_pairs rows) × (i ≢ id))
unfolding update_row
In-resolve_iff id now [] i k = ((λ h. absurd h), λ h. h.0)
In-resolve_iff id now (r ∷ rows) i k = elim (Bool-cases (text_eq r.id id)) [
  | inl e ↦ elim (Bool-cases (is_open r.resolved_at)) [
    | inl o ↦
        rw (e, o)
          (
            (λ h. let (x, y) = (In-resolve_iff id now rows i k).0 h in (inr x, y)),
            (λ h. elim h.0 [
              | inl q ↦ absurd (h.1 (ap (λ (x : Text × Text). x.0) q ∙ (text_eq_iff r.id id).0 e))
              | inr j ↦ (In-resolve_iff id now rows i k).1 (j, h.1)
            ]),
          )
    | inr o ↦ rw (e, o) (In-resolve_iff id now rows i k)
  ]
  | inr e ↦ elim (Bool-cases (is_open r.resolved_at)) [
    | inl o ↦
        rw (e, o)
          (
            (λ h. elim h [
              | inl q ↦ (
                inl q,
                λ f. cc ((text_eq_iff r.id id).1 (sym (ap (λ (x : Text × Text). x.0) q) ∙ f), e),
              )
              | inr j ↦ let (x, y) = (In-resolve_iff id now rows i k).0 j in (inr x, y)
            ]),
            (λ h. elim h.0 [
              | inl q ↦ inl q
              | inr j ↦ inr ((In-resolve_iff id now rows i k).1 (j, h.1))
            ]),
          )
    | inr o ↦ rw (e, o) (In-resolve_iff id now rows i k)
  ]
]
