-- ===== src/Alerts/Conditions/Scanned.antt =====
-- What the loops of ReconcileConditions do to the pairs of the open conditions.
use mathlib.Core.List.{append-nil, append_assoc}
use valmin.Shared.{
  ℕ, ◌≡◌, refl, sym, ap, ◌∙◌, ◌↔◌, ◌⊎◌, inl, inr, List, [], ◌∷◌, ◌++◌, Option, none, some, Text,
  text_eq, text_eq_iff, lookup, insert, contains, contains-In, In, Bool-cases, Option-cases,
}
use valmin.Alerts.Conditions.{
  Row, Observed, row_key, observed_key, by_key, opened_row, Scan, upsert_condition, observe,
}
use valmin.Alerts.Conditions.Pairs.{
  pair_of, pairs, open_pairs, keys, observed_keys, new_ids, pairs-append, open_pairs-append,
  open_pairs-touch,
}

-- A key that the map holds was that of a row, and one of the rows has it.
pub by_key-some :
    (rows : List Row) (m : List (Text × Row)) (k : Text) (r : Row)
    → lookup k (by_key rows m) ≡ some r
    → ((row_key r ≡ k) × In (pair_of r) (pairs rows)) ⊎ (lookup k m ≡ some r)
unfolding by_key
by_key-some [] m k r e = inr e
by_key-some (c ∷ rows) m k r e = elim (by_key-some rows (insert (row_key c) c m) k r e) [
  | inl (q, i) ↦ inl (q, inr i)
  | inr l ↦ elim (Bool-cases (text_eq (row_key c) k)) [
    | inl h ↦
        let same : c ≡ r = cc (rw h at l) in
        inl (ap row_key (sym same) ∙ (text_eq_iff (row_key c) k).0 h, inl (ap pair_of (sym same)))
    | inr h ↦ inr (rw h at l)
  ]
]

pub by_key-none :
    (rows : List Row) (m : List (Text × Row)) (k : Text)
    → lookup k (by_key rows m) ≡ none
    → (¬ In k (keys (pairs rows))) × (lookup k m ≡ none)
unfolding by_key
by_key-none [] m k e = ((λ i. i), e)
by_key-none (c ∷ rows) m k e =
    let (n, l) = by_key-none rows (insert (row_key c) c m) k e in
    elim (Bool-cases (text_eq (row_key c) k)) [
      | inl h ↦ cc (rw h at l)
      | inr h ↦ (
        (λ i. elim i [ inl q ↦ cc ((text_eq_iff (row_key c) k).1 (sym q), h) | inr j ↦ n j ]),
        rw h at l,
      )
    ]

-- What a scan adds: one row for each key that it sees for the first time and that is not open.
pub record Scanned (m : List (Text × Row)) (os : List Observed) (s t : Scan) : Type 0 where
  pub news : List (Text × Text)
  pub added : open_pairs t.rows ≡ open_pairs s.rows ++ news
  pub opened : pairs t.opened ≡ pairs s.opened ++ news
  pub seen_iff : (k : Text) → In k t.seen ↔ (In k s.seen ⊎ In k (observed_keys os))
  pub sound :
      (i k : Text)
      → In (i, k) news
      → In i (new_ids os) × In k (observed_keys os) × (lookup k m ≡ none)
  pub complete :
      (k : Text) → In k (observed_keys os) → ¬ In k s.seen → lookup k m ≡ none → In k (keys news)

Scanned-skip :
    (m : List (Text × Row)) (o : Observed) (os : List Observed) (s t : Scan)
    → In (observed_key o) s.seen
    → Scanned m os s t
    → Scanned m (o ∷ os) s t
Scanned-skip m o os s t i r = record {
  news = r.news;
  added = r.added;
  opened = r.opened;
  seen_iff = λ k. (
    (λ h. elim ((r.seen_iff k).0 h) [ inl j ↦ inl j | inr j ↦ inr (inr j) ]),
    (λ h. elim h [
      | inl j ↦ (r.seen_iff k).1 (inl j)
      | inr (inl e) ↦ (r.seen_iff k).1 (inl (rw e i))
      | inr (inr j) ↦ (r.seen_iff k).1 (inr j)
    ]),
  );
  sound = λ i k h. let (x, y, z) = r.sound i k h in (inr x, inr y, z);
  complete = λ k h n l. elim h [ inl e ↦ absurd (n (rw e i)) | inr j ↦ r.complete k j n l ];
}

-- The scan after an observation whose key is new to it.
abbrev upserted : ℕ → Observed → Scan → Option Row → Scan
upserted now o s found = upsert_condition now o found (record s { seen = observed_key o ∷ s.seen })

module _ (now : ℕ) (m : List (Text × Row)) (o : Observed) (os : List Observed) (s t : Scan) where
  seen_step :
      (u : Scan)
      → u.seen ≡ observed_key o ∷ s.seen
      → ((k : Text) → In k t.seen ↔ (In k u.seen ⊎ In k (observed_keys os)))
      → (k : Text) → In k t.seen ↔ (In k s.seen ⊎ In k (observed_keys (o ∷ os)))
  seen_step u e h k = (
    (λ i. elim ((h k).0 i) [
      | inl j ↦ elim (rw e at j) [ inl q ↦ inr (inl q) | inr l ↦ inl l ]
      | inr j ↦ inr (inr j)
    ]),
    (λ i. elim i [
      | inl j ↦ (h k).1 (inl (rw e (inr j)))
      | inr (inl q) ↦ (h k).1 (inl (rw e (inl q)))
      | inr (inr j) ↦ (h k).1 (inr j)
    ]),
  )

  Scanned-touch :
      (r : Row)
      → lookup (observed_key o) m ≡ some r
      → Scanned m os (upserted now o s (some r)) t
      → Scanned m (o ∷ os) s t
  unfolding upsert_condition
  Scanned-touch r e h = record {
    news = h.news;
    added =
        h.added
        ∙ ap (λ (ps : List (Text × Text)). ps ++ h.news)
            (open_pairs-touch r.id now o.detail s.rows);
    opened = h.opened;
    seen_iff = seen_step (upserted now o s (some r)) refl h.seen_iff;
    sound = λ i k j. let (x, y, z) = h.sound i k j in (inr x, inr y, z);
    complete = λ k j n l. elim j [
      | inl q ↦ cc (l, e, q)
      | inr g ↦ elim (Bool-cases (text_eq (observed_key o) k)) [
        | inl same ↦ cc ((text_eq_iff (observed_key o) k).0 same, l, e)
        | inr apart ↦
            h.complete k g
              (λ f. elim f [
                | inl q ↦ cc ((text_eq_iff (observed_key o) k).1 (sym q), apart)
                | inr x ↦ n x
              ])
              l
      ]
    ];
  }

  Scanned-open :
      lookup (observed_key o) m ≡ none
      → Scanned m os (upserted now o s none) t
      → Scanned m (o ∷ os) s t
  unfolding upsert_condition
  Scanned-open e h = record {
    news = (o.new_id, observed_key o) ∷ h.news;
    added =
        h.added
        ∙ rw (open_pairs-append s.rows (opened_row now o ∷ []))
            (append_assoc (open_pairs s.rows) ((o.new_id, observed_key o) ∷ []) h.news);
    opened =
        h.opened
        ∙ rw (pairs-append s.opened (opened_row now o ∷ []))
            (append_assoc (pairs s.opened) ((o.new_id, observed_key o) ∷ []) h.news);
    seen_iff = seen_step (upserted now o s none) refl h.seen_iff;
    sound = λ i k j. elim j [
      | inl q ↦ (
        inl (ap (λ (x : Text × Text). x.0) q),
        inl (ap (λ (x : Text × Text). x.1) q),
        rw (ap (λ (x : Text × Text). x.1) q) e,
      )
      | inr g ↦ let (x, y, z) = h.sound i k g in (inr x, inr y, z)
    ];
    complete = λ k j n l. elim (Bool-cases (text_eq (observed_key o) k)) [
      | inl same ↦ inl (sym ((text_eq_iff (observed_key o) k).0 same))
      | inr apart ↦ elim j [
        | inl q ↦ inl q
        | inr g ↦ inr (
            h.complete k g
              (λ f. elim f [
                | inl q ↦ cc ((text_eq_iff (observed_key o) k).1 (sym q), apart)
                | inr x ↦ n x
              ])
              l)
      ]
    ];
  }

pub observe-Scanned :
    (now : ℕ) (m : List (Text × Row)) (os : List Observed) (s : Scan)
    → Scanned m os s (observe now m os s)
unfolding observe
observe-Scanned now m [] s = record {
  news = [];
  added = sym (append-nil (open_pairs s.rows));
  opened = sym (append-nil (pairs s.opened));
  seen_iff = λ k. ((λ h. inl h), λ h. elim h [ inl j ↦ j | inr j ↦ absurd j ]);
  sound = λ i k h. absurd h;
  complete = λ k h n l. absurd h;
}
observe-Scanned now m (o ∷ os) s = elim (Bool-cases (contains (observed_key o) s.seen)) [
  | inl c ↦ rw c (Scanned-skip m o os s _ (contains-In _ _ c) (observe-Scanned now m os s))
  | inr c ↦ elim (Option-cases (lookup (observed_key o) m)) [
    | inr (r, e) ↦
        rw (c, e)
          (Scanned-touch now m o os s _ r e (observe-Scanned now m os (upserted now o s (some r))))
    | inl e ↦
        rw (c, e) (Scanned-open now m o os s _ e (observe-Scanned now m os (upserted now o s none)))
  ]
]
