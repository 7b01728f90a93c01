-- ===== src/Resolver/Invariant.antt =====
-- What `walk` and `expand` keep of the resolve state, and what they add to it.
use valmin.Shared.{
  ◌≡◌, refl, ◌∙◌, ap, ◌⊎◌, inl, inr, Bool, true, false, [], ◌∷◌, Option, none, some, arith, Text,
  text_eq, text_eq_iff, text_eq_refl, lookup, insert-cases, contains, contains-append, In-contains,
  NoDup, NoDup-snoc, Bool-cases,
}
use valmin.Resolver.{Index, ResolveState, record_seen, record_highest, key, higher}
use valmin.Resolver.Versions.{Clean, AtLeast, AtLeast-refl, AtLeast-of_higher, AtLeast-trans}

abbrev pub is_some : Option Text → Bool
is_some none = false
is_some (some v) = true

-- The state between two steps: `Good` versions, each of them expanded or installed, the order of
-- discovery without repetition, and the fixed versions of requested and of held packages.
pub record Inv (idx : Index) (Good : Text → Type 0) (s : ResolveState) : Type 0 where
  pub good : (n h : Text) → lookup n s.highest ≡ some h → Good h
  pub justified :
      (n h : Text)
      → lookup n s.highest ≡ some h
      → (contains (key n h) s.expanded ≡ true) ⊎ (idx.installed n ≡ some h)
  pub recorded : (n : Text) → contains n s.order ≡ is_some (lookup n s.highest)
  pub fixed_why :
      (n v : Text)
      → lookup n s.fixed ≡ some v
      → (contains n s.explicit ≡ true)
        ⊎ (idx.installed n ≡ some v) × (idx.held n ≡ true) × (is_some (lookup n s.highest) ≡ true)
  pub distinct : NoDup s.order

-- Nothing is forgotten, and no version falls.
pub record Extends (s t : ResolveState) : Type 0 where
  pub fixed_kept : (n v : Text) → lookup n s.fixed ≡ some v → lookup n t.fixed ≡ some v
  pub rises :
      (n h : Text)
      → lookup n s.highest ≡ some h
      → (h' : Text) × (lookup n t.highest ≡ some h') × AtLeast h h'
  pub expanded_kept : (k : Text) → contains k s.expanded ≡ true → contains k t.expanded ≡ true
  pub explicit_same : t.explicit ≡ s.explicit

-- A package stands recorded at the version asked for, or above it.
abbrev pub Reaches : ResolveState → Text → Text → Type 0
Reaches s d w = (h : Text) × (lookup d s.highest ≡ some h) × AtLeast w h

module _ {idx : Index} {Good : Text → Type 0} (clean : Clean idx Good) where
  pub Extends-refl : (s : ResolveState) → Extends s s
  Extends-refl s = record {
    fixed_kept = λ n v p. p;
    rises = λ n h p. (h, p, AtLeast-refl clean h);
    expanded_kept = λ k p. p;
    explicit_same = refl;
  }

  pub Extends-trans :
      (s t u : ResolveState)
      → Inv idx Good s
      → Inv idx Good t
      → Inv idx Good u
      → Extends s t
      → Extends t u
      → Extends s u
  Extends-trans s t u is' it iu a b = record {
    fixed_kept = λ n v p. b.fixed_kept n v (a.fixed_kept n v p);
    rises = λ n h p.
        let (h', q, l) = a.rises n h p in
        let (h'', r, m) = b.rises n h' q in
        (
          h'',
          r,
          AtLeast-trans clean h h' h'' (is'.good n h p) (it.good n h' q) (iu.good n h'' r) l m,
        );
    expanded_kept = λ k p. b.expanded_kept k (a.expanded_kept k p);
    explicit_same = b.explicit_same ∙ a.explicit_same;
  }

  record_seen-Inv :
      (o : Option Text) (name version : Text) (s : ResolveState)
      → lookup name s.highest ≡ o
      → Inv idx Good s
      → Good version
      → (contains (key name version) s.expanded ≡ true) ⊎ (idx.installed name ≡ some version)
      → Inv idx Good (record_seen o name version s)
  unfolding record_seen
  record_seen-Inv none name version s e i g j = record {
    good = λ n h p. elim (insert-cases n name h version s.highest p) [
      | inl (q, r) ↦ rw (← r) g
      | inr q ↦ i.good n h q
    ];
    justified = λ n h p. elim (insert-cases n name h version s.highest p) [
      | inl (q, r) ↦ rw (← q, ← r) j
      | inr q ↦ i.justified n h q
    ];
    recorded = λ n.
        ground (arith, contains-append n s.order (name ∷ []), i.recorded n, text_eq_iff name n);
    fixed_why = λ n v p. ground (arith, i.fixed_why n v p);
    distinct =
        NoDup-snoc s.order name i.distinct
          (λ k. cc (In-contains name s.order k, i.recorded name, ap is_some e));
  }
  record_seen-Inv (some cur) name version s e i g j = elim (Bool-cases (higher version cur)) [
    | inr q ↦ rw q i
    | inl q ↦ rw q (record {
      good = λ n h p. elim (insert-cases n name h version s.highest p) [
        | inl (q, r) ↦ rw (← r) g
        | inr q ↦ i.good n h q
      ];
      justified = λ n h p. elim (insert-cases n name h version s.highest p) [
        | inl (q, r) ↦ rw (← q, ← r) j
        | inr q ↦ i.justified n h q
      ];
      recorded = λ n. ground (arith, i.recorded n, text_eq_iff name n, e);
      fixed_why = λ n v p. ground (arith, i.fixed_why n v p);
      distinct = i.distinct;
    })
  ]

  record_seen-Extends :
      (o : Option Text) (name version : Text) (s : ResolveState)
      → lookup name s.highest ≡ o
      → Inv idx Good s
      → Good version
      → Extends s (record_seen o name version s)
  unfolding record_seen
  record_seen-Extends none name version s e i g = record {
    fixed_kept = λ n v p. p;
    rises = λ n h p. (h, ground (arith, text_eq_iff name n, p, e), AtLeast-refl clean h);
    expanded_kept = λ k p. p;
    explicit_same = refl;
  }
  record_seen-Extends (some cur) name version s e i g = elim (Bool-cases (higher version cur)) [
    | inr q ↦ rw q (Extends-refl s)
    | inl q ↦ rw q (record {
      fixed_kept = λ n v p. p;
      rises = λ n h p. elim (Bool-cases (text_eq name n)) [
        | inl k ↦ (
          version,
          rw k refl,
          ground (
            arith,
            text_eq_iff name n,
            p,
            e,
            AtLeast-of_higher clean version cur g (i.good name cur e) q,
          ),
        )
        | inr k ↦ (h, rw (k, p) refl, AtLeast-refl clean h)
      ];
      expanded_kept = λ k p. p;
      explicit_same = refl;
    })
  ]

  record_seen-Reaches :
      (o : Option Text) (name version : Text) (s : ResolveState)
      → lookup name s.highest ≡ o
      → Reaches (record_seen o name version s) name version
  unfolding record_seen
  record_seen-Reaches none name version s e =
      (version, ground (arith, text_eq_refl name), AtLeast-refl clean version)
  record_seen-Reaches (some cur) name version s e = elim (Bool-cases (higher version cur)) [
    | inl q ↦ (version, ground (arith, text_eq_refl name, q), AtLeast-refl clean version)
    | inr q ↦ (cur, ground (arith, e, q), q)
  ]

  pub record_highest-Inv :
      (name version : Text) (s : ResolveState)
      → Inv idx Good s
      → Good version
      → (contains (key name version) s.expanded ≡ true) ⊎ (idx.installed name ≡ some version)
      → Inv idx Good (record_highest name version s)
        × Extends s (record_highest name version s)
        × Reaches (record_highest name version s) name version
  unfolding record_highest
  record_highest-Inv name version s i g j = (
    record_seen-Inv _ name version s refl i g j,
    record_seen-Extends _ name version s refl i g,
    record_seen-Reaches _ name version s refl,
  )

abbrev pub mark : Text → ResolveState → ResolveState
mark k s = record s { expanded = k ∷ s.expanded }

-- Marking a package expanded and recording it may be exchanged.
pub record_highest-mark :
    (k name version : Text) (s : ResolveState)
    → mark k (record_highest name version s) ≡ record_highest name version (mark k s)
unfolding record_highest record_seen
record_highest-mark k name version s = ground arith

pub record_highest-expanded :
    (name version : Text) (s : ResolveState) → (record_highest name version s).expanded ≡ s.expanded
unfolding record_highest record_seen
record_highest-expanded name version s = ground arith

module _ {idx : Index} {Good : Text → Type 0} (clean : Clean idx Good) where
  pub mark-Inv : (k : Text) (s : ResolveState) → Inv idx Good s → Inv idx Good (mark k s)
  mark-Inv k s i = record {
    good = i.good;
    justified = λ n h p. ground (arith, i.justified n h p);
    recorded = i.recorded;
    fixed_why = i.fixed_why;
    distinct = i.distinct;
  }

  pub mark-Extends : (k : Text) (s : ResolveState) → Extends s (mark k s)
  mark-Extends k s = record {
    fixed_kept = λ n v p. p;
    rises = λ n h p. (h, p, AtLeast-refl clean h);
    expanded_kept = λ j p. ground (arith, p);
    explicit_same = refl;
  }
