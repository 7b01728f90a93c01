-- ===== src/Resolver/Requests.antt =====
-- The first loop of `Resolve`: what it fixes, and what it leaves alone.
use valmin.Shared.{
  ◌≡◌, refl, inl, inr, true, ◌||◌, List, [], ◌∷◌, Option, none, some, arith, Text, text_eq,
  text_eq_iff, text_eq_refl, lookup, insert, contains, In, Option-cases, if◌then◌else◌,
}
use valmin.Resolver.{Index, Request, ok, ResolveState}
use valmin.Resolver.Closing.{admit, admit_present, admit_all}
use valmin.Resolver.Invariant.{is_some}
use valmin.Resolver.Edges.{bind-ok}

-- The version that the last request for a package asks for.
abbrev pub requested : List Request → Text → Option Text
requested [] n = none
requested (r ∷ rs) n = elim (requested rs n) [
  | some v ↦ some v
  | none ↦ if text_eq r.full_name n then some r.version else none
]

abbrev pub first_of_two : Option Text → Option Text → Option Text
first_of_two (some v) o = some v
first_of_two none o = o

-- The state after the first loop, over the state before it.
pub record Admitted (rs : List Request) (s t : ResolveState) : Type 0 where
  pub highest_same : t.highest ≡ s.highest
  pub order_same : t.order ≡ s.order
  pub expanded_same : t.expanded ≡ s.expanded
  pub fixed_is : (n : Text) → lookup n t.fixed ≡ first_of_two (requested rs n) (lookup n s.fixed)
  pub explicit_is :
      (n : Text) → contains n t.explicit ≡ (is_some (requested rs n) || contains n s.explicit)

abbrev admitted : Request → ResolveState → ResolveState
admitted r s = record s {
  explicit = r.full_name ∷ s.explicit;
  fixed = insert r.full_name r.version s.fixed;
}

admit-ok :
    (idx : Index) (r : Request) (s t : ResolveState) → admit idx r s ≡ ok t → t ≡ admitted r s
unfolding admit admit_present
admit-ok idx r s t h = ground arith

pub admit_all-Admitted :
    (idx : Index) (rs : List Request) (s t : ResolveState)
    → admit_all idx rs s ≡ ok t
    → Admitted rs s t
unfolding admit_all
admit_all-Admitted idx [] s t h =
    let q : s ≡ t = cc in
    rw (← q) (record {
      highest_same = refl;
      order_same = refl;
      expanded_same = refl;
      fixed_is = λ n. refl;
      explicit_is = λ n. refl;
    })
admit_all-Admitted idx (r ∷ rs) s t h =
    let (u, a, b) = bind-ok (admit idx r s) (admit_all idx rs) t h in
    let e = admit-ok idx r s u a in
    let m = admit_all-Admitted idx rs u t b in
    record {
      highest_same = ground (arith, e, m.highest_same);
      order_same = ground (arith, e, m.order_same);
      expanded_same = ground (arith, e, m.expanded_same);
      fixed_is = λ n. ground (arith, e, m.fixed_is n);
      explicit_is = λ n. ground (arith, e, m.explicit_is n);
    }

-- A requested version is that of a request.
pub requested-In :
    (rs : List Request) (n v : Text)
    → requested rs n ≡ some v
    → (r : Request) × In r rs × (r.full_name ≡ n) × (r.version ≡ v)
requested-In [] n v h = cc
requested-In (r ∷ rs) n v h = elim (Option-cases (requested rs n)) [
  | inr (w, e) ↦ let (q, i, a, b) = requested-In rs n w e in (q, inr i, a, ground (arith, h, e, b))
  | inl e ↦ (r, inl refl, ground (arith, h, e, text_eq_iff r.full_name n), ground (arith, h, e))
]

pub In-requested :
    (rs : List Request) (r : Request) → In r rs → is_some (requested rs r.full_name) ≡ true
In-requested [] r i = absurd i
In-requested (q ∷ rs) r (inl e) = ground (arith, text_eq_refl r.full_name, e)
In-requested (q ∷ rs) r (inr i) = ground (arith, In-requested rs r i)
