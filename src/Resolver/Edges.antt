-- ===== src/Resolver/Edges.antt =====
-- Every version that `expand` walks has its dependency edges met in the state it returns.
use mathlib.Core.Path.{subst}
use valmin.Shared.{
  ◌≡◌, refl, ap, ◌⊎◌, inl, inr, true, List, [], ◌∷◌, ◌++◌, some, Text, lookup, contains, In, All,
  Lacks, Option-cases,
}
use valmin.Resolver.{Index, Result, ok, err, ◌>>=◌, ResolveState, key, parse_dependency}
use valmin.Resolver.Versions.{Clean, AtLeast-trans}
use valmin.Resolver.Invariant.{is_some, Inv, Extends, Extends-trans, Reaches}

-- A package is fixed, or recorded at the version or above.
abbrev pub Sat : ResolveState → Text → Text → Type 0
Sat s d w = (is_some (lookup d s.fixed) ≡ true) ⊎ Reaches s d w

abbrev pub EdgeMet : ResolveState → Text → Type 0
EdgeMet s dep = (d : Text) × (w : Text) × (parse_dependency dep ≡ some (d, w)) × Sat s d w

-- The version is known, and each of its dependencies is a reference that is met.
abbrev pub Met : Index → ResolveState → Text → Text → Type 0
Met idx s n v = (deps : List Text) × (idx.dependencies n v ≡ some deps) × All (EdgeMet s) deps

-- What stands between two states of the walk: the versions expanded on the way are met.
pub record Step (idx : Index) (Good : Text → Type 0) (s t : ResolveState) : Type 0 where
  pub inv : Inv idx Good t
  pub ext : Extends s t
  pub met :
      (n v : Text)
      → Good v
      → contains (key n v) t.expanded ≡ true
      → (contains (key n v) s.expanded ≡ true) ⊎ Met idx t n v

pub bind-ok :
    {A B : Type 0} (m : Result A) (f : A → Result B) (b : B)
    → (m >>= f) ≡ ok b
    → (a : A) × (m ≡ ok a) × (f a ≡ ok b)
bind-ok (ok a) f b h = (a, refl, h)
bind-ok (err e) f b h = cc

Lacks-at : (n : Text) (v : Text) → Lacks b'@' (n ++ b'@' ∷ v) → ⊥
Lacks-at [] v h = h.0 refl
Lacks-at (c ∷ n) v h = Lacks-at n v h.1

-- The key of a version that holds no at sign names both its parts.
pub key-injective :
    (n m v w : Text) → Lacks b'@' v → Lacks b'@' w → key n v ≡ key m w → (n ≡ m) × (v ≡ w)
key-injective [] [] v w lv lw e = (refl, cc)
key-injective [] (c ∷ m) v w lv lw e = absurd (Lacks-at m w (subst (Lacks b'@') (cc) lv))
key-injective (c ∷ n) [] v w lv lw e = absurd (Lacks-at n v (subst (Lacks b'@') (cc) lw))
key-injective (c ∷ n) (d ∷ m) v w lv lw e = let (p, q) = key-injective n m v w lv lw (cc) in (cc, q)

module _ {idx : Index} {Good : Text → Type 0} (clean : Clean idx Good) where
  pub Reaches-Extends :
      (s t : ResolveState) (d w : Text)
      → Inv idx Good s
      → Inv idx Good t
      → Extends s t
      → Good w
      → Reaches s d w
      → Reaches t d w
  Reaches-Extends s t d w is' it e g (h, p, l) =
      let (h', q, m) = e.rises d h p in
      (h', q, AtLeast-trans clean w h h' g (is'.good d h p) (it.good d h' q) l m)

  pub Sat-Extends :
      (s t : ResolveState) (d w : Text)
      → Inv idx Good s
      → Inv idx Good t
      → Extends s t
      → Good w
      → Sat s d w
      → Sat t d w
  Sat-Extends s t d w is' it e g (inl f) = elim (Option-cases (lookup d s.fixed)) [
    | inl p ↦ cc
    | inr (v, p) ↦ inl (ap is_some (e.fixed_kept d v p))
  ]
  Sat-Extends s t d w is' it e g (inr r) = inr (Reaches-Extends s t d w is' it e g r)

  pub All-EdgeMet :
      (s t : ResolveState) (n v : Text) (known deps : List Text)
      → Inv idx Good s
      → Inv idx Good t
      → Extends s t
      → idx.dependencies n v ≡ some known
      → ((dep : Text) → In dep deps → In dep known)
      → All (EdgeMet s) deps
      → All (EdgeMet t) deps
  All-EdgeMet s t n v known [] is' it e k sub a = tt
  All-EdgeMet s t n v known (dep ∷ deps) is' it e k sub ((d, w, p, x), a) = (
    (
      d,
      w,
      p,
      Sat-Extends s t d w is' it e
          (clean.good_dependency n v known dep d w k (sub dep (inl refl)) p) x,
    ),
    All-EdgeMet s t n v known deps is' it e k (λ y i. sub y (inr i)) a,
  )

  pub Met-Extends :
      (s t : ResolveState) (n v : Text)
      → Inv idx Good s
      → Inv idx Good t
      → Extends s t
      → Met idx s n v
      → Met idx t n v
  Met-Extends s t n v is' it e (deps, k, a) =
      (deps, k, All-EdgeMet s t n v deps deps is' it e k (λ y i. i) a)

  pub Step_trans :
      (s t u : ResolveState)
      → Inv idx Good s
      → Step idx Good s t
      → Step idx Good t u
      → Step idx Good s u
  Step_trans s t u i a b = record {
    inv = b.inv;
    ext = Extends-trans clean s t u i a.inv b.inv a.ext b.ext;
    met = λ n v g c. elim (b.met n v g c) [
      | inr m ↦ inr m
      | inl k ↦ elim (a.met n v g k) [
        | inl j ↦ inl j
        | inr m ↦ inr (Met-Extends t u n v a.inv b.inv b.ext m)
      ]
    ];
  }

  -- A step that expands nothing.
  pub quiet :
      (s t : ResolveState)
      → Inv idx Good t
      → Extends s t
      → t.expanded ≡ s.expanded
      → Step idx Good s t
  quiet s t i e p = record { inv = i; ext = e; met = λ n v g c. inl (rw (← p) c) }
