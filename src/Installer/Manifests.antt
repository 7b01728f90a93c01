-- ===== src/Installer/Manifests.antt =====
-- What an uninstall may delete: the files that the manifest of an install lists.
use valmin.Shared.{
  ◌≡◌, refl, sym, ap, ◌∙◌, ◌≢◌, ◌↔◌, ◌⊎◌, inl, inr, Bool, true, false, not, ◌&&◌, List, [], ◌∷◌,
  ◌++◌, codes, text_eq, map, Option, none, some, arith, Text, text_eq_iff, text_eq_refl,
  if◌then◌else◌, lookup, In, NoDup, Bool-cases, Option-cases,
}
use valmin.Installer.{
  Placement, Change, skip, overwrite, create, Found, absent, regular, broken, Error, Result, ok,
  err, has_prefix, user_config, dot_dot, holds, check_dest, exists_at, owned_elsewhere, is_claimed,
  unowned_of, verdict, at_dest, diff, Unowned, unowned_ask, unowned_keep, unowned_replace, apply_to,
  apply_unowned, ManifestEntry, is_skip, manifest, duplicate_from, check_no_duplicate_dest,
}

-- An answer of the loops is of its two parts.
Result-cases : {A : Type 0} (r : Result A) → ((a : A) × (r ≡ ok a)) ⊎ ((e : Error) × (r ≡ err e))
Result-cases (ok a) = inl (a, refl)
Result-cases (err e) = inr (e, refl)

module _ (full_name : Text) (stat : List Text → Found) (claims : List (Text × Text)) where
  -- Each change comes of a placement.
  diff-In :
      (ps : List Placement) (cs : List Change) (c : Change)
      → diff full_name stat claims ps ≡ ok cs
      → In c cs
      → (p : Placement) × In p ps × (at_dest full_name stat claims (check_dest p.dest) p ≡ ok c)
  unfolding diff
  diff-In [] cs c h i = let q : [] ≡ cs = cc h in absurd (rw (← q) at i)
  diff-In (p ∷ ps) cs c h i =
      elim (Result-cases (at_dest full_name stat claims (check_dest p.dest) p)) [
        | inr (e, x) ↦ cc (rw x at h)
        | inl (d, x) ↦ elim (Result-cases (diff full_name stat claims ps)) [
          | inr (e, y) ↦ cc (rw (x, y) at h)
          | inl (ds, y) ↦
              let q : d ∷ ds ≡ cs = cc (rw (x, y) at h) in
              elim (rw (← q) at i) [
                | inl z ↦ (p, inl refl, x ∙ ap ok (sym z))
                | inr j ↦ let (r, k, w) = diff-In ps ds c y j in (r, inr k, w)
              ]
        ]
      ]

In-apply_unowned :
    (answer : Unowned) (cs : List Change) (c : Change)
    → In c (apply_unowned answer cs)
    → (d : Change) × In d cs × (c ≡ apply_to answer d)
unfolding apply_unowned
In-apply_unowned answer [] c i = absurd i
In-apply_unowned answer (d ∷ cs) c (inl e) = (d, inl refl, e)
In-apply_unowned answer (d ∷ cs) c (inr i) =
    let (x, j, e) = In-apply_unowned answer cs c i in (x, inr j, e)

In-manifest :
    (sum : Text → Option Text) (cs : List Change) (es : List ManifestEntry) (e : ManifestEntry)
    → manifest sum cs ≡ ok es
    → In e es
    → (c : Change) × In c cs × (is_skip c.action ≡ false) × (e.path ≡ c.placement.dest)
unfolding manifest
In-manifest sum [] es e h i = let q : [] ≡ es = cc h in absurd (rw (← q) at i)
In-manifest sum (c ∷ cs) es e h i = elim (Bool-cases (is_skip c.action)) [
  | inl k ↦ let (d, j, x, y) = In-manifest sum cs es e (rw k at h) i in (d, inr j, x, y)
  | inr k ↦ elim (Option-cases (sum c.placement.source)) [
    | inl s ↦ cc (rw (k, s) at h)
    | inr (v, s) ↦ elim (Result-cases (manifest sum cs)) [
      | inr (w, m) ↦ cc (rw (k, s, m) at h)
      | inl (fs, m) ↦
          let q : record { path = c.placement.dest; sha256 = v } ∷ fs ≡ es =
            cc (rw (k, s, m) at h) in
          elim (rw (← q) at i) [
            | inl z ↦ (c, inl refl, k, ap (λ (x : ManifestEntry). x.path) z)
            | inr j ↦ let (d, l, x, y) = In-manifest sum cs fs e m j in (d, inr l, x, y)
          ]
    ]
  ]
]

-- A placement whose file an install writes and an uninstall may delete.
pub record Written (full_name : Text) (stat : List Text → Found) (claims : List (Text × Text))
    (answer : Unowned) (p : Placement) : Type 0 where
  pub cleaned : List Text
  pub checked : check_dest p.dest ≡ ok cleaned
  pub inside : holds dot_dot cleaned ≡ false
  pub not_broken : stat cleaned ≢ broken
  pub not_owned :
      (owner : Text) → lookup p.dest claims ≡ some owner → (owner ≡ []) ⊎ (owner ≡ full_name)
  pub not_config : stat cleaned ≡ regular → (rest : Text) → p.dest ≢ codes "BepInEx/config/" ++ rest
  pub not_foreign : stat cleaned ≡ regular → answer ≡ unowned_keep → lookup p.dest claims ≢ none

owner_here :
    (full_name owner : Text) (claim : Option Text)
    → owned_elsewhere full_name claim ≡ none
    → claim ≡ some owner
    → (owner ≡ []) ⊎ (owner ≡ full_name)
owner_here full_name owner none h e = cc e
owner_here full_name owner (some o) h e =
    let same : o ≡ owner = cc e in
    elim (Bool-cases (text_eq o [])) [
      | inl a ↦ inl (sym same ∙ (text_eq_iff o []).0 a)
      | inr a ↦ elim (Bool-cases (text_eq o full_name)) [
        | inl b ↦ inr (sym same ∙ (text_eq_iff o full_name).0 b)
        | inr b ↦ cc (rw (a, b) at h)
      ]
    ]

has_prefix-append : (s t : Text) → has_prefix (s ++ t) s ≡ true
has_prefix-append [] t = refl
has_prefix-append (c ∷ s) t = ground (arith, has_prefix-append s t)

config_under : (rest : Text) → user_config (codes "BepInEx/config/" ++ rest) ≡ true
unfolding user_config
config_under rest = has_prefix-append (codes "BepInEx/config/") rest

skip_stays :
    (answer : Unowned) (d : Change)
    → is_skip d.action ≡ true
    → is_skip (apply_to answer d).action ≡ true
unfolding apply_to
skip_stays unowned_ask d h = h
skip_stays unowned_replace d h = h
skip_stays unowned_keep d h = elim (Bool-cases d.unowned) [ inl e ↦ rw e refl | inr e ↦ rw e h ]

check_dest-inside :
    (dest : Text) (cleaned : List Text)
    → check_dest dest ≡ ok cleaned
    → holds dot_dot cleaned ≡ false
unfolding check_dest
check_dest-inside dest cleaned h = ground (arith, h)

module _ (full_name : Text) (stat : List Text → Found) (claims : List (Text × Text))
    (answer : Unowned) (p : Placement) (d : Change) where
  not_owned-Written :
      (cleaned : List Text) (f : Found) (exists : Bool)
      → check_dest p.dest ≡ ok cleaned
      → stat cleaned ≡ f
      → f ≢ broken
      → (f ≡ regular → exists ≡ true)
      → (exists && user_config p.dest) ≡ false
      → unowned_of
          (owned_elsewhere full_name (lookup p.dest claims))
          p
          exists
          (lookup p.dest claims)
        ≡ ok d
      → is_skip (apply_to answer d).action ≡ false
      → Written full_name stat claims answer p × (d.placement ≡ p)
  unfolding unowned_of apply_to
  not_owned-Written cleaned f exists c e nb r u h k =
      elim (Option-cases (owned_elsewhere full_name (lookup p.dest claims))) [
        | inr (owner, o) ↦ cc (rw o at h)
        | inl o ↦
            let q : record {
              placement = p;
              action = if exists then overwrite else create;
              reason = [];
              unowned = exists && not (is_claimed (lookup p.dest claims));
            }
                ≡ d =
              cc (rw o at h) in
            let un : d.unowned ≡ (exists && not (is_claimed (lookup p.dest claims))) =
              ap (λ (x : Change). x.unowned) (sym q) in
            (
              record {
                cleaned = cleaned;
                checked = c;
                inside = check_dest-inside p.dest cleaned c;
                not_broken = λ b. nb (sym e ∙ b);
                not_owned = λ owner y. owner_here full_name owner (lookup p.dest claims) o y;
                not_config = λ g rest y.
                    let x = r (sym e ∙ g) in
                    let off : user_config p.dest ≡ false = ground (arith, x, u) in
                    let on : user_config p.dest ≡ true = rw y (config_under rest) in cc (off, on);
                not_foreign = λ g a.
                    let x = r (sym e ∙ g) in
                    elim (Bool-cases (is_claimed (lookup p.dest claims))) [
                      | inl y ↦ λ z. cc (rw z at y)
                      | inr y ↦
                          let z : d.unowned ≡ true = un ∙ rw (x, y) refl in cc (rw (a, z) at k)
                    ];
              },
              ap (λ (x : Change). x.placement) (sym q),
            )
      ]

  skipped :
      {u : Bool} {reason : Text}
      → ◌≡◌ {A = Result Change}
          (ok (record { placement = p; action = skip; reason = reason; unowned = u }))
          (ok d)
      → is_skip d.action ≡ true
  skipped {u} {reason} h =
      let q : record { placement = p; action = skip; reason = reason; unowned = u } ≡ d = cc h in
      ap (λ (x : Change). is_skip x.action) (sym q)

  found-Written :
      (cleaned : List Text) (f : Found)
      → check_dest p.dest ≡ ok cleaned
      → stat cleaned ≡ f
      → verdict full_name p (exists_at f) (lookup p.dest claims) ≡ ok d
      → is_skip (apply_to answer d).action ≡ false
      → Written full_name stat claims answer p × (d.placement ≡ p)
  unfolding verdict apply_to
  found-Written cleaned broken c e h k = cc h
  found-Written cleaned absent c e h k =
      not_owned-Written cleaned absent false c e (λ x. cc x) (λ x. cc x) refl h k
  found-Written cleaned regular c e h k = elim (Bool-cases (user_config p.dest)) [
    | inr u ↦ not_owned-Written cleaned regular true c e (λ x. cc x) (λ x. refl) u (rw u at h) k
    | inl u ↦ let q : is_skip d.action ≡ true = skipped (rw u at h) in cc (k, skip_stays answer d q)
  ]

  at_dest-Written :
      at_dest full_name stat claims (check_dest p.dest) p ≡ ok d
      → is_skip (apply_to answer d).action ≡ false
      → Written full_name stat claims answer p × (d.placement ≡ p)
  unfolding at_dest
  at_dest-Written h k = elim (Result-cases (check_dest p.dest)) [
    | inr (e, c) ↦ cc (rw c at h)
    | inl (cleaned, c) ↦ found-Written cleaned (stat cleaned) c refl (rw c at h) k
  ]

apply_to-placement : (answer : Unowned) (d : Change) → (apply_to answer d).placement ≡ d.placement
unfolding apply_to
apply_to-placement unowned_ask d = refl
apply_to-placement unowned_replace d = refl
apply_to-placement unowned_keep d = elim (Bool-cases d.unowned) [
  | inl e ↦ rw e refl
  | inr e ↦ rw e refl
]

-- Every file that the manifest of an install lists, and that its uninstall may thus delete, is one
-- of the placements, lies inside the server root, belongs to no other package, and was not there
-- before as a user's config file, nor, if the operator said to keep such files, as a file that no
-- package owned.
pub manifest-Written :
    (full_name : Text) (stat : List Text → Found) (claims : List (Text × Text)) (answer : Unowned)
    (sum : Text → Option Text) (ps : List Placement) (changes : List Change)
    (entries : List ManifestEntry) (e : ManifestEntry)
    → diff full_name stat claims ps ≡ ok changes
    → manifest sum (apply_unowned answer changes) ≡ ok entries
    → In e entries
    → (p : Placement) × In p ps × (p.dest ≡ e.path) × Written full_name stat claims answer p
manifest-Written full_name stat claims answer sum ps changes entries e h m i =
    let (c, j, k, x) = In-manifest sum (apply_unowned answer changes) entries e m i in
    let (d, l, y) = In-apply_unowned answer changes c j in
    let (p, n, z) = diff-In full_name stat claims ps changes d h l in
    let (w, q) =
      at_dest-Written full_name stat claims answer p d z
        (ap (λ (c : Change). is_skip c.action) (sym y) ∙ k) in
    (
      p,
      n,
      sym (
          x
          ∙ ap (λ (c : Change). c.placement.dest) y
          ∙ ap (λ (p : Placement). p.dest) (apply_to-placement answer d ∙ q)),
      w,
    )

abbrev pub dests : List Placement → List Text
dests ps = map (λ (p : Placement). p.dest) ps

abbrev NoneIn : List (Text × Text) → List Placement → Type 0
NoneIn seen ps = (d : Text) → In d (dests ps) → lookup d seen ≡ none

found :
    (p : Placement) (seen : List (Text × Text))
    → lookup p.dest ((p.dest, p.source) ∷ seen) ≡ some p.source
found p seen = rw (text_eq_refl p.dest) refl

passed :
    (p : Placement) (seen : List (Text × Text)) (d : Text)
    → lookup d ((p.dest, p.source) ∷ seen) ≡ none
    → lookup d seen ≡ none
passed p seen d h = ground (arith, h)

fresh :
    (p : Placement) (seen : List (Text × Text)) (d : Text)
    → p.dest ≢ d
    → lookup d seen ≡ none
    → lookup d ((p.dest, p.source) ∷ seen) ≡ none
fresh p seen d n h = ground (arith, h, n, text_eq_iff p.dest d)

duplicate_from-none :
    (seen : List (Text × Text)) (ps : List Placement)
    → (duplicate_from seen ps ≡ none) ↔ NoDup (dests ps) × NoneIn seen ps
unfolding duplicate_from
duplicate_from-none seen [] = ((λ h. (tt, λ d i. absurd i)), λ d. refl)
duplicate_from-none seen (p ∷ ps) =
    let (f, g) = duplicate_from-none ((p.dest, p.source) ∷ seen) ps in
    (
      (λ h. elim (Option-cases (lookup p.dest seen)) [
        | inr (v, e) ↦ cc (rw e at h)
        | inl e ↦
            let (n, a) = f (rw e at h) in
            (
              ((λ i. cc (a p.dest i, found p seen)), n),
              λ d i. elim i [ inl x ↦ rw x e | inr j ↦ passed p seen d (a d j) ],
            )
      ]),
      λ (n, a).
          rw (a p.dest (inl refl))
            (g (n.1, λ d i. fresh p seen d (λ x. n.0 (rw x i)) (a d (inr i)))),
    )

-- `checkNoDuplicateDest` passes exactly the placements no two of which have one destination.
pub check_no_duplicate_dest_iff :
    (ps : List Placement) → (check_no_duplicate_dest ps ≡ none) ↔ NoDup (dests ps)
unfolding check_no_duplicate_dest
check_no_duplicate_dest_iff ps =
    let (f, g) = duplicate_from-none [] ps in ((λ h. (f h).0), λ d. g (d, λ x i. refl))
