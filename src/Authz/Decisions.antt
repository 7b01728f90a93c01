-- ===== src/Authz/Decisions.antt =====
-- What a user may do, and what the panel tells them that they may do.
use valmin.Shared.{
  ◌≡◌, refl, ◌↔◌, ◌⊎◌, inl, inr, Bool, true, false, ◌&&◌, ◌||◌, List, [], Option, none, some, arith,
  Text, codes, if◌then◌else◌, In, NoDup, Bool-cases, SortedOn, In-sort_on_iff, sort_on-SortedOn,
  sort_on-NoDup,
}
use valmin.Authz.{
  Action, action_name, same_action, member, never_granted, Grant, User, is_admin, is_empty, Lookup,
  failed, found, not_grantable, is_allowed, decide_on, decide, can, granted, granted_by, everything,
  sorted, allowed_actions, visible_ids, visible_instances, config_edit, config_raw, instance_view,
  role_actions,
}
use valmin.Authz.Grants.{
  base, member_iff, member-granted, granted-not_never, member-everything, NoDup-granted,
  NoDup-everything,
}

-- A member is let do something by a grant that carries it.
abbrev pub Carried : Lookup → Action → Type 0
Carried l act =
    (g : Grant) × (l ≡ found (some g))
    × ((base g act || base g config_raw && same_action config_edit act) ≡ true)

decide_on-Carried :
    (l : Lookup) (act : Action) → (is_allowed (decide_on l act) ≡ true) ↔ Carried l act
unfolding decide_on
decide_on-Carried failed act = ((λ h. cc h), λ (g, e, c). cc e)
decide_on-Carried (found none) act = ((λ h. cc h), λ (g, e, c). cc e)
decide_on-Carried (found (some g)) act = (
  (λ h. (g, refl, ground (arith, member-granted act g, h))),
  λ (k, e, c). let q : g ≡ k = cc e in rw (q) (ground (arith, member-granted act k, c)),
)

-- `Can` is true of exactly these users: those not disabled who are admins, or who ask of a named
-- instance for an action that may be granted, and whose live grant there names it by its role or
-- its perms, `config.raw` naming `config.edit` with it. A lookup that fails lets nobody in.
pub can_iff :
    (grant_for : Text → Text → Lookup) (o : Option User) (act : Action) (instance_id : Text)
    → (can grant_for o act instance_id ≡ true) ↔ (
        (u : User) × (o ≡ some u)
        × (u.disabled ≡ false)
        × ((is_admin u ≡ true)
            ⊎ (never_granted act ≡ false)
              × (is_empty instance_id ≡ false)
              × Carried (grant_for u.id instance_id) act))
unfolding can decide
can_iff grant_for none act i = ((λ h. cc h), λ (u, e, d, r). cc e)
can_iff grant_for (some u) act i = (
  (λ h. (u, refl, ground (arith, h), ground (arith, decide_on-Carried (grant_for u.id i) act, h))),
  λ (v, e, d, r).
      let q : u ≡ v = cc e in rw q (ground (arith, decide_on-Carried (grant_for v.id i) act, d, r)),
)

-- The list holds each action that is allowed once, in the order of the names, and no other.
abbrev pub Lists : (Action → Bool) → List Action → Type 0
Lists may actions =
    ((act : Action) → In act actions ↔ (may act ≡ true))
    × NoDup actions
    × SortedOn action_name actions

Lists-sorted : (out : List Action) → NoDup out → Lists (λ a. member a out) (sorted out)
Lists-sorted out d = (
  (λ act. ground (arith, In-sort_on_iff action_name act out, member_iff act out)),
  sort_on-NoDup action_name out d,
  sort_on-SortedOn action_name out,
)

Lists-same :
    (may may' : Action → Bool) (actions : List Action)
    → ((act : Action) → may act ≡ may' act)
    → Lists may actions
    → Lists may' actions
Lists-same may may' actions h l = ((λ act. ground (arith, h act, l.0 act)), l.1, l.2)

Lists-nothing : Lists (λ a. false) []
Lists-nothing = ((λ act. ((λ i. absurd i), λ h. cc h)), tt, tt)

granted_by-Lists :
    (l : Lookup) (actions : List Action)
    → granted_by l ≡ some actions
    → Lists (λ a. is_allowed (if never_granted a then not_grantable else decide_on l a)) actions
unfolding granted_by decide_on
granted_by-Lists failed actions e = cc e
granted_by-Lists (found none) actions e =
    let q : [] ≡ actions = cc e in
    rw (← q) (Lists-same (λ a. false) _ [] (λ a. ground arith) Lists-nothing)
granted_by-Lists (found (some g)) actions e =
    let q : sorted (granted g) ≡ actions = cc e in
    rw (← q) (
      Lists-same (λ a. member a (granted g)) _ _ (λ a. ground (arith, granted-not_never a g))
        (Lists-sorted (granted g) (NoDup-granted g)))

-- The list that the interface renders from agrees with what the handlers decide: where the lookup
-- succeeds and an instance is named, it holds each action that `Can` allows there, and no other,
-- once, in the order of the names.
pub allowed_actions-can :
    (grant_for : Text → Text → Lookup) (o : Option User) (instance_id : Text)
    (actions : List Action)
    → is_empty instance_id ≡ false
    → allowed_actions grant_for o instance_id ≡ some actions
    → Lists (λ act. can grant_for o act instance_id) actions
unfolding allowed_actions can decide
allowed_actions-can grant_for none i actions h e =
    let q : [] ≡ actions = cc e in rw (← q) Lists-nothing
allowed_actions-can grant_for (some u) i actions h e = elim (Bool-cases u.disabled) [
  | inl d ↦
      let q : [] ≡ actions = ground (arith, e, d) in
      rw (← q) (Lists-same (λ a. false) _ [] (λ a. ground (arith, d)) Lists-nothing)
  | inr d ↦ elim (Bool-cases (is_admin u)) [
    | inl k ↦
        let q : sorted everything ≡ actions = ground (arith, e, d, k) in
        rw (← q) (
          Lists-same (λ a. member a everything) _ _ (λ a. ground (arith, d, k, member-everything a))
            (Lists-sorted everything NoDup-everything))
    | inr k ↦
        Lists-same _ _ actions (λ a. ground (arith, d, k, h))
          (granted_by-Lists (grant_for u.id i) actions (ground (arith, e, d, k)))
  ]
]

-- No user but an admin is allowed what is never granted, on any instance.
pub never_granted-can :
    (grant_for : Text → Text → Lookup) (u : User) (act : Action) (instance_id : Text)
    → is_admin u ≡ false
    → never_granted act ≡ true
    → can grant_for (some u) act instance_id ≡ false
unfolding can decide
never_granted-can grant_for u act i h n = ground (arith, h, n)

-- The role of the grant is one of the two.
abbrev pub Viewing : Grant → Type 0
Viewing g = (g.role ≡ codes "viewer") ⊎ (g.role ≡ codes "operator")

Viewing-base : (g : Grant) → Viewing g → base g instance_view ≡ true
unfolding role_actions member same_action action_name
Viewing-base g (inl e) = rw e refl
Viewing-base g (inr e) = rw e refl

view_grantable : never_granted instance_view ≡ false
unfolding never_granted member same_action action_name
view_grantable = refl

-- Where the two lookups of the store agree and each grant has one of the two roles, a member who
-- is not disabled sees exactly the instances on which `instance.view` is allowed.
pub visible_instances-can :
    (grant_for : Text → Text → Lookup) (granted_instances : Text → Option (List Text)) (u : User)
    (ids : List Text) (instance_id : Text)
    → u.disabled ≡ false
    → is_admin u ≡ false
    → granted_instances u.id ≡ some ids
    → is_empty instance_id ≡ false
    → ((In instance_id ids
          → (g : Grant) × (grant_for u.id instance_id ≡ found (some g)) × Viewing g)
        × ((g : Grant) → grant_for u.id instance_id ≡ found (some g) → In instance_id ids))
    → (visible_instances granted_instances (some u) ≡ some (record { ids = ids; all = false }))
      × (In instance_id ids ↔ (can grant_for (some u) instance_view instance_id ≡ true))
unfolding visible_instances visible_ids
visible_instances-can grant_for granted_instances u ids i d a e h (f, g) =
    let c = can_iff grant_for (some u) instance_view i in
    (
      rw (d, a, e) refl,
      (
        (λ j.
            let (k, q, v) = f j in
            c.1 (u, refl, d, inr (view_grantable, h, (k, q, ground (arith, Viewing-base k v))))),
        λ k.
            let (v, q, x, r) = c.0 k in
            let s : u ≡ v = cc q in
            elim r [ inl y ↦ cc (a, y, s) | inr (n, m, w) ↦ g w.0 (rw s w.1) ],
      ),
    )
