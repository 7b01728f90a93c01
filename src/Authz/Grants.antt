-- ===== src/Authz/Grants.antt =====
-- What a grant carries.
use valmin.Shared.{
  ◌≡◌, refl, ap, ◌↔◌, inl, inr, Bool, true, false, not, ◌&&◌, ◌||◌, List, [], ◌∷◌, ◌++◌, Option,
  none, some, arith, Text, text_eq, text_eq_iff, if◌then◌else◌, In, NoDup, Bool-cases, Option-cases,
}
use valmin.Authz.{
  Action, action_name, same_action, member, never_granted, all_actions, find_action, parse_action,
  role_actions, Grant, put, put_all, put_perm, put_perms, with_edit, granted, everything,
  viewer_actions, operator_extra, config_edit, config_raw, instance_view,
}

find_action-name :
    (as' : List Action) (wanted : Text) (a : Action)
    → find_action as' wanted ≡ some a
    → action_name a ≡ wanted
unfolding find_action
find_action-name [] wanted a h = cc
find_action-name (b ∷ as') wanted a h =
    ground (arith, text_eq_iff (action_name b) wanted, find_action-name as' wanted a)

parse_action-name : (a : Action) → parse_action (action_name a) ≡ some a
unfolding parse_action find_action action_name
parse_action-name instance_view = refl
parse_action-name _ = refl

-- A name resolves to an action exactly if it is the action's own: the registry misses none of the
-- actions, and no two share a name.
pub parse_action_iff :
    (wanted : Text) (a : Action) → (parse_action wanted ≡ some a) ↔ (action_name a ≡ wanted)
unfolding parse_action
parse_action_iff wanted a =
    (find_action-name all_actions wanted a, λ e. rw (← e) (parse_action-name a))

pub action_name-injective : (a b : Action) → action_name a ≡ action_name b → a ≡ b
action_name-injective a b e = cc (parse_action-name a, parse_action-name b, ap parse_action e)

pub same_action_iff : (a b : Action) → (same_action a b ≡ true) ↔ (a ≡ b)
unfolding same_action
same_action_iff a b = (
  λ h. action_name-injective a b ((text_eq_iff (action_name a) (action_name b)).0 h),
  λ e. (text_eq_iff (action_name a) (action_name b)).1 (ap action_name e),
)

pub member_iff :
    (act : Action) (actions : List Action) → (member act actions ≡ true) ↔ In act actions
unfolding member
member_iff act [] = ((λ h. cc h), λ i. absurd i)
member_iff act (a ∷ actions) = ground (arith, same_action_iff a act, member_iff act actions)

member-put :
    (act a : Action) (out : List Action)
    → member act (put a out) ≡ (same_action a act || member act out)
unfolding put member
member-put act a out = ground (arith, same_action_iff a act)

member-put_all :
    (act : Action) (actions out : List Action)
    → member act (put_all actions out) ≡ (member act actions || member act out)
unfolding put_all member
member-put_all act [] out = refl
member-put_all act (a ∷ actions) out =
    ground (arith, member-put_all act actions (put a out), member-put act a out)

-- The name of the action is among the perms.
abbrev pub listed : Action → List Text → Bool
listed act [] = false
listed act (wanted ∷ perms) = text_eq (action_name act) wanted || listed act perms

put_named :
    (act a : Action) (out : List Action)
    → member act (if never_granted a then out else put a out)
      ≡ (text_eq (action_name act) (action_name a) && not (never_granted act) || member act out)
put_named act a out = elim (Bool-cases (text_eq (action_name act) (action_name a))) [
  | inl e ↦
      let q : act ≡ a =
        action_name-injective act a ((text_eq_iff (action_name act) (action_name a)).0 e) in
      rw (e, q) (ground (arith, member-put a a out, same_action_iff a a))
  | inr e ↦ ground (
    arith,
    e,
    member-put act a out,
    same_action_iff a act,
    text_eq_iff (action_name act) (action_name a),
  )
]

member-put_perm :
    (act : Action) (wanted : Text) (out : List Action)
    → member act (put_perm (parse_action wanted) out)
      ≡ (text_eq (action_name act) wanted && not (never_granted act) || member act out)
unfolding put_perm
member-put_perm act wanted out = elim (Option-cases (parse_action wanted)) [
  | inl e ↦
      let ne : text_eq (action_name act) wanted ≡ false =
        ground (arith, text_eq_iff (action_name act) wanted, parse_action_iff wanted act, e) in
      rw (e, ne) refl
  | inr (a, e) ↦
      let q : action_name a ≡ wanted = (parse_action_iff wanted a).0 e in
      rw (e, ← q) (put_named act a out)
]

member-put_perms :
    (act : Action) (perms : List Text) (out : List Action)
    → member act (put_perms perms out)
      ≡ (listed act perms && not (never_granted act) || member act out)
unfolding put_perms
member-put_perms act [] out = refl
member-put_perms act (wanted ∷ perms) out = ground (
  arith,
  member-put_perms act perms (put_perm (parse_action wanted) out),
  member-put_perm act wanted out,
)

-- The actions that a grant's role and perms name.
abbrev pub base : Grant → Action → Bool
base g act = member act (role_actions g.role) || listed act g.perms && not (never_granted act)

role-granted :
    (act : Action) → (never_granted act && member act (viewer_actions ++ operator_extra)) ≡ false
unfolding never_granted member same_action action_name
role-granted instance_view = refl
role-granted _ = refl

member-with_edit :
    (act : Action) (out : List Action)
    → member act (with_edit out)
      ≡ (member act out || member config_raw out && same_action config_edit act)
unfolding with_edit
member-with_edit act out = ground (arith, member-put act config_edit out)

member-base :
    (act : Action) (g : Grant)
    → member act (put_perms g.perms (put_all (role_actions g.role) [])) ≡ base g act
unfolding member
member-base act g = ground (
  arith,
  member-put_perms act g.perms (put_all (role_actions g.role) []),
  member-put_all act (role_actions g.role) [],
)

-- The set of a grant holds an action exactly if its role or its perms name it, or if it is
-- `config.edit` and they name `config.raw`.
pub member-granted :
    (act : Action) (g : Grant)
    → member act (granted g) ≡ (base g act || base g config_raw && same_action config_edit act)
unfolding granted
member-granted act g =
    let out = put_perms g.perms (put_all (role_actions g.role) []) in
    rw (member-with_edit act out, member-base act g, member-base config_raw g) refl

member-append :
    (act : Action) (xs ys : List Action) → member act (xs ++ ys) ≡ (member act xs || member act ys)
unfolding member
member-append act [] ys = refl
member-append act (x ∷ xs) ys = ground (arith, member-append act xs ys)

role-not_never :
    (act : Action) (role : Text) → never_granted act ≡ true → member act (role_actions role) ≡ false
unfolding role_actions
role-not_never act role h =
    ground (
      arith,
      role-granted act,
      h,
      member-append act viewer_actions operator_extra,
      member_iff act [],
    )

edit_grantable : never_granted config_edit ≡ false
unfolding never_granted member same_action action_name
edit_grantable = refl

-- No grant carries an action that is never granted, whatever its role and perms say.
pub granted-not_never :
    (act : Action) (g : Grant) → never_granted act ≡ true → member act (granted g) ≡ false
granted-not_never act g h = ground (
  arith,
  member-granted act g,
  role-not_never act g.role h,
  h,
  same_action_iff config_edit act,
  edit_grantable,
)

NoDup-put : (a : Action) (out : List Action) → NoDup out → NoDup (put a out)
unfolding put
NoDup-put a out d = ground (arith, member_iff a out, d)

NoDup-put_all : (actions out : List Action) → NoDup out → NoDup (put_all actions out)
unfolding put_all
NoDup-put_all [] out d = d
NoDup-put_all (a ∷ actions) out d = NoDup-put_all actions (put a out) (NoDup-put a out d)

NoDup-put_perms : (perms : List Text) (out : List Action) → NoDup out → NoDup (put_perms perms out)
unfolding put_perms put_perm
NoDup-put_perms [] out d = d
NoDup-put_perms (wanted ∷ perms) out d =
    NoDup-put_perms perms (put_perm (parse_action wanted) out) (keep (parse_action wanted))
  where
    keep : (o : Option Action) → NoDup (put_perm o out)
    keep none = d
    keep (some a) = elim (Bool-cases (never_granted a)) [
      | inl e ↦ rw e d
      | inr e ↦ rw e (NoDup-put a out d)
    ]

pub NoDup-granted : (g : Grant) → NoDup (granted g)
unfolding granted with_edit
NoDup-granted g =
    let out = put_perms g.perms (put_all (role_actions g.role) []) in
    let d =
      NoDup-put_perms g.perms (put_all (role_actions g.role) [])
        (NoDup-put_all (role_actions g.role) [] tt) in
    elim (Bool-cases (member config_raw out)) [
      | inl e ↦ rw e (NoDup-put config_edit out d)
      | inr e ↦ rw e d
    ]

pub NoDup-everything : NoDup everything
unfolding everything
NoDup-everything = NoDup-put_all all_actions [] tt

member-all : (act : Action) → member act all_actions ≡ true
unfolding member same_action action_name
member-all instance_view = refl
member-all _ = refl

pub member-everything : (act : Action) → member act everything ≡ true
unfolding everything member
member-everything act = rw (member-put_all act all_actions [], member-all act) refl
