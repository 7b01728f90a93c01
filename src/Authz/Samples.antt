-- ===== src/Authz/Samples.antt =====
-- Authorization at concrete users and grants.
use valmin.Shared.{
  ◌≡◌, refl, ◌↔◌, ◌⊎◌, true, false, List, [], ◌∷◌, none, some, Text, text_eq, codes, if◌then◌else◌,
}
use valmin.Authz.{
  Action, action_name, same_action, never_granted, Grant, User, is_admin, is_empty, Lookup, found,
  can, allowed_actions, parse_action, config_edit, config_raw, instance_view, mods_manage,
  instance_delete, granted, member, role_actions, granted_by, decide, decide_on, with_edit,
  put_perms, put_perm, put, put_all, backups_list, config_read, console_read, mods_list, stats_read,
}
use valmin.Authz.Decisions.{Carried, can_iff, Lists, allowed_actions-can}

abbrev raw_viewer : Grant
raw_viewer = record {
  role = codes "viewer";
  perms = codes "config.raw" ∷ codes "instance.delete" ∷ codes "no.such" ∷ [];
}

abbrev here : Text
here = codes "i"

abbrev grant_for : Text → Text → Lookup
grant_for user instance_id = found (if text_eq instance_id here then some raw_viewer else none)

abbrev ann : User
ann = record { id = codes "u"; role = codes "member"; disabled = false }

can_iff_example : (can grant_for (some ann) config_edit here ≡ true) ↔ (
    (u : User) × (some ann ≡ some u)
    × (u.disabled ≡ false)
    × ((is_admin u ≡ true)
        ⊎ (never_granted config_edit ≡ false)
          × (is_empty here ≡ false)
          × Carried (grant_for u.id here) config_edit))
can_iff_example = can_iff grant_for (some ann) config_edit here

raw_implies_edit :
    (can grant_for (some ann) config_edit here ≡ true)
    × (can grant_for (some ann) mods_manage here ≡ false)
    × (can grant_for (some ann) instance_delete here ≡ false)
unfolding can decide never_granted action_name decide_on granted with_edit put_perms put_perm
    parse_action put put_all role_actions
raw_implies_edit = (refl, refl, refl)

abbrev held_here : List Action
held_here =
    backups_list ∷ config_edit ∷ config_raw ∷ config_read ∷ console_read ∷ instance_view ∷ mods_list
    ∷ stats_read ∷ []

listed_here : allowed_actions grant_for (some ann) here ≡ some held_here
unfolding allowed_actions granted_by never_granted action_name granted with_edit put_perms put_perm
    parse_action put put_all role_actions
listed_here = refl

allowed_actions-can_example : Lists (λ act. can grant_for (some ann) act here) held_here
allowed_actions-can_example =
    allowed_actions-can grant_for (some ann) here held_here refl listed_here

delete_never : never_granted instance_delete ≡ true
unfolding never_granted member same_action action_name
delete_never = refl
