-- ===== src/Authz.antt =====
-- internal/authz: the closed set of actions, and what a user may do.
mod Grants
mod Decisions
mod Samples
use valmin.Shared.{
  Bool, true, false, not, ◌&&◌, ◌||◌, List, [], ◌∷◌, ◌++◌, Option, none, some, Text, codes, text_eq,
  if◌then◌else◌, sort_on,
}

pub data Action : Type 0 where
  instance_view console_read stats_read backups_list mods_list config_read : Action
  instance_start instance_stop instance_restart backups_create backups_download : Action
  players_manage commands_send : Action
  mods_manage config_edit config_raw backups_restore world_import instance_settings : Action
  notifications_manage : Action
  instance_create instance_delete instance_clone instance_adopt instance_limits : Action
  instance_extra_args instance_image instance_update setups_manage world_tools : Action
  commands_unrestricted users_manage invites_manage grants_manage schedules_global : Action
  panel_settings audit_read : Action

pub action_name : Action → Text
action_name instance_view = codes "instance.view"
action_name console_read = codes "console.read"
action_name stats_read = codes "stats.read"
action_name backups_list = codes "backups.list"
action_name mods_list = codes "mods.list"
action_name config_read = codes "config.read"
action_name instance_start = codes "instance.start"
action_name instance_stop = codes "instance.stop"
action_name instance_restart = codes "instance.restart"
action_name backups_create = codes "backups.create"
action_name backups_download = codes "backups.download"
action_name players_manage = codes "players.manage"
action_name commands_send = codes "commands.send"
action_name mods_manage = codes "mods.manage"
action_name config_edit = codes "config.edit"
action_name config_raw = codes "config.raw"
action_name backups_restore = codes "backups.restore"
action_name world_import = codes "world.import"
action_name instance_settings = codes "instance.settings"
action_name notifications_manage = codes "notifications.manage"
action_name instance_create = codes "instance.create"
action_name instance_delete = codes "instance.delete"
action_name instance_clone = codes "instance.clone"
action_name instance_adopt = codes "instance.adopt"
action_name instance_limits = codes "instance.limits"
action_name instance_extra_args = codes "instance.extra_args"
action_name instance_image = codes "instance.image"
action_name instance_update = codes "instance.update"
action_name setups_manage = codes "setups.manage"
action_name world_tools = codes "world.tools"
action_name commands_unrestricted = codes "commands.unrestricted"
action_name users_manage = codes "users.manage"
action_name invites_manage = codes "invites.manage"
action_name grants_manage = codes "grants.manage"
action_name schedules_global = codes "schedules.global"
action_name panel_settings = codes "panel.settings"
action_name audit_read = codes "audit.read"

abbrev pub viewer_actions : List Action
viewer_actions =
    instance_view ∷ console_read ∷ stats_read ∷ backups_list ∷ mods_list ∷ config_read ∷ []

abbrev pub operator_extra : List Action
operator_extra =
    instance_start ∷ instance_stop ∷ instance_restart ∷ backups_create ∷ backups_download
    ∷ players_manage ∷ commands_send ∷ []

abbrev pub grantable_extras : List Action
grantable_extras =
    mods_manage ∷ config_edit ∷ config_raw ∷ backups_restore ∷ world_import ∷ instance_settings
    ∷ notifications_manage ∷ []

abbrev pub never_grantable : List Action
never_grantable =
    instance_create ∷ instance_delete ∷ instance_clone ∷ instance_adopt ∷ instance_limits
    ∷ instance_extra_args ∷ instance_image ∷ instance_update ∷ setups_manage ∷ world_tools
    ∷ commands_unrestricted ∷ users_manage ∷ invites_manage ∷ grants_manage ∷ schedules_global
    ∷ panel_settings ∷ audit_read ∷ []

abbrev pub all_actions : List Action
all_actions = viewer_actions ++ operator_extra ++ grantable_extras ++ never_grantable

-- `==` on actions compares the names that they hold.
pub same_action : Action → Action → Bool
same_action a b = text_eq (action_name a) (action_name b)

-- A `map[Action]bool` as the list of its keys.
pub member : Action → List Action → Bool
unfolding same_action
member act [] = false
member act (a ∷ actions) = same_action a act || member act actions

pub never_granted : Action → Bool
unfolding member
never_granted act = member act never_grantable

pub find_action : List Action → Text → Option Action
find_action [] wanted = none
find_action (a ∷ actions) wanted =
    let rest = find_action actions wanted in if text_eq (action_name a) wanted then some a else rest

-- `byName`, and `ParseAction` and `Grantable` on it.
pub parse_action : Text → Option Action
unfolding find_action
parse_action wanted = find_action all_actions wanted

pub grantable : Action → Bool
grantable act = not (never_granted act)

-- `roleActions[role]`, with an unknown role as the missing key.
pub role_actions : Text → List Action
role_actions role =
    if text_eq role (codes "viewer")
    then viewer_actions
    else if text_eq role (codes "operator")
    then viewer_actions ++ operator_extra
    else []

pub record Grant : Type 0 where
  pub role : Text
  pub perms : List Text

-- `out[act] = true`, and the loops that do so.
pub put : Action → List Action → List Action
put act out = if member act out then out else act ∷ out

pub put_all : List Action → List Action → List Action
put_all [] out = out
put_all (a ∷ actions) out = put_all actions (put a out)

-- What one of the perms does to the set: a name of no action, and an action that is never
-- granted, are passed over.
pub put_perm : Option Action → List Action → List Action
put_perm none out = out
put_perm (some act) out = if never_granted act then out else put act out

pub put_perms : List Text → List Action → List Action
put_perms [] out = out
put_perms (wanted ∷ perms) out = put_perms perms (put_perm (parse_action wanted) out)

pub with_edit : List Action → List Action
with_edit out = if member config_raw out then put config_edit out else out

pub granted : Grant → List Action
granted g = with_edit (put_perms g.perms (put_all (role_actions g.role) []))

pub everything : List Action
unfolding put_all
everything = put_all all_actions []

pub record User : Type 0 where
  pub id : Text
  pub role : Text
  pub disabled : Bool

abbrev pub is_admin : User → Bool
is_admin u = text_eq u.role (codes "admin")

-- A lookup of a grant: it fails, or there is a grant or none.
pub data Lookup : Type 0 where
  failed : Lookup
  found : Option Grant → Lookup

abbrev is_empty : Text → Bool
is_empty [] = true
is_empty (c ∷ s) = false

-- The reasons of `decide`.
pub data Decision : Type 0 where
  no_user disabled_user not_grantable no_global_capability lookup_failed no_grant not_carried :
      Decision
  allowed : Decision

abbrev pub is_allowed : Decision → Bool
is_allowed allowed = true
is_allowed _ = false

decide_on : Lookup → Action → Decision
decide_on failed act = lookup_failed
decide_on (found none) act = no_grant
decide_on (found (some g)) act = if not (member act (granted g)) then not_carried else allowed

-- `GrantFor` is the first argument.
pub decide : (Text → Text → Lookup) → Option User → Action → Text → Decision
decide grant_for none act instance_id = no_user
decide grant_for (some u) act instance_id =
    if u.disabled
    then disabled_user
    else if is_admin u
    then allowed
    else if never_granted act
    then not_grantable
    else if is_empty instance_id
    then no_global_capability
    else decide_on (grant_for u.id instance_id) act

pub can : (Text → Text → Lookup) → Option User → Action → Text → Bool
can grant_for u act instance_id = is_allowed (decide grant_for u act instance_id)

-- `slices.SortFunc` on the keys of a map.
abbrev pub sorted : List Action → List Action
sorted actions = sort_on action_name actions

granted_by : Lookup → Option (List Action)
granted_by failed = none
granted_by (found none) = some []
granted_by (found (some g)) = some (sorted (granted g))

-- `Allowed`: `none` is the error of the lookup.
pub allowed_actions : (Text → Text → Lookup) → Option User → Text → Option (List Action)
allowed_actions grant_for none instance_id = some []
allowed_actions grant_for (some u) instance_id =
    if u.disabled
    then some []
    else if is_admin u
    then some (sorted everything)
    else granted_by (grant_for u.id instance_id)

-- The ids that `VisibleInstances` answers, and whether all are meant.
pub record Visible : Type 0 where
  pub ids : List Text
  pub all : Bool

visible_ids : Option (List Text) → Option Visible
visible_ids none = none
visible_ids (some ids) = some (record { ids = ids; all = false })

-- `GrantedInstances` is the first argument: `none` is its error, and so it is here.
pub visible_instances : (Text → Option (List Text)) → Option User → Option Visible
visible_instances granted_instances none = some (record { ids = []; all = false })
visible_instances granted_instances (some u) =
    if u.disabled
    then some (record { ids = []; all = false })
    else if is_admin u
    then some (record { ids = []; all = true })
    else visible_ids (granted_instances u.id)
