-- ===== src/Kinds.antt =====
-- internal/jobs/kind.go: the closed register of job kinds, and the keys of their locks.
mod Names
mod Samples
use valmin.Shared.{
  Bool, true, false, List, [], ◌∷◌, ◌++◌, Option, none, some, Text, codes, text_eq, if◌then◌else◌,
}

pub data Kind : Type 0 where
  provision start stop restart delete world_import thunderstore_sync : Kind
  mod_install mod_uninstall mod_toggle backup restore prune update_check : Kind
  game_update clone config_apply adopt world_delete setup_save setup_restore : Kind
  setup_delete key_rotate webhook_deliver alert_scan diagnose remote_copy remote_test : Kind
  remote_prune remote_create world_tool chain update_test update_apply export : Kind

-- The wire name.
pub name : Kind → Text
name provision = codes "provision"
name start = codes "start"
name stop = codes "stop"
name restart = codes "restart"
name delete = codes "delete"
name world_import = codes "world_import"
name thunderstore_sync = codes "thunderstore_sync"
name mod_install = codes "mod_install"
name mod_uninstall = codes "mod_uninstall"
name mod_toggle = codes "mod_toggle"
name backup = codes "backup"
name restore = codes "restore"
name prune = codes "prune"
name update_check = codes "update_check"
name game_update = codes "game_update"
name clone = codes "clone"
name config_apply = codes "config_apply"
name adopt = codes "adopt"
name world_delete = codes "world_delete"
name setup_save = codes "setup_save"
name setup_restore = codes "setup_restore"
name setup_delete = codes "setup_delete"
name key_rotate = codes "key_rotate"
name webhook_deliver = codes "webhook_deliver"
name alert_scan = codes "alert_scan"
name diagnose = codes "diagnose"
name remote_copy = codes "remote_copy"
name remote_test = codes "remote_test"
name remote_prune = codes "remote_prune"
name remote_create = codes "remote_create"
name world_tool = codes "world_tool"
name chain = codes "chain"
name update_test = codes "update_test"
name update_apply = codes "update_apply"
name export = codes "export"

pub resume_intent_honoured : Kind → Bool
resume_intent_honoured backup = true
resume_intent_honoured _ = false

unfoldable pub needs_disk_room : Kind → Bool
needs_disk_room provision = true
needs_disk_room world_import = true
needs_disk_room mod_install = true
needs_disk_room backup = true
needs_disk_room restore = true
needs_disk_room game_update = true
needs_disk_room clone = true
needs_disk_room setup_save = true
needs_disk_room setup_restore = true
needs_disk_room world_tool = true
needs_disk_room update_test = true
needs_disk_room update_apply = true
needs_disk_room export = true
needs_disk_room _ = false

abbrev pub all_kinds : List Kind
all_kinds =
    provision ∷ start ∷ stop ∷ restart ∷ delete ∷ world_import ∷ thunderstore_sync ∷ mod_install
    ∷ mod_uninstall ∷ mod_toggle ∷ backup ∷ restore ∷ prune ∷ update_check ∷ game_update ∷ clone
    ∷ config_apply ∷ adopt ∷ world_delete ∷ setup_save ∷ setup_restore ∷ setup_delete ∷ key_rotate
    ∷ webhook_deliver ∷ alert_scan ∷ diagnose ∷ remote_copy ∷ remote_test ∷ remote_prune
    ∷ remote_create ∷ world_tool ∷ chain ∷ update_test ∷ update_apply ∷ export ∷ []

-- The loop of `ByName`.
find_name : List Kind → Text → Option Kind
find_name [] wanted = none
find_name (k ∷ ks) wanted =
    let rest = find_name ks wanted in if text_eq (name k) wanted then some k else rest

pub by_name : Text → Option Kind
unfolding find_name
by_name wanted = find_name all_kinds wanted

abbrev pub instance_lock_key : Text → Text
instance_lock_key id = codes "instance:" ++ id

abbrev pub chain_lock_key : Text → Text
chain_lock_key id = codes "chain:" ++ id

abbrev pub global_lock_key : Kind → Text
global_lock_key k = codes "global:" ++ name k
