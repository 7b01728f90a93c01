-- ===== src/Kinds/Names.antt =====
-- The register resolves exactly its own names, and no lock key is another's.
use valmin.Shared.{
  ◌≡◌, refl, ap, ◌≢◌, ◌↔◌, List, [], ◌∷◌, some, arith, Text, text_eq_iff, append-cancel_left, codes,
}
use valmin.Kinds.{
  Kind, name, all_kinds, find_name, by_name, instance_lock_key, chain_lock_key, global_lock_key,
}
use valmin.Kinds.{provision}

find_name_sound :
    (ks : List Kind) (wanted : Text) (k : Kind) → find_name ks wanted ≡ some k → name k ≡ wanted
unfolding find_name
find_name_sound [] wanted k h = cc
find_name_sound (j ∷ ks) wanted k h =
    ground (arith, text_eq_iff (name j) wanted, find_name_sound ks wanted k)

by_name_sound : (wanted : Text) (k : Kind) → by_name wanted ≡ some k → name k ≡ wanted
unfolding by_name
by_name_sound wanted k h = find_name_sound all_kinds wanted k h

by_name-name : (k : Kind) → by_name (name k) ≡ some k
unfolding by_name find_name name
by_name-name provision = refl
by_name-name _ = refl

-- A text resolves to a kind exactly if it is the kind's wire name, so every kind of the register
-- is resolved and no two of them share a name.
pub by_name_iff : (wanted : Text) (k : Kind) → (by_name wanted ≡ some k) ↔ (name k ≡ wanted)
by_name_iff wanted k = (by_name_sound wanted k, λ e. rw (← e) (by_name-name k))

name-injective : (j k : Kind) → name j ≡ name k → j ≡ k
name-injective j k e = cc (by_name-name j, by_name-name k, ap by_name e)

-- Lock keys of one sort name their instance or kind, and keys of two sorts are never equal.
pub lock_keys_apart :
    (i j : Text) (k l : Kind)
    → (instance_lock_key i ≡ instance_lock_key j → i ≡ j)
      × (chain_lock_key i ≡ chain_lock_key j → i ≡ j)
      × (global_lock_key k ≡ global_lock_key l → k ≡ l)
      × (instance_lock_key i ≢ chain_lock_key j)
      × (instance_lock_key i ≢ global_lock_key k)
      × (chain_lock_key i ≢ global_lock_key k)
lock_keys_apart i j k l = (
  (λ e. append-cancel_left (codes "instance:") i j e),
  (λ e. append-cancel_left (codes "chain:") i j e),
  (λ e. name-injective k l (append-cancel_left (codes "global:") (name k) (name l) e)),
  (λ e. ground (arith, e)),
  (λ e. ground (arith, e)),
  (λ e. ground (arith, e)),
)
