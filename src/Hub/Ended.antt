-- ===== src/Hub/Ended.antt =====
-- The operations that end subscriptions, and the start of one, are moves.
use valmin.Shared.{
  suc, ◌≡◌, refl, inl, inr, Bool, true, false, not, ◌||◌, List, [], ◌∷◌, Option, none, some, arith,
  Text, Bool-cases,
}
use valmin.Authz.{commands_send}
use valmin.Topics.{Topic, action_of, parse}
use valmin.Hub.{Code, Message, Subscription, Conn, holds, forbidden}
use valmin.Hub.Subscribing.{
  drop, unsubscribe, unsubscribe_parsed, unsubscribe_all, set_replayed, open_source, push_replay,
  drop_told, recheck, recheck_each, drop_each, drop_instance, affected, Panel, and_then, last_seq,
  command, is_empty,
}
use valmin.Hub.Moves.{
  Thinned, done, skip, Thinned-refl, keys, Moves, Moves-refl, Moves-trans, same_queues,
  push_lossless-Moves, deliver_raw-Moves, some_injective,
}
use valmin.Hub.Moved.{drop-Moves, with_subs, keys-set_replayed}

pub drop_told-Moves :
    (pick : Bool) (t : Topic) (code : Code) (c d : Conn)
    → drop_told pick t code c ≡ some d
    → Moves c d
unfolding drop_told
drop_told-Moves pick t code c d e = elim (Bool-cases (holds t c)) [
  | inl h ↦ Moves-trans (drop-Moves t c) (deliver_raw-Moves pick _ (drop t c) d (rw h at e))
  | inr h ↦ rw (← some_injective (drop t c) d (rw h at e)) (drop-Moves t c)
]

-- A step of a loop that may wait, taken apart.
pub and_then-some :
    (o : Option Conn) (go : Conn → Option Conn) (d : Conn)
    → and_then o go ≡ some d
    → (c : Conn) × (o ≡ some c) × (go c ≡ some d)
and_then-some none go d e = cc e
and_then-some (some c) go d e = (c, refl, e)

pub drop_each-Moves :
    (pick : Bool) (code : Code) (subs : List Subscription) (c d : Conn)
    → drop_each pick code subs c ≡ some d
    → Moves c d
unfolding drop_each
drop_each-Moves pick code [] c d e = rw (← some_injective c d e) (Moves-refl c)
drop_each-Moves pick code (sub ∷ subs) c d e =
    let (b, f, g) = and_then-some _ _ d e in
    Moves-trans (drop_told-Moves pick sub.topic code c b f) (drop_each-Moves pick code subs b d g)

pub drop_instance-Moves :
    (pick : Bool) (id : Text) (code : Code) (c d : Conn)
    → drop_instance pick id code c ≡ some d
    → Moves c d
unfolding drop_instance
drop_instance-Moves pick id code c d e = drop_each-Moves pick code (affected id c.subs) c d e

pub recheck_each-Moves :
    (p : Panel) (pick : Bool) (id : Text) (subs : List Subscription) (c d : Conn)
    → recheck_each p pick id subs c ≡ some d
    → Moves c d
unfolding recheck_each
recheck_each-Moves p pick id [] c d e = rw (← some_injective c d e) (Moves-refl c)
recheck_each-Moves p pick id (sub ∷ subs) c d e =
    elim (Bool-cases (p.can (action_of sub.topic) id)) [
      | inl h ↦ recheck_each-Moves p pick id subs c d (rw h at e)
      | inr h ↦
          let (b, f, g) =
            and_then-some (drop_told pick sub.topic forbidden c) (recheck_each p pick id subs) d
              (rw h at e) in
          Moves-trans (drop_told-Moves pick sub.topic forbidden c b f)
            (recheck_each-Moves p pick id subs b d g)
    ]

abbrev pub count_recheck : Conn → Conn
count_recheck c = record c { grant_gen = suc c.grant_gen }

pub recheck-Moves :
    (p : Panel) (pick : Bool) (id : Text) (c d : Conn) → recheck p pick id c ≡ some d → Moves c d
unfolding recheck
recheck-Moves p pick id c d e =
    Moves-trans
      (same_queues c (count_recheck c) refl (λ h. h) (Thinned-refl (keys c.subs)) (omega arith))
      (recheck_each-Moves p pick id (affected id c.subs) (count_recheck c) d e)

pub unsubscribe-Moves :
    (pick : Bool) (text : Text) (c d : Conn) → unsubscribe pick text c ≡ some d → Moves c d
unfolding unsubscribe
unsubscribe-Moves pick text c d e = by_topic (parse text) e
  where
    by_topic : (o : Option Topic) → unsubscribe_parsed o pick text c ≡ some d → Moves c d
    by_topic none k = deliver_raw-Moves pick _ c d k
    by_topic (some t) k = rw (← some_injective (drop t c) d k) (drop-Moves t c)

Thinned-to_nil : (subs : List Subscription) → Thinned [] (keys subs)
Thinned-to_nil [] = done
Thinned-to_nil (sub ∷ subs) = skip (Thinned-to_nil subs)

pub unsubscribe_all-Moves : (c : Conn) → Moves c (unsubscribe_all c)
unfolding unsubscribe_all
unsubscribe_all-Moves c = with_subs c [] (Thinned-to_nil c.subs)

pub command-Moves :
    (p : Panel) (pick : Bool) (id : Text) (c d : Conn) → command p pick id c ≡ some d → Moves c d
unfolding command
command-Moves p pick id c d e = elim (Bool-cases (is_empty id || not (p.can commands_send id))) [
  | inl h ↦ deliver_raw-Moves pick _ c d (rw h at e)
  | inr h ↦ deliver_raw-Moves pick _ c d (rw h at e)
]

push_replay-Moves :
    (pick : Bool) (t : Topic) (replay : List Message) (r : Conn × Bool)
    → Moves r.0 (push_replay pick t replay r)
unfolding push_replay
push_replay-Moves pick t [] (c, ok) = Moves-refl c
push_replay-Moves pick t (m ∷ replay) (c, false) = Moves-refl c
push_replay-Moves pick t (m ∷ replay) (c, true) = push_lossless-Moves pick _ c

pub open_source-Moves :
    (pick : Bool) (t : Topic) (replay : List Message) (c : Conn)
    → Moves c (open_source pick t replay c)
unfolding open_source
open_source-Moves pick t replay c =
    Moves-trans
      (with_subs c (set_replayed t (last_seq replay) c.subs)
        (rw (keys-set_replayed t (last_seq replay) c.subs) (Thinned-refl (keys c.subs))))
      (Moves-trans (push_lossless-Moves pick _ _) (push_replay-Moves pick t replay _))
