-- ===== src/Hub/Subscribing.antt =====
-- internal/ws/subscribe.go: subscriptions, their authorization, and what ends them.
use valmin.Shared.{
  ℕ, suc, Bool, true, false, not, ◌&&◌, ◌||◌, List, [], ◌∷◌, Option, none, some, Text, text_eq,
  if◌then◌else◌, ◌==◌, leb, length,
}
use valmin.Authz.{Action, instance_view, commands_send}
use valmin.Topics.{
  Topic, TopicKind, kind_job, Class, lossy, lossless, class_of, action_of, parse, wire,
}
use valmin.Hub.{
  Code, invalid_parameter, rate_limited, not_found, forbidden, unsupported, subscribed, Message,
  Subscription, Conn, max_topics, push, push_lossless, send_error, topic_eq, find_sub, holds,
}

-- What the hub asks: the existence of an instance, the instance of a job, `Can` for the user of
-- the connection, and the replay of a source. A lookup that fails is `none`, and so is the source
-- of a topic that has none.
pub record Panel : Type 0 where
  pub instance_exists : Text → Option Bool
  pub job_instance : Text → Option (Option Text)
  pub can : Action → Text → Bool
  pub replay_of : Topic → Option (List Message)

abbrev pub allow : Bool → Text → Option Text
allow true id = some id
allow false id = none

-- An empty instance is `Can`'s to answer like any other.
unfoldable pub authorize_job : Panel → Option (Option Text) → Option Text
authorize_job p none = none
authorize_job p (some none) = none
authorize_job p (some (some id)) = allow (p.can instance_view id) id

unfoldable pub authorize_instance : Panel → Option Bool → Topic → Option Text
authorize_instance p none t = none
authorize_instance p (some false) t = none
authorize_instance p (some true) t = allow (p.can (action_of t) t.id) t.id

abbrev pub is_job : TopicKind → Bool
is_job kind_job = true
is_job _ = false

-- `authorize`: the instance, where it is allowed.
unfoldable pub authorize : Panel → Topic → Option Text
unfolding authorize_job authorize_instance
authorize p t =
    if is_job t.kind
    then authorize_job p (p.job_instance t.id)
    else authorize_instance p (p.instance_exists t.id) t

-- `delete(c.subs, t)`.
unfoldable pub without : Topic → List Subscription → List Subscription
without t [] = []
without t (sub ∷ subs) =
    let rest = without t subs in if topic_eq sub.topic t then rest else sub ∷ rest

-- `drop`.
unfoldable pub drop : Topic → Conn → Conn
unfolding without
drop t c = record c { subs = without t c.subs }

-- `unsubscribeAll`.
unfoldable pub unsubscribe_all : Conn → Conn
unsubscribe_all c = record c { subs = [] }

unfoldable pub unsubscribe_parsed : Option Topic → Bool → Text → Conn → Option Conn
unfolding drop
unsubscribe_parsed none pick text c = send_error pick text invalid_parameter c
unsubscribe_parsed (some t) pick text c = some (drop t c)

-- `unsubscribe`.
unfoldable pub unsubscribe : Bool → Text → Conn → Option Conn
unfolding unsubscribe_parsed
unsubscribe pick text c = unsubscribe_parsed (parse text) pick text c

-- A subscription that has been authorized and is not yet registered.
pub record Pending : Type 0 where
  pub topic : Topic
  pub instance_id : Text
  pub gen : ℕ

-- How the first half of `subscribe` ends: with an answer, or authorized.
pub data Begun : Type 0 where
  answered : Option Conn → Begun
  authorized : Pending → Begun

unfoldable pub begin_allowed : Option Text → Bool → Topic → Text → Conn → Begun
begin_allowed none pick t text c = answered (send_error pick text not_found c)
begin_allowed (some id) pick t text c =
    authorized (record { topic = t; instance_id = id; gen = c.grant_gen })

unfoldable pub begin_parsed : Panel → Option Topic → Bool → Text → Conn → Begun
unfolding begin_allowed
begin_parsed p none pick text c = answered (send_error pick text invalid_parameter c)
begin_parsed p (some t) pick text c =
    if holds t c
    then answered (some c)
    else if leb max_topics (length c.subs)
    then answered (send_error pick text rate_limited c)
    else begin_allowed (authorize p t) pick t text c

-- `subscribe`, up to its authorization.
unfoldable pub begin : Panel → Bool → Text → Conn → Begun
unfolding begin_parsed
begin p pick text c = begin_parsed p (parse text) pick text c

unfoldable pub last_seq : List Message → ℕ
last_seq [] = 0
last_seq (m ∷ []) = m.seq
last_seq (m ∷ n ∷ ms) = last_seq (n ∷ ms)

-- `sub.replayed = …`.
unfoldable pub set_replayed : Topic → ℕ → List Subscription → List Subscription
set_replayed t seq [] = []
set_replayed t seq (sub ∷ subs) =
    let rest = set_replayed t seq subs in
    if topic_eq sub.topic t then record sub { replayed = seq } ∷ rest else sub ∷ rest

abbrev pub replay_list : Option (List Message) → List Message
replay_list none = []
replay_list (some replay) = replay

unfoldable pub push_replay : Bool → Topic → List Message → Conn × Bool → Conn
push_replay pick t [] (c, ok) = c
push_replay pick t (m ∷ replay) (c, false) = c
push_replay pick t (m ∷ replay) (c, true) =
    (push_lossless pick
      (record { topic = some t; seq = 0; payload = m.payload; replay = m ∷ replay }) c).0

-- The acknowledgement and the replay, queued ahead of every live message.
unfoldable pub open_source : Bool → Topic → List Message → Conn → Conn
unfolding last_seq set_replayed push_lossless push_replay
open_source pick t replay c = push_replay pick t replay (
    push_lossless pick
      (record { topic = some t; seq = 0; payload = subscribed t (last_seq replay); replay = [] })
      (record c { subs = set_replayed t (last_seq replay) c.subs }))

unfoldable pub recheck_missed : Option Text → Panel → Bool → Topic → Text → Conn → Option Conn
unfolding open_source drop
recheck_missed none p pick t text c = send_error pick text not_found (drop t c)
recheck_missed (some id) p pick t text c = some (open_source pick t (replay_list (p.replay_of t)) c)

-- `subscribe`, from the registration on.
unfoldable pub register : Panel → Bool → Text → Pending → Conn → Option Conn
unfolding recheck_missed open_source authorize
register p pick text w c =
    if holds w.topic c
    then some c
    else let c' : Conn = record c {
      subs =
          record { topic = w.topic; instance_id = w.instance_id; replayed = 0; next_seq = 0 }
          ∷ c.subs;
    } in
      if c.grant_gen == w.gen
      then some (open_source pick w.topic (replay_list (p.replay_of w.topic)) c')
      else recheck_missed (authorize p w.topic) p pick w.topic text c'

-- The subscriptions of an instance, in the order of the loop.
unfoldable pub affected : Text → List Subscription → List Subscription
affected id [] = []
affected id (sub ∷ subs) =
    let rest = affected id subs in if text_eq sub.instance_id id then sub ∷ rest else rest

abbrev pub and_then : Option Conn → (Conn → Option Conn) → Option Conn
and_then none go = none
and_then (some c) go = go c

-- The drop of one subscription, and the answer where it was there.
unfoldable pub drop_told : Bool → Topic → Code → Conn → Option Conn
unfolding drop
drop_told pick t code c =
    if holds t c then send_error pick (wire t) code (drop t c) else some (drop t c)

unfoldable pub recheck_each : Panel → Bool → Text → List Subscription → Conn → Option Conn
unfolding drop_told
recheck_each p pick id [] c = some c
recheck_each p pick id (sub ∷ subs) c =
    if p.can (action_of sub.topic) id
    then recheck_each p pick id subs c
    else and_then (drop_told pick sub.topic forbidden c) (recheck_each p pick id subs)

-- `recheck`.
unfoldable pub recheck : Panel → Bool → Text → Conn → Option Conn
unfolding recheck_each affected
recheck p pick id c =
    recheck_each p pick id (affected id c.subs) (record c { grant_gen = suc c.grant_gen })

unfoldable pub drop_each : Bool → Code → List Subscription → Conn → Option Conn
unfolding drop_told
drop_each pick code [] c = some c
drop_each pick code (sub ∷ subs) c =
    and_then (drop_told pick sub.topic code c) (drop_each pick code subs)

-- `dropInstance`.
unfoldable pub drop_instance : Bool → Text → Code → Conn → Option Conn
unfolding drop_each affected
drop_instance pick id code c = drop_each pick code (affected id c.subs) c

abbrev pub is_lossy : Class → Bool
is_lossy lossy = true
is_lossy lossless = false

-- `sub.nextSeq++`.
unfoldable pub bump_next : Topic → List Subscription → List Subscription
bump_next t [] = []
bump_next t (sub ∷ subs) =
    let rest = bump_next t subs in
    if topic_eq sub.topic t then record sub { next_seq = suc sub.next_seq } ∷ rest else sub ∷ rest

unfoldable pub send_held : Bool → ℕ → Topic → Option Subscription → Message → Conn → Conn
unfolding bump_next push
send_held pick now t none m c = c
send_held pick now t (some sub) m c =
    if not (m.seq == 0) && leb m.seq sub.replayed
    then c
    else if m.seq == 0 && is_lossy (class_of t)
    then (push pick now t (suc sub.next_seq) m.payload (record c { subs = bump_next t c.subs })).0
    else (push pick now t m.seq m.payload c).0

-- `sendLive`; what a source sends after its subscription ended is discarded.
unfoldable pub send_live : Bool → ℕ → Topic → Message → Conn → Conn
unfolding send_held
send_live pick now t m c = send_held pick now t (find_sub t c.subs) m c

abbrev pub is_empty : Text → Bool
is_empty [] = true
is_empty (b ∷ s) = false

-- `command`.
unfoldable pub command : Panel → Bool → Text → Conn → Option Conn
command p pick id c =
    if is_empty id || not (p.can commands_send id)
    then send_error pick [] not_found c
    else send_error pick [] unsupported c
