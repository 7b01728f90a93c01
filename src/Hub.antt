-- ===== src/Hub.antt =====
-- internal/ws/conn.go: one connection of the event hub, its two queues and its writer.
mod Writer
mod Subscribing
mod Moves
mod Moved
mod Ended
mod Registering
mod Steps
mod Bounds
mod Seen
mod Runs
mod Revoked
mod Granted
mod Gaps
mod Registry
mod Caps
mod Capped
mod Admission
mod Samples
use valmin.Shared.{
  ℕ, suc, ◌+◌, ◌-◌, Bool, true, false, not, ◌&&◌, ◌||◌, List, [], ◌∷◌, ◌++◌, Option, none, some,
  Text, text_eq, if◌then◌else◌, ◌==◌, leb, ltb, length,
}
use valmin.Topics.{
  Topic, TopicKind, kind_console, kind_stats, kind_state, kind_job, Class, lossy, lossless,
  class_of,
}

pub data Code : Type 0 where
  invalid_parameter rate_limited not_found forbidden unsupported : Code

-- What a frame carries: a message of a source as its text, or one of the connection's own.
pub data Payload : Type 0 where
  raw : Text → Payload
  pong : Payload
  error_msg : Text → Code → Payload
  subscribed : Topic → ℕ → Payload
  gap : Option Topic → (dropped from_seq : ℕ) → Payload

pub record Message : Type 0 where
  pub seq : ℕ
  pub payload : Payload

-- The zero topic, of frames that belong to none, is `none`; a nil replay is empty.
pub record Outbound : Type 0 where
  pub topic : Option Topic
  pub seq : ℕ
  pub payload : Payload
  pub replay : List Message

-- A live subscription; one that was dropped stands in no list.
pub record Subscription : Type 0 where
  pub topic : Topic
  pub instance_id : Text
  pub replayed : ℕ
  pub next_seq : ℕ

pub data CloseCode : Type 0 where
  normal_closure going_away policy_violation internal_error session_expired : CloseCode

-- The two channels are the lists of what they hold. `done` is closed exactly if there is a code.
pub record Conn : Type 0 where
  pub lossy_queue : List Outbound
  pub lossless_queue : List Outbound
  pub closed_with : Option CloseCode
  pub subs : List Subscription
  pub grant_gen : ℕ
  pub stuck_since : Option ℕ

abbrev pub queue_depth : ℕ
queue_depth = 256

abbrev pub max_topics : ℕ
max_topics = 64

-- Times are in nanoseconds.
abbrev pub stuck_timeout : ℕ
stuck_timeout = 30000000000

abbrev pub new_conn : Conn
new_conn = record {
  lossy_queue = [];
  lossless_queue = [];
  closed_with = none;
  subs = [];
  grant_gen = 0;
  stuck_since = none;
}

abbrev pub is_closed : Option CloseCode → Bool
is_closed none = false
is_closed (some code) = true

-- `close`: the first one wins.
abbrev pub close_code : CloseCode → Option CloseCode → Option CloseCode
close_code code none = some code
close_code code (some first) = some first

pub close : CloseCode → Conn → Conn
close code c = record c { closed_with = close_code code c.closed_with }

-- How a `select` with a send and a receive from `done` ends; `pick` is Go's choice where both
-- are ready.
pub data Offer : Type 0 where
  queued gone full : Offer

pub offer : (pick closed : Bool) → List Outbound → Offer
offer pick closed q =
    if ltb (length q) queue_depth
    then if closed && not pick then gone else queued
    else if closed
    then gone
    else full

push_lossless_as : Offer → Outbound → Conn → Conn × Bool
unfolding close
push_lossless_as queued ob c = (record c { lossless_queue = c.lossless_queue ++ ob ∷ [] }, true)
push_lossless_as gone ob c = (c, false)
push_lossless_as full ob c = (close internal_error c, false)

-- `pushLossless`.
pub push_lossless : Bool → Outbound → Conn → Conn × Bool
unfolding push_lossless_as offer
push_lossless pick ob c =
    push_lossless_as (offer pick (is_closed c.closed_with) c.lossless_queue) ob c

deliver_raw_as : Offer → Outbound → Conn → Option Conn
deliver_raw_as queued ob c = some (record c { lossless_queue = c.lossless_queue ++ ob ∷ [] })
deliver_raw_as gone ob c = some c
deliver_raw_as full ob c = none

-- `deliverRaw`, for a frame of no topic; `none` is a caller that waits for room.
pub deliver_raw : Bool → Payload → Conn → Option Conn
unfolding deliver_raw_as offer
deliver_raw pick payload c =
    deliver_raw_as (offer pick (is_closed c.closed_with) c.lossless_queue)
      (record { topic = none; seq = 0; payload = payload; replay = [] }) c

abbrev pub send_error : Bool → Text → Code → Conn → Option Conn
send_error pick topic code = deliver_raw pick (error_msg topic code)

stuck_too_long : ℕ → Option ℕ → Bool
stuck_too_long now none = false
stuck_too_long now (some since) = ltb stuck_timeout (now - since)

abbrev stamp : ℕ → Option ℕ → Option ℕ
stamp now none = some now
stamp now (some since) = some since

abbrev drop_oldest : List Outbound → List Outbound
drop_oldest [] = []
drop_oldest (ob ∷ q) = q

abbrev append_if_room : List Outbound → Outbound → List Outbound
append_if_room q ob = if ltb (length q) queue_depth then q ++ ob ∷ [] else q

push_lossy_as : Offer → ℕ → Outbound → Conn → Conn × Bool
unfolding close stuck_too_long
push_lossy_as queued now ob c =
    (record c { lossy_queue = c.lossy_queue ++ ob ∷ []; stuck_since = none }, true)
push_lossy_as gone now ob c = (c, false)
push_lossy_as full now ob c =
    if stuck_too_long now c.stuck_since then (close internal_error c, false) else (
      record c {
        lossy_queue = append_if_room (drop_oldest c.lossy_queue) ob;
        stuck_since = stamp now c.stuck_since;
      },
      true,
    )

-- `push` for a lossy topic.
pub push_lossy : Bool → ℕ → Outbound → Conn → Conn × Bool
unfolding push_lossy_as offer
push_lossy pick now ob c =
    push_lossy_as (offer pick (is_closed c.closed_with) c.lossy_queue) now ob c

abbrev push_class : Class → Bool → ℕ → Outbound → Conn → Conn × Bool
push_class lossless pick now ob c = push_lossless pick ob c
push_class lossy pick now ob c = push_lossy pick now ob c

-- `push`.
pub push : Bool → ℕ → Topic → ℕ → Payload → Conn → Conn × Bool
unfolding push_lossless push_lossy
push pick now t seq payload c =
    push_class (class_of t) pick now
      (record { topic = some t; seq = seq; payload = payload; replay = [] }) c

abbrev kind_eq : TopicKind → TopicKind → Bool
kind_eq kind_console kind_console = true
kind_eq kind_stats kind_stats = true
kind_eq kind_state kind_state = true
kind_eq kind_job kind_job = true
kind_eq _ _ = false

abbrev pub topic_eq : Topic → Topic → Bool
topic_eq t u = kind_eq t.kind u.kind && text_eq t.id u.id

-- `c.subs[t]`.
abbrev pub find_sub : Topic → List Subscription → Option Subscription
find_sub t [] = none
find_sub t (sub ∷ subs) = if topic_eq sub.topic t then some sub else find_sub t subs

abbrev pub is_found : Option Subscription → Bool
is_found none = false
is_found (some sub) = true

-- `holds`.
abbrev pub holds : Topic → Conn → Bool
holds t c = is_found (find_sub t c.subs)

-- `deliver`, which the hub's Publish functions call on every connection.
pub deliver : Bool → ℕ → Topic → Message → Conn → Conn
unfolding push
deliver pick now t m c = if holds t c then (push pick now t m.seq m.payload c).0 else c
