-- ===== src/Hub/Steps.antt =====
-- internal/ws/conn.go, subscribe.go: what happens to one connection, one step at a time.
use valmin.Shared.{ℕ, ◌≡◌, Bool, List, [], ◌∷◌, ◌++◌, Option, none, some, Text}
use valmin.Topics.{Topic, Class, lossy, lossless}
use valmin.Hub.{
  Code, Payload, Message, Outbound, Conn, CloseCode, new_conn, close, deliver_raw, deliver,
}
use valmin.Hub.Writer.{write_frame, next_frame, write_failed}
use valmin.Hub.Subscribing.{
  Panel, Pending, answered, authorized, begin, register, unsubscribe, unsubscribe_all, recheck,
  drop_instance, send_live, command,
}

-- A connection with the locals of its two loops: the subscription that the reader is about to
-- register, and what the writer knows, has taken and has handed to the socket.
pub record Session : Type 0 where
  pub conn : Conn
  pub pending : Option Pending
  pub last : List (Option Topic × ℕ)
  pub taken_lossless : List Outbound
  pub taken_lossy : List Outbound
  pub written : List Payload

abbrev pub new_session : Session
new_session = record {
  conn = new_conn;
  pending = none;
  last = [];
  taken_lossless = [];
  taken_lossy = [];
  written = [];
}

abbrev pub log_lossless : Class → Outbound → List Outbound → List Outbound
log_lossless lossless ob obs = obs ++ ob ∷ []
log_lossless lossy ob obs = obs

abbrev pub log_lossy : Class → Outbound → List Outbound → List Outbound
log_lossy lossless ob obs = obs
log_lossy lossy ob obs = obs ++ ob ∷ []

-- A frame that the writer takes and writes.
unfoldable pub after_write : Session → Class → Outbound → Conn → Session
unfolding write_frame
after_write s k ob c =
    let (payloads, last) = write_frame c s.last ob in
    record s {
      conn = c;
      last = last;
      taken_lossless = log_lossless k ob s.taken_lossless;
      taken_lossy = log_lossy k ob s.taken_lossy;
      written = s.written ++ payloads;
    }

-- The steps of the reader, of the hub and the sources, and of the writer. A call that waits for
-- room is no step until there is room.
pub data Step (p : Panel) : Session → Session → Type 0 where
  begins :
      (s : Session) (pick : Bool) (text : Text) (w : Pending)
      → s.pending ≡ none
      → begin p pick text s.conn ≡ authorized w
      → Step p s (record s { pending = some w })
  answers :
      (s : Session) (pick : Bool) (text : Text) (c : Conn)
      → begin p pick text s.conn ≡ answered (some c)
      → Step p s (record s { conn = c })
  registers :
      (s : Session) (pick : Bool) (text : Text) (w : Pending) (c : Conn)
      → s.pending ≡ some w
      → register p pick text w s.conn ≡ some c
      → Step p s (record s { conn = c; pending = none })
  unsubscribes :
      (s : Session) (pick : Bool) (text : Text) (c : Conn)
      → unsubscribe pick text s.conn ≡ some c
      → Step p s (record s { conn = c })
  commands :
      (s : Session) (pick : Bool) (id : Text) (c : Conn)
      → command p pick id s.conn ≡ some c
      → Step p s (record s { conn = c })
  tells :
      (s : Session) (pick : Bool) (payload : Payload) (c : Conn)
      → deliver_raw pick payload s.conn ≡ some c
      → Step p s (record s { conn = c })
  leaves : (s : Session) → Step p s (record s { conn = unsubscribe_all s.conn })
  rechecks :
      (s : Session) (pick : Bool) (id : Text) (c : Conn)
      → recheck p pick id s.conn ≡ some c
      → Step p s (record s { conn = c })
  deletes :
      (s : Session) (pick : Bool) (id : Text) (code : Code) (c : Conn)
      → drop_instance pick id code s.conn ≡ some c
      → Step p s (record s { conn = c })
  publishes :
      (s : Session) (pick : Bool) (now : ℕ) (t : Topic) (m : Message)
      → Step p s (record s { conn = deliver pick now t m s.conn })
  sends :
      (s : Session) (pick : Bool) (now : ℕ) (t : Topic) (m : Message)
      → Step p s (record s { conn = send_live pick now t m s.conn })
  closes : (s : Session) (code : CloseCode) → Step p s (record s { conn = close code s.conn })
  fails : (s : Session) → Step p s (record s { conn = write_failed s.conn })
  writes :
      (s : Session) (late : Bool) (k : Class) (ob : Outbound) (c : Conn)
      → next_frame late s.conn ≡ some (k, ob, c)
      → Step p s (after_write s k ob c)

pub data Run (p : Panel) (s : Session) : Session → Type 0 where
  here : Run p s s
  next : {t u : Session} → Run p s t → Step p t u → Run p s u
