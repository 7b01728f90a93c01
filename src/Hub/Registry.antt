-- ===== src/Hub/Registry.antt =====
-- internal/ws/hub.go: the registered connections and their caps.
use valmin.Shared.{
  ℕ, suc, Bool, true, ◌&&◌, List, [], ◌∷◌, Option, none, some, Text, text_eq, if◌then◌else◌, ◌==◌,
  ltb,
}
use valmin.Hub.{CloseCode, going_away, policy_violation, session_expired, close_code}

-- A registered connection, as far as the hub looks at it; `number` tells connections apart.
pub record Client : Type 0 where
  pub number : ℕ
  pub user_id : Text
  pub session_id : Text
  pub connected_at : ℕ
  pub closed_with : Option CloseCode

pub record Hub : Type 0 where
  pub conns : List Client
  pub closed : Bool

abbrev pub max_per_session : ℕ
max_per_session = 8

abbrev pub max_per_user : ℕ
max_per_user = 32

-- `tally`.
pub record Tally : Type 0 where
  pub n : ℕ
  pub oldest : Option Client

abbrev pub no_tally : Tally
no_tally = record { n = 0; oldest = none }

unfoldable pub older : Client → Option Client → Option Client
older c none = some c
older c (some o) = if ltb c.connected_at o.connected_at then some c else some o

-- `count`.
unfoldable pub count : Client → Tally → Tally
unfolding older
count c k = record { n = suc k.n; oldest = older c k.oldest }

abbrev pub of_user : Text → Client → Bool
of_user user_id c = text_eq c.user_id user_id

abbrev pub of_session : Text → Text → Client → Bool
of_session user_id session_id c = text_eq c.user_id user_id && text_eq c.session_id session_id

-- One of the two tallies of the loop of `add`, over the connections that it counts.
unfoldable pub tally_of : (Client → Bool) → List Client → Tally → Tally
unfolding count
tally_of counts [] k = k
tally_of counts (c ∷ conns) k = tally_of counts conns (if counts c then count c k else k)

-- `close` on one of the connections.
unfoldable pub close_client : ℕ → CloseCode → List Client → List Client
close_client number code [] = []
close_client number code (c ∷ conns) =
    let rest = close_client number code conns in
    if c.number == number
    then record c { closed_with = close_code code c.closed_with } ∷ rest
    else c ∷ rest

abbrev pub close_oldest : Option Client → List Client → List Client
close_oldest none conns = conns
close_oldest (some o) conns = close_client o.number policy_violation conns

unfoldable pub enforce : (session account : Tally) → List Client → List Client
enforce session account conns =
    if ltb max_per_session session.n
    then close_oldest session.oldest conns
    else if ltb max_per_user account.n
    then close_oldest account.oldest conns
    else conns

-- `add`: the hub, and the connection where the hub has closed it instead of registering it.
unfoldable pub add : Client → Hub → Hub × Option Client
unfolding enforce tally_of close_client
add c h =
    if h.closed
    then (h, some (record c { closed_with = close_code going_away c.closed_with }))
    else let conns = c ∷ h.conns in
      (
        record h {
          conns =
              enforce (tally_of (of_session c.user_id c.session_id) conns no_tally)
                (tally_of (of_user c.user_id) conns no_tally) conns;
        },
        none,
      )

without_client : ℕ → List Client → List Client
without_client number [] = []
without_client number (c ∷ conns) =
    let rest = without_client number conns in if c.number == number then rest else c ∷ rest

-- `remove`.
pub remove : ℕ → Hub → Hub
unfolding without_client
remove number h = record h { conns = without_client number h.conns }

-- `close` on every connection that meets a test.
unfoldable pub close_where : (Client → Bool) → CloseCode → List Client → List Client
close_where test code [] = []
close_where test code (c ∷ conns) =
    let rest = close_where test code conns in
    if test c then record c { closed_with = close_code code c.closed_with } ∷ rest else c ∷ rest

-- `SessionRevoked`, `UserRevoked` and `Close`.
pub session_revoked : Text → Hub → Hub
unfolding close_where
session_revoked session_id h = record h {
  conns = close_where (λ c. text_eq c.session_id session_id) session_expired h.conns;
}

pub user_revoked : Text → Hub → Hub
unfolding close_where
user_revoked user_id h = record h { conns = close_where (of_user user_id) session_expired h.conns }

pub close_all : Hub → Hub
unfolding close_where
close_all h = record { conns = close_where (λ c. true) going_away h.conns; closed = true }
