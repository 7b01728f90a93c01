-- ===== src/Topics.antt =====
-- internal/ws/topic.go: the topics of the event stream, and their wire forms.
mod Wire
mod Samples
use valmin.Shared.{
  ℕ, suc, Bool, true, false, not, ◌&&◌, ◌||◌, List, [], ◌∷◌, ◌++◌, Option, none, some, Text, codes,
  text_eq, if◌then◌else◌, ◌==◌, leb, ltb, split, length,
}
use valmin.Authz.{Action, console_read, stats_read, instance_view}

pub data TopicKind : Type 0 where
  kind_console kind_stats kind_state kind_job : TopicKind

pub data Class : Type 0 where
  lossy lossless : Class

pub record Topic : Type 0 where
  pub kind : TopicKind
  pub id : Text

-- `String`.
unfoldable pub wire : Topic → Text
wire t = elim t.kind [
  | kind_console ↦ codes "instance." ++ t.id ++ codes ".console"
  | kind_stats ↦ codes "instance." ++ t.id ++ codes ".stats"
  | kind_state ↦ codes "instance." ++ t.id ++ codes ".state"
  | kind_job ↦ codes "job." ++ t.id
]

unfoldable pub class_of : Topic → Class
class_of t = elim t.kind [
  | kind_state ↦ lossless
  | kind_job ↦ lossless
  | kind_console ↦ lossy
  | kind_stats ↦ lossy
]

unfoldable pub action_of : Topic → Action
action_of t = elim t.kind [
  | kind_console ↦ console_read
  | kind_stats ↦ stats_read
  | kind_state ↦ instance_view
  | kind_job ↦ instance_view
]

abbrev between : ℕ → ℕ → ℕ → Bool
between lo c hi = leb lo c && leb c hi

-- A multi-byte character has no byte below 128, so the bytes are tested like the runes.
abbrev id_char : ℕ → Bool
id_char c =
    between b'0' c b'9' || between b'a' c b'z' || between b'A' c b'Z' || c == b'-' || c == b'_'

abbrev id_chars : Text → Bool
id_chars [] = true
id_chars (c ∷ s) = id_char c && id_chars s

pub valid_id : Text → Bool
valid_id [] = false
valid_id (c ∷ s) = not (ltb 64 (length (c ∷ s))) && id_chars (c ∷ s)

kind_named : Text → Option TopicKind
kind_named last =
    if text_eq last (codes "console")
    then some kind_console
    else if text_eq last (codes "stats")
    then some kind_stats
    else if text_eq last (codes "state")
    then some kind_state
    else none

abbrev topic_of : Option TopicKind → Text → Option Topic
topic_of none id = none
topic_of (some kind) id = some (record { kind = kind; id = id })

parse_parts : List Text → Option Topic
unfolding kind_named
parse_parts (head ∷ id ∷ []) =
    if text_eq head (codes "job") && valid_id id
    then some (record { kind = kind_job; id = id })
    else none
parse_parts (head ∷ id ∷ last ∷ []) =
    if text_eq head (codes "instance") && valid_id id then topic_of (kind_named last) id else none
parse_parts _ = none

-- `Parse`.
unfoldable pub parse : Text → Option Topic
unfolding parse_parts
parse s = parse_parts (split s b'.')
