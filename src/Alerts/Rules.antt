-- ===== src/Alerts/Rules.antt =====
-- internal/alerts/rules.go: which rule a kind and an instance take their thresholds from.
use valmin.Shared.{
  ◌≡◌, refl, Bool, true, false, ◌&&◌, List, [], ◌∷◌, Option, none, some, arith, Text, text_eq,
  if◌then◌else◌,
}
use valmin.Alerts.{
  Rule, Kind, Params, Floats, kind_name, names_none, applies, prefer, choose, rule_resolver,
  decoded, same_instance,
}

-- The first rule that meets a test.
abbrev pub first : (Rule → Bool) → List Rule → Option Rule
first test [] = none
first test (r ∷ rules) = let rest = first test rules in if test r then some r else rest

abbrev pub names : Text → Text → Rule → Bool
names kind instance_id r =
    r.enabled && text_eq r.condition_kind kind && same_instance instance_id r.instance_id

abbrev pub names_all : Text → Text → Rule → Bool
names_all kind instance_id r =
    r.enabled && text_eq r.condition_kind kind && names_none r.instance_id

abbrev pub or_else : Option Rule → Option Rule → Option Rule
or_else none o = o
or_else (some r) o = some r

module _ (kind instance_id : Text) where
  -- A chosen rule that names the instance stays.
  choose-named :
      (rules : List Rule) (c : Rule)
      → names_none c.instance_id ≡ false
      → choose kind instance_id rules (some c) ≡ some c
  unfolding choose prefer applies
  choose-named [] c h = refl
  choose-named (r ∷ rules) c h = ground (arith, choose-named rules c h)

  choose-general :
      (rules : List Rule) (c : Rule)
      → names_none c.instance_id ≡ true
      → choose kind instance_id rules (some c)
        ≡ or_else (first (names kind instance_id) rules) (some c)
  unfolding choose prefer applies
  choose-general [] c h = refl
  choose-general (r ∷ rules) c h = ground (arith, choose-general rules c h, choose-named rules r)

  choose-first :
      (rules : List Rule)
      → choose kind instance_id rules none
        ≡ or_else (first (names kind instance_id) rules) (first (names_all kind instance_id) rules)
  unfolding choose prefer applies
  choose-first [] = refl
  choose-first (r ∷ rules) =
      ground (arith, choose-first rules, choose-named rules r, choose-general rules r)

-- The thresholds of a kind for an instance are those of the first enabled rule for the kind that
-- names the instance, wherever it stands; without one, those of the first enabled rule for the kind
-- that names no instance; without that, unset.
pub rule_resolver_lem :
    {F : Type 0} (fl : Floats F) (decode : Text → Params F) (rules : List Rule) (kind : Kind)
    (instance_id : Text)
    → rule_resolver fl decode rules kind instance_id
      ≡ decoded fl decode (
          or_else
            (first (names (kind_name kind) instance_id) rules)
            (first (names_all (kind_name kind) instance_id) rules))
unfolding rule_resolver
rule_resolver_lem fl decode rules kind instance_id =
    rw (choose-first (kind_name kind) instance_id rules) refl
