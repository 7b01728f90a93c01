-- ===== src/Installer/Samples.antt =====
-- An install of two files beside one that the operator put there by hand.
use valmin.Shared.{
  ◌≡◌, refl, inl, true, false, List, [], ◌∷◌, Option, some, Text, codes, text_eq, if◌then◌else◌, In,
}
use valmin.Installer.{
  Placement, Change, Found, absent, regular, ok, diff, unowned_keep, apply_unowned, ManifestEntry,
  manifest, create, overwrite, verdict, unowned_of, at_dest, apply_to,
}
use valmin.Installer.Manifests.{Written, manifest-Written}

abbrev placed : Text → Placement
placed dest = record { source = codes "s"; dest = dest }

abbrev plugin : Text
plugin = codes "p/a.dll"

abbrev by_hand : Text
by_hand = codes "p/b.dll"

abbrev placements : List Placement
placements = placed plugin ∷ placed by_hand ∷ []

-- The elements of a cleaned path, the last first.
abbrev stat : List Text → Found
stat [] = absent
stat (last ∷ es) = if text_eq last (codes "b.dll") then regular else absent

abbrev changes : List Change
changes =
    record { placement = placed plugin; action = create; reason = []; unowned = false }
    ∷ record { placement = placed by_hand; action = overwrite; reason = []; unowned = true }
    ∷ []

abbrev entry : ManifestEntry
entry = record { path = plugin; sha256 = codes "h" }

abbrev sum : Text → Option Text
sum source = some (codes "h")

diffed : diff (codes "me") stat [] placements ≡ ok changes
unfolding diff at_dest verdict unowned_of
diffed = refl

listed : manifest sum (apply_unowned unowned_keep changes) ≡ ok (entry ∷ [])
unfolding manifest apply_unowned apply_to
listed = refl

manifest-Written_example :
    (p : Placement) × In p placements
    × (p.dest ≡ plugin)
    × Written (codes "me") stat [] unowned_keep p
manifest-Written_example =
    manifest-Written (codes "me") stat [] unowned_keep sum placements changes (entry ∷ []) entry
      diffed listed (inl refl)
