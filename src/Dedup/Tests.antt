-- ===== src/Dedup/Tests.antt =====
-- Runs of the filter, and the theorems about it at concrete ids.
use caminus.Prelude.{◌≡◌, refl, List, [], ◌∷◌, false}
use caminus.Text.Defs.{Text, codes, text_beq}
use caminus.Dedup.Defs.{contains, remove, new, evict, check_and_track, run}
use caminus.Dedup.Window.{keep_last, duplicate_iff_recent}

program : Unit {0}
unfolding contains remove evict check_and_track run text_beq keep_last
program = tt

abbrev ids : List Text
ids = codes "evt-1" ∷ codes "evt-1" ∷ codes "evt-2" ∷ codes "evt-3" ∷ codes "evt-4" ∷ []

-- The fourth id evicts the first, which is accepted again.
evicted : (run (new 3) ids).1 ≡ codes "evt-1" ∷ codes "evt-2" ∷ codes "evt-3" ∷ codes "evt-4" ∷ []
unfolding program
evicted = refl

accepted_again : (check_and_track (run (new 3) ids).0 (codes "evt-1")).1 ≡ false
unfolding program
accepted_again = refl

duplicate_iff_recent_example :
    (check_and_track (run (new 3) ids).0 (codes "evt-2")).1
    ≡ contains (codes "evt-2") (keep_last 3 (run (new 3) ids).1)
duplicate_iff_recent_example = duplicate_iff_recent 3 ids (codes "evt-2")
