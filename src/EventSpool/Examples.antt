-- ===== src/EventSpool/Examples.antt =====
-- crates/booth-bin/src/event_spool.rs: three batches under a cap of two files.
use telephone_booth.Base.{ℕ, str_eq, List, [], ◌∷◌, ◌≡◌, arith}
use telephone_booth.EventSpool.Files.{drain}
use telephone_booth.EventSpool.Newest.{batches_of, spill_all, spill_all-drain}

abbrev three : List (List ℕ)
three = (1 ∷ 2 ∷ []) ∷ (3 ∷ []) ∷ (4 ∷ 5 ∷ []) ∷ []

spill_all-drain_example :
    batches_of (drain (spill_all str_eq 2 three [])).0 ≡ (3 ∷ []) ∷ (4 ∷ 5 ∷ []) ∷ []
spill_all-drain_example = spill_all-drain str_eq 2 three (omega arith) (omega arith)
