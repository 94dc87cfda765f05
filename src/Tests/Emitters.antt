-- ===== src/Tests/Emitters.antt =====
-- The theorems on the event emitter, at a few listeners.
use genie_tangle.Events.{direct, no_events, emit, put, wrapper}
use genie_tangle.Prelude.{List, fault, type_error, ◌∷◌, ◌≡◌, some, codes, ℕ, [], refl}
use genie_tangle.Events.Emit.{emit-fault}

-- The type `data`.
abbrev data_type : List ℕ
data_type = codes "data"

emit-fault_example :
    emit data_type (put data_type (some (direct 4 ∷ wrapper 7 2 ∷ direct 3 ∷ [])) no_events)
    ≡ fault type_error
emit-fault_example =
    emit-fault data_type (put data_type (some (direct 4 ∷ wrapper 7 2 ∷ direct 3 ∷ [])) no_events)
      (direct 4 ∷ []) 7 2 (direct 3) [] refl (tt, tt)
