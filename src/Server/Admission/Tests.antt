-- ===== src/Server/Admission/Tests.antt =====
-- Runs of apps/server/src/admission.ts, and the theorem about it at one of them.
use gib_sync.Prelude.{◌*◌, ◌≡◌, refl, none, some, List, [], ◌∷◌}
use gib_sync.Server.Admission.{Gate, Call, ask, give_back, create, run, mebibyte}
use gib_sync.Server.Admission.Laws.{IsSound, run-IsSound}

abbrev fresh : Gate
fresh = record { admission = create (64 * mebibyte) 2 (16 * mebibyte); leases = [] }

abbrev calls : List Call
calls =
    ask (some 5)
    ∷ ask (some (16 * mebibyte))
    ∷ ask none
    ∷ give_back 0
    ∷ give_back 0
    ∷ ask none
    ∷ ask (some 1)
    ∷ []

-- The small body keeps the large ones out until its closure is called; then one of them enters
-- alone.
counters : ((run fresh calls).admission.count ≡ 1) × ((run fresh calls).admission.large ≡ 1)
unfolding run
counters = (refl, refl)

run-IsSound_example : IsSound (run fresh calls)
run-IsSound_example = run-IsSound (64 * mebibyte) 2 (16 * mebibyte) calls
