-- ===== src/Tests/Serving.antt =====
-- The theorems on the presenter's server, applied to a run in which one presenter takes over from
-- another.
use sysc_notify.Base.{
  ℕ, ◌≡◌, refl, true, false, not, ◌||◌, List, [], ◌∷◌, Option, none, some, contains,
}
use sysc_notify.Presenter.Server.{
  Server, new_server, is, greeted, snapshot_at, onward, refused, Step, handles, run,
}
use sysc_notify.Presenter.Server.Serves.{run-serves, slot-released}

abbrev connects : ℕ → ℕ → List Step → List Step
connects h sequence rest =
    handles h onward
    ∷ handles h (greeted false)
    ∷ handles h (snapshot_at sequence)
    ∷ handles h onward
    ∷ handles h onward
    ∷ handles h onward
    ∷ rest

-- The second presenter replaces the first.
abbrev takeover : List Step
takeover = connects 1 3 (connects 2 3 [])

run-serves_example :
    (s : Server) × (run takeover new_server ≡ some s)
    × ((not (s.conn 1).active || (s.conn 1).failed || is 1 s.current || contains 1 s.retiring)
        ≡ true)
run-serves_example = run-serves takeover 1

abbrev or_new : Option Server → Server
or_new none = new_server
or_new (some s) = s

-- A presenter in its handshake.
abbrev knocking : List Step
knocking = handles 1 onward ∷ handles 1 (greeted false) ∷ []

abbrev knocked : Server
knocked = or_new (run knocking new_server)

knocks : (run knocking new_server ≡ some knocked) × (knocked.preparing ≡ some 1)
unfolding run new_server
knocks = (refl, refl)

slot-released_example :
    (s : Server) × (run (handles 1 refused ∷ handles 1 onward ∷ handles 1 onward ∷ []) knocked
      ≡ some s)
    × (s.preparing ≡ none)
slot-released_example = slot-released knocking knocked 1 knocks.0 knocks.1
