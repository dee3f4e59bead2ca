-- ===== src/Scenarios/Searches.antt =====
-- Scenarios of the search for a driver.
use oncall_backend_private.Prelude.{
  ℕ, ◌≤◌, ◌≡◌, refl, arith, Bool, true, false, Option, none, some, List, [], ◌∷◌, All,
}
use oncall_backend_private.Schema.{pos, no_driver, waiting_driver, Trip, Db, trip_updated}
use oncall_backend_private.Trips.Repository.{find_by_id}
use oncall_backend_private.Trips.Matching.{
  Candidate, candidate_distance, online_drivers, find_nearest_driver, dispatch_matching,
}
use oncall_backend_private.Trips.Matching.Free.{
  IsFree, find_nearest_driver-IsFree, unmatched_trip_waits,
}
use oncall_backend_private.Trips.Matching.Nearest.{find_nearest_driver-least}
use oncall_backend_private.Trips.Matching.Search.{unanswered, search_ends}
use oncall_backend_private.Scenarios.{city, near, town, waiting_trip}

abbrev nearest_row : Candidate
nearest_row = record { driver = near; taxi_lat = some (pos 12); taxi_lng = some (pos 12) }

find_nearest_driver-IsFree_example : IsFree [] town.drivers town.taxis nearest_row
unfolding find_nearest_driver oncall_backend_private.Trips.Matching.nearest
    oncall_backend_private.Trips.Matching.is_eligible oncall_backend_private.Prelude.includes
    oncall_backend_private.Trips.Matching.rows_of_driver candidate_distance
find_nearest_driver-IsFree_example =
    find_nearest_driver-IsFree city town (some (pos 10)) (some (pos 10)) [] nearest_row refl

find_nearest_driver-least_example :
    All
      (λ x.
        candidate_distance city (some (pos 10)) (some (pos 10)) nearest_row
        ≤ candidate_distance city (some (pos 10)) (some (pos 10)) x)
      (online_drivers [] town.drivers town.taxis)
unfolding find_nearest_driver oncall_backend_private.Trips.Matching.nearest
    oncall_backend_private.Trips.Matching.is_eligible oncall_backend_private.Prelude.includes
    oncall_backend_private.Trips.Matching.rows_of_driver candidate_distance
find_nearest_driver-least_example =
    find_nearest_driver-least city town (some (pos 10)) (some (pos 10)) [] nearest_row refl refl
      refl

search_ends_example :
    (final : Trip) × (find_by_id
        (unanswered city
          (dispatch_matching city town 1 (some (pos 10)) (some (pos 10)) 100)
          1
          30100
          2)
        1
      ≡ some final)
    × (final.status ≡ no_driver)
unfolding find_by_id oncall_backend_private.Sql.select_first find_nearest_driver
    oncall_backend_private.Trips.Matching.nearest oncall_backend_private.Trips.Matching.is_eligible
    oncall_backend_private.Prelude.includes oncall_backend_private.Trips.Matching.rows_of_driver
    candidate_distance oncall_backend_private.Trips.Matching.Requests.drivers_left
    oncall_backend_private.Sql.changes
search_ends_example =
    search_ends city town 1 100 2 waiting_trip nearest_row refl refl refl refl (omega arith)

abbrev empty_town : Db
empty_town = record town { taxis = [] }

unmatched_trip_waits_example :
    let after = dispatch_matching city empty_town 1 none none 5 in
    ((kept : Trip) × (find_by_id after 1 ≡ some kept) × (kept.status ≡ waiting_driver))
    × (after.timers ≡ [])
    × (after.emits ≡ trip_updated 1 no_driver ∷ [])
unfolding find_by_id oncall_backend_private.Sql.select_first
unmatched_trip_waits_example =
    unmatched_trip_waits city empty_town 1 5 none none waiting_trip refl refl
      (λ c (_, _, _, _, (t, m, _, _, _, _)). elim m [ ])
