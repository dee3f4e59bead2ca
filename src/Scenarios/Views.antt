-- ===== src/Scenarios/Views.antt =====
-- Scenarios of the lists, views and positions.
use oncall_backend_private.Prelude.{◌≡◌, ◌↔◌, false, none, some}
use oncall_backend_private.Schema.{Trip}
use oncall_backend_private.Trips.Rules.{Viewer, access_forbidden}
use oncall_backend_private.Trips.Repository.{find_by_id}
use oncall_backend_private.Trips.Matching.{ok, err}
use oncall_backend_private.Trips.Reads.{get_trip}
use oncall_backend_private.Trips.Reads.Access.{MaySee, get_trip_iff}
use oncall_backend_private.Scenarios.{town, running_trip}

abbrev owner : Viewer
owner = record { is_admin = false; phone = 50; driver_id = none }

get_trip_iff_example :
    ((get_trip town owner 2 ≡ ok running_trip)
      ↔ ((find_by_id town 2 ≡ some running_trip) × MaySee owner running_trip))
    × ((get_trip town owner 2 ≡ err access_forbidden)
        ↔ ((u : Trip) × (find_by_id town 2 ≡ some u) × ¬ MaySee owner u))
get_trip_iff_example = get_trip_iff town owner 2 running_trip
