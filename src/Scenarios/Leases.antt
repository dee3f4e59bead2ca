-- ===== src/Scenarios/Leases.antt =====
-- Scenarios of the lock service.
use oncall_backend_private.Prelude.{arith, ◌+◌, ◌≡◌, ◌≢◌, refl, none, some, [], ◌∷◌, map}
use oncall_backend_private.Locks.{Lock, acquired}
use oncall_backend_private.Locks.Service.{
  Buckets, Spec, Reply, done, thrown, not_owner, memory_provider, memory_read, try_acquire,
  renew_lease, release_lock, held_by, acquire_lock,
}
use oncall_backend_private.Locks.Calls.{acquires, releases, serve_all}
use oncall_backend_private.Locks.Acquisition.{acquired_excludes}

abbrev nightly_report : Spec
nightly_report = record {
  namespace = "jobs";
  lock_id = "report";
  owner_id = some 7;
  lease_ms = some 1000;
  wait_ms = none;
  metadata = [];
}

abbrev rival : Spec
rival = record nightly_report { owner_id = some 8; wait_ms = some 50 }

abbrev report_lock : Lock
report_lock = record {
  lock_id = "report";
  namespace = "jobs";
  owner_id = some 7;
  lease_ms = 1000;
  acquired_at = some 100;
  expires_at = some 1100;
  renewed_at = some 100;
  metadata = [];
  version = 1;
  state = acquired;
}

abbrev held_store : Buckets
held_store = ("jobs", ("report", report_lock) ∷ []) ∷ []

acquired_excludes_example :
    let u = serve_all held_store ((acquires rival, 200) ∷ (releases rival, 300) ∷ []) in
    (memory_read u "jobs" "report" ≡ some report_lock)
    × (held_by u rival 1099 ≡ (u, done (some 7)))
    × (try_acquire u rival 1099 ≡ (u, done none))
    × (renew_lease u rival 1099 ≡ (u, thrown not_owner))
    × (release_lock u rival 1099 ≡ (u, thrown not_owner))
unfolding try_acquire oncall_backend_private.Locks.Service.on_loaded
    oncall_backend_private.Locks.Service.load oncall_backend_private.Locks.Service.found_lock
    memory_read oncall_backend_private.Prelude.lookup oncall_backend_private.Locks.Service.bucket
    oncall_backend_private.Locks.create_lock oncall_backend_private.Locks.Service.attempt
    oncall_backend_private.Locks.is_live oncall_backend_private.Locks.Service.settled
    oncall_backend_private.Locks.settle_expiry oncall_backend_private.Locks.Service.memory_write
    oncall_backend_private.Locks.acquire oncall_backend_private.Prelude.insert
acquired_excludes_example =
    acquired_excludes [] held_store nightly_report rival 7 8 100 1099 report_lock
      ((acquires rival, 200) ∷ (releases rival, 300) ∷ []) refl refl
      ((refl, omega arith), ((refl, omega arith), tt)) (refl, refl) refl refl (omega arith)
