-- ===== src/Providers/Docker/Resets/Refined.antt =====
-- What a reset promises, and that every backend's statements keep it.
use dbwarden_harness.Base.{ℕ, String, true, [], ◌≡◌, ◌≢◌, contains, nat_eq, string_eq}
use dbwarden_harness.Base.Result.{Result, is_ok}
use dbwarden_harness.World.{World}

-- A reset of the database of the container `c` leaves nothing of what its statements look at where it
-- succeeds. It adds no object, leaves what they do not look at, and changes no other database, no
-- container and no link.
pub record IsReset (c : ℕ) (w : World) (outcome : Result (Unit {0}) × World) : Type 0 where
  pub emptied : is_ok outcome.0 ≡ true → outcome.1.objects c ≡ []
  pub fewer :
      (x : String) → contains (outcome.1.objects c) x ≡ true → contains (w.objects c) x ≡ true
  pub unlisted : outcome.1.unlisted ≡ w.unlisted
  pub others : (d : ℕ) → d ≢ c → outcome.1.objects d ≡ w.objects d
  pub running : outcome.1.running ≡ w.running
  pub links : outcome.1.links ≡ w.links
