-- ===== src/Network.antt =====
-- mcp_server/network.py: the bridge network of one workspace.
use dbwarden_harness.Base.{ℕ, List, [], ◌∷◌, ◌==◌, nat_eq, ◌&&◌, if◌then◌else◌}
use dbwarden_harness.Base.Result.{Result, ok, err, external_error}
use dbwarden_harness.World.{Environment, World, call}

-- `WorkspaceNetwork`, by the number of its network.
pub record WorkspaceNetwork : Type 0 where
  pub network_id : ℕ

-- A network's number is that of the call that creates it. A network without an id is an error of
-- the same call.
unfoldable pub create : Environment → World → Result WorkspaceNetwork × World
create env w =
    let (up, w') = call env w in
    (
      if up
          then ok (record { network_id = w.calls })
          else err (external_error "Docker network creation did not return an id"),
      w',
    )

abbrev unlink : ℕ → ℕ → List (ℕ × ℕ) → List (ℕ × ℕ)
unlink n c [] = []
unlink n c ((m, d) ∷ links) =
    let rest = unlink n c links in if n == m && c == d then rest else (m, d) ∷ rest

abbrev cut_off : ℕ → List (ℕ × ℕ) → List (ℕ × ℕ)
cut_off n [] = []
cut_off n ((m, d) ∷ links) = let rest = cut_off n links in if n == m then rest else (m, d) ∷ rest

unfoldable pub connect : Environment → WorkspaceNetwork → ℕ → World → Result (Unit {0}) × World
connect env net c w =
    let (up, w') = call env w in
    if up
    then (ok tt, record w' { links = (net.network_id, c) ∷ w'.links })
    else (err (external_error "network.connect"), w')

-- `disconnect` and `remove` suppress every error.
pub disconnect : Environment → WorkspaceNetwork → ℕ → World → World
disconnect env net c w =
    let (up, w') = call env w in
    if up then record w' { links = unlink net.network_id c w'.links } else w'

unfoldable pub remove : Environment → WorkspaceNetwork → World → World
remove env net w =
    let (up, w') = call env w in
    if up then record w' { links = cut_off net.network_id w'.links } else w'
