-- ===== src/Cluster/Tables.antt =====
-- The tables that a reset of a ClickHouse database drops one by one.
use dbwarden_harness.Base.{
  ℕ, String, true, false, not, ◌&&◌, List, [], ◌∷◌, ◌≡◌, ◌≢◌, refl, arith, contains, select,
  string_eq, nat_eq, ◌==◌,
}
use dbwarden_harness.Base.Result.{is_ok}
use dbwarden_harness.World.{Environment, World, call}
use dbwarden_harness.Cluster.{drop_table, drop_tables}

-- What is left of `objects` when the tables are dropped one by one.
pub without : List String → List String → List String
without [] objects = objects
without (t ∷ ts) objects = without ts (select (λ o. not (o == t)) objects)

contains-select :
    (t : String) (objects : List String) (x : String)
    → contains (select (λ o. not (o == t)) objects) x ≡ (contains objects x && not (x == t))
contains-select t [] x = refl
contains-select t (o ∷ os) x = ground (arith, contains-select t os x)

contains-without :
    (ts objects : List String) (x : String)
    → contains (without ts objects) x ≡ (contains objects x && not (contains ts x))
unfolding without
contains-without [] objects x = ground arith
contains-without (t ∷ ts) objects x =
    ground (
      arith,
      contains-without ts (select (λ o. not (o == t)) objects) x,
      contains-select t objects x,
    )

empty_if : (xs : List String) → ((x : String) → contains xs x ≡ false) → xs ≡ []
empty_if [] h = refl
empty_if (x ∷ xs) h = ground (arith, h x)

pub without_all : (objects : List String) → without objects objects ≡ []
without_all objects =
    empty_if (without objects objects) λ x. ground (arith, contains-without objects objects x)

module _ (env : Environment) where
  pub drop_tables-objects :
      (c : ℕ) (tables : List String) (w : World)
      → is_ok (drop_tables env c tables w).0 ≡ true
      → (drop_tables env c tables w).1.objects c ≡ without tables (w.objects c)
  unfolding drop_tables drop_table without call
  drop_tables-objects c [] w h = refl
  drop_tables-objects c (t ∷ ts) w h =
      ground (arith, drop_tables-objects c ts (drop_table c t (call env w).1))

  pub drop_tables_others :
      (c d : ℕ) (tables : List String) (w : World)
      → d ≢ c
      → (drop_tables env c tables w).1.objects d ≡ w.objects d
  unfolding drop_tables drop_table call
  drop_tables_others c d [] w n = refl
  drop_tables_others c d (t ∷ ts) w n =
      ground (arith, drop_tables_others c d ts (drop_table c t (call env w).1) n)

  -- Whatever is refused, nothing else changes, and no object appears.
  pub drop_tables-frame :
      (c : ℕ) (tables : List String) (w : World)
      → let w' = (drop_tables env c tables w).1 in
        (w'.running ≡ w.running)
        × (w'.links ≡ w.links)
        × (w'.unlisted ≡ w.unlisted)
        × (w'.next_container ≡ w.next_container)
  unfolding drop_tables drop_table call
  drop_tables-frame c [] w = (refl, refl, refl, refl)
  drop_tables-frame c (t ∷ ts) w =
      ground (arith, drop_tables-frame c ts (drop_table c t (call env w).1))

  pub drop_tables-fewer :
      (c : ℕ) (tables : List String) (w : World) (x : String)
      → contains ((drop_tables env c tables w).1.objects c) x ≡ true
      → contains (w.objects c) x ≡ true
  unfolding drop_tables drop_table call
  drop_tables-fewer c [] w x h = h
  drop_tables-fewer c (t ∷ ts) w x h = ground (
    arith,
    h,
    drop_tables-fewer c ts (drop_table c t (call env w).1) x,
    contains-select t (w.objects c) x,
  )
