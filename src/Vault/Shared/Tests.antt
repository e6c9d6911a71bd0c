-- ===== src/Vault/Shared/Tests.antt =====
-- The openings of the vault at concrete inputs.
use ep2pchat.Base.{ℕ, ◌≡◌, refl, none, some, update, arith, ℕ_discrete}
use ep2pchat.Vault.Shared.{
  Shared, unopened, loading, settled, over, begins, loads, fails_preparing, cleans, preparing,
  unloaded, abandoned, Reaches, here, then,
}
use ep2pchat.Vault.Shared.Single.{connections-eq}

-- The first opening fails after Database.load, and a later call's opening is on its way while
-- another call waits.
abbrev retried : Shared
retried = record {
  db = none;
  db_init_promise = some 1;
  attempts =
      update
        (update
          (update (update (update (λ i. over unloaded) 0 loading) 0 preparing) 0
            (settled abandoned))
          0 (over abandoned))
        1 loading;
  made = 2;
}

retried-Reaches : Reaches unopened retried
unfolding ℕ_discrete
retried-Reaches =
    let failed =
      then (then (then here begins) (loads 0 (omega arith) refl))
        (fails_preparing 0 (omega arith) refl) in
    then (then (then failed (cleans 0 abandoned (omega arith) refl)) begins) begins

connections-eq_example : ◌≡◌ {A = ℕ} 1 1
unfolding ℕ_discrete
connections-eq_example = connections-eq 1 1 retried-Reaches (omega arith) (omega arith) tt tt
