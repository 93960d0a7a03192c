-- ===== src/Network/SimNetwork/Vehicles.antt =====
-- Counting the vehicles of a network partition (rust_qsim/src/simulation/network/sim_network.rs).
use parallel_qsim_rust.Prelude.{
  ℕ, suc, ◌+◌, ◌≡◌, refl, ap, Bool, true, some, List, [], ◌∷◌, ◌++◌, length, count_if,
  count_if-append, arith,
}
use parallel_qsim_rust.Prelude.Maps.{Map, get, put}
use parallel_qsim_rust.Float.{F64, Vehicle}
use parallel_qsim_rust.Network.Link.Split.{SimLink}
use parallel_qsim_rust.Network.Link.Laws.{on_sim_link}

-- Every element passes the test that is always true.
pub count_if-true : {A : Type 0} (xs : List A) → count_if (λ _. true) xs ≡ length xs
count_if-true [] = refl
count_if-true (x ∷ xs) = ap suc (count_if-true xs)

module _ {F V : Type 0} ⦃f : F64 F⦄ ⦃v : Vehicle F V⦄ where
  -- All vehicles on the links of a partition.
  unfoldable pub on_links : Map (SimLink F V) → List V
  on_links [] = []
  on_links ((k, l) ∷ m) = on_sim_link l ++ on_links m

  -- Replacing a link exchanges its vehicles for those of the new one.
  pub on_links-put :
      (p : V → Bool) (k : ℕ) (l l' : SimLink F V) (m : Map (SimLink F V))
      → get k m ≡ some l
      → count_if p (on_links (put k l' m)) + count_if p (on_sim_link l)
        ≡ count_if p (on_links m) + count_if p (on_sim_link l')
  unfolding get put on_links
  on_links-put p k l l' [] e = cc
  on_links-put p k l l' ((j, x) ∷ m) e = ground (
    arith,
    on_links-put p k l l' m,
    count_if-append p (on_sim_link l') (on_links m),
    count_if-append p (on_sim_link x) (on_links m),
    count_if-append p (on_sim_link x) (on_links (put k l' m)),
  )
