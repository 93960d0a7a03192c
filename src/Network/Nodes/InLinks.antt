-- ===== src/Network/Nodes/InLinks.antt =====
-- rust_qsim/src/simulation/network/sim_network.rs: the incoming links of a node, before and behind its loop.
use parallel_qsim_rust.Prelude.{
  ℕ, suc, ◌≤◌, ◌≡◌, refl, ap, Bool, true, false, some, List, [], ◌∷◌, map, length, arith, inl, inr,
  Bool-cases,
}
use parallel_qsim_rust.Prelude.Maps.{Map, put, contains}
use parallel_qsim_rust.Time.{Tick}
use parallel_qsim_rust.Float.{F64, Vehicle}
use parallel_qsim_rust.Network.Link.Split.{SimLink}
use parallel_qsim_rust.Network.Nodes.{Entry, get_active_in_links, any_link_offers}
use parallel_qsim_rust.Network.Nodes.Numbers.{Le, FlowLaws}
use parallel_qsim_rust.Network.Nodes.Shapes.{offers_veh_total}
use parallel_qsim_rust.Network.Nodes.Layout.{Layout, IsLaidOut}
use parallel_qsim_rust.Network.Nodes.Moving.{IsMoving, offered-IsMoving}
use parallel_qsim_rust.Network.Nodes.Asking.{source_stored}
use parallel_qsim_rust.Network.Nodes.Sweeping.{AreSources, add_all, open_links, IsFresh}

-- Links of which none is exhausted.
abbrev pub fresh : List ℕ → List Entry
fresh ids = map (λ id. (id, false)) ids

pub fresh-IsFresh : (ids : List ℕ) → IsFresh (fresh ids)
fresh-IsFresh [] = tt
fresh-IsFresh (id ∷ ids) = (refl, fresh-IsFresh ids)

pub open_links-fresh : (ids : List ℕ) → open_links (fresh ids) ≡ length ids
open_links-fresh [] = refl
open_links-fresh (id ∷ ids) = ap suc (open_links-fresh ids)

module _ {F : Type 0} ⦃f : F64 F⦄ (y : Layout F) where
  -- Some of the links, with their capacities added to `total`.
  pub record IsSelected (ids ids' : List ℕ) (total total' : F) : Type 0 where
    pub sources : AreSources y (fresh ids')
    pub sum : total' ≡ add_all y total (fresh ids')
    pub fewer : length ids' ≤ length ids
    pub bounded :
        (a b : F)
        → Le (f.lit 0 0) a
        → Le a b
        → Le (add_all y a (fresh ids')) (add_all y b (fresh ids))

module _ {F V : Type 0} ⦃f : F64 F⦄ ⦃v : Vehicle F V⦄ (y : Layout F)
    (caps : (k : ℕ) → y.source k ≡ true → Le (f.lit 0 0) (y.cap k)) (laws : FlowLaws F) where
  pub get_active_in_links_total :
      (ids active : List ℕ) (m : Map (SimLink F V)) (total : F)
      → AreSources y (fresh ids)
      → IsLaidOut y m
      → (ids' : List ℕ) × (total' : F) × (get_active_in_links ids active m total
          ≡ some (ids', total'))
        × IsSelected y ids ids' total total'
  unfolding get_active_in_links
  get_active_in_links_total [] active m total _ h = (
    [],
    total,
    refl,
    record { sources = tt; sum = refl; fewer = omega arith; bounded = λ a b _ le. le },
  )
  get_active_in_links_total (id ∷ ids) active m total (src, srcs) h =
      let (l, found) = source_stored y id m src h in
      let flow = (h.placed id l found).flow src in
      elim (Bool-cases (contains id active)) [
        | inl on ↦
            let (ids', t, done, s) =
              get_active_in_links_total ids active m (f.add total (y.cap id)) srcs h in
            (
              id ∷ ids',
              t,
              ground (arith, on, found, flow, done),
              record {
                sources = (src, s.sources);
                sum = s.sum;
                fewer = omega (arith, s.fewer);
                bounded = λ a b pos le.
                    s.bounded (f.add a (y.cap id)) (f.add b (y.cap id))
                      (laws.le_trans (f.lit 0 0) a _ pos
                        (laws.add_grows a (y.cap id) pos (caps id src)))
                      (laws.add_mono a b (y.cap id) pos le (caps id src));
              },
            )
        | inr off ↦
            let (ids', t, done, s) = get_active_in_links_total ids active m total srcs h in
            (
              ids',
              t,
              ground (arith, off, done),
              record {
                sources = s.sources;
                sum = s.sum;
                fewer = omega (arith, s.fewer);
                bounded = λ a b pos le. s.bounded a (f.add b (y.cap id)) pos (
                    laws.le_trans a b _ le (
                      laws.add_grows b (y.cap id) (laws.le_trans (f.lit 0 0) a b pos le)
                        (caps id src)));
              },
            )
      ]

module _ {F V : Type 0} ⦃f : F64 F⦄ ⦃v : Vehicle F V⦄ (y : Layout F) (count : (ℕ → Bool) → ℕ) where
  pub any_link_offers_total :
      (ids : List ℕ) (time : Tick) (m : Map (SimLink F V)) (active : List ℕ)
      → AreSources y (fresh ids)
      → IsMoving y count m active
      → (b : Bool) × (m' : Map (SimLink F V)) × (any_link_offers ids time m ≡ some (b, m'))
        × IsMoving y count m' active
  unfolding any_link_offers
  any_link_offers_total [] time m active _ h = (false, m, refl, h)
  any_link_offers_total (id ∷ ids) time m active (src, srcs) h =
      let (l, found) = source_stored y id m src h.laid in
      let (x, l', offers, o) = offers_veh_total time l ((h.laid.placed id l found).flow src) in
      let (moving, _) = offered-IsMoving y count id l l' m active found o h in
      let (b, m', rest, last) = any_link_offers_total ids time (put id l' m) active srcs moving in
      elim o.front [
        | inl nobody ↦ (b, m', ground (arith, found, offers, nobody, rest), last)
        | inr (z, _, this, _) ↦ (true, put id l' m, ground (arith, found, offers, this), moving)
      ]
