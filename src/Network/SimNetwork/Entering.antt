-- ===== src/Network/SimNetwork/Entering.antt =====
-- rust_qsim/src/simulation/network/sim_network.rs: vehicles that enter a partition.
use parallel_qsim_rust.Prelude.{
  ℕ, ◌+◌, ◌≡◌, ◌<◌, ◌⊎◌, inl, inr, refl, Bool, true, false, if◌then◌else◌, none, some, List, [],
  ◌∷◌, SameItems, arith, u64_mod,
}
use parallel_qsim_rust.Prelude.Maps.{get, contains, contains-activate}
use parallel_qsim_rust.Time.{Tick, SimTime, tick_to_time}
use parallel_qsim_rust.Float.{F64, Vehicle, Event, link_enter}
use parallel_qsim_rust.Network.Link.Split
use parallel_qsim_rust.Network.Link.Split.{SimLink, SplitOutLink, local, inward, out}
use parallel_qsim_rust.Network.Link.Laws.{refuses, push_veh-SameItems}
use parallel_qsim_rust.Network.SimNetwork.{
  SimNetworkPartition, send_veh_en_route, start_position, enter,
}
use parallel_qsim_rust.Network.SimNetwork.Vehicles.{on_links}
use parallel_qsim_rust.Network.SimNetwork.Invariant.{IsValid, enter-IsValid, enter-SameItems}

refused_out :
    {F V : Type 0} ⦃f : F64 F⦄ ⦃v : Vehicle F V⦄ (link : SimLink F V) (begin : Bool)
    → refuses link (start_position begin) ≡ true
    → (begin ≡ true) × (o : SplitOutLink F V) × (link ≡ out o)
refused_out (local l) begin e = cc
refused_out (inward i) begin e = cc
refused_out (out o) true e = (refl, o, refl)
refused_out (out o) false e = cc

module _ {F V R : Type 0} ⦃f : F64 F⦄ ⦃v : Vehicle F V⦄ where
  -- What a partition is after the vehicle `x` has entered its link `link`.
  pub record IsEntered (x : V) (begin : Bool) (time : SimTime) (link : SimLink F V)
      (n n' : SimNetworkPartition F V R) (events : List Event) : Type 0 where
    pub valid : IsValid n'
    pub one_more : SameItems (on_links n'.links) (x ∷ on_links n.links)
    pub active : contains (Split.id link) n'.active_links ≡ true
    pub published : events ≡ (if begin then [] else link_enter time (Split.id link) (v.id x) ∷ [])

  -- A vehicle is sent onto a stored link at a tick that has a time. If it starts here and the link leads out of the partition, the
  -- call panics. Otherwise the partition keeps its invariant, has that vehicle more and no other change of its vehicles,
  -- the link is active, and the link enter event is published unless the route starts here.
  pub send_veh_en_route-IsEntered :
      (x : V) (begin : Bool) (now : Tick) (n : SimNetworkPartition F V R) {link_id : ℕ}
      {link : SimLink F V} {time : SimTime}
      → n.veh_counter + 1 < u64_mod
      → IsValid n
      → v.curr_link_id x ≡ some link_id
      → get link_id n.links ≡ some link
      → tick_to_time n.clock now ≡ some time
      → ((send_veh_en_route x begin now n ≡ none)
          × (begin ≡ true)
          × (o : SplitOutLink F V) × (link ≡ out o))
        ⊎ ((refuses link (start_position begin) ≡ false)
            × (n' : SimNetworkPartition F V R) × (events : List Event) × (send_veh_en_route x begin
                  now n
                ≡ some (n', events))
            × IsEntered x begin time link n n' events)
  unfolding send_veh_en_route
  send_veh_en_route-IsEntered x begin now n {link_id} {link} {time} fits valid goal found clock =
      elim (push_veh-SameItems x (start_position begin) now link) [
        | inl (does, refused) ↦ inl (
          ground (arith, goal, found, clock, refused),
          (refused_out link begin does).0,
          (refused_out link begin does).1,
          (refused_out link begin does).2,
        )
        | inr (link', accepts, pushed, same, key) ↦ inr (
          accepts,
          enter link_id link' n,
          (if begin then [] else link_enter time (Split.id link) (v.id x) ∷ []),
          ground (arith, goal, found, clock, pushed),
          record {
            valid = enter-IsValid x link_id link link' n found key same fits valid;
            one_more = enter-SameItems x link_id link link' n found key same;
            active =
                ground
                  (arith, key, contains-activate (Split.id link') (Split.id link) n.active_links);
            published = refl;
          },
        )
      ]
