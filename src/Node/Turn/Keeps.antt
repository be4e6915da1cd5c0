-- ===== src/Node/Turn/Keeps.antt =====
-- The loop's own calls of the swarm take no query's id back.
use punchgate.Common.{
  ◌≡◌, ◌==◌, ◌&&◌, Bool, true, Option, Option-cases, none, some, inl, inr, Eq, if_rule, ℕ, contains,
  is_empty, not, if◌then◌else◌,
}
use punchgate.Net.{Libp2p, IpAddr, ip_addr_eq}
use punchgate.Collections.HashMap.{HashMap, get}
use punchgate.Collections.HashSet.{HashSet}
use punchgate.ExternalAddr.{extract_public_ip_port, is_valid_external_candidate}
use punchgate.Node.Execute.{Swarm}
use punchgate.Node.Execute.QueryIds.{Keeps, SwarmLaws}
use punchgate.Node.Addresses.{
  AddressCalls, drop_stale, announce, observe, on_observed_addr, on_external_addr_confirmed,
}
use punchgate.Node.Turn.{LoopCalls, addresses}

-- What the source relies on of the loop's own calls: none takes a query's id back.
pub record LoopLaws {net : Libp2p} {QueryId Handle : Type 0} {swarm : Swarm net QueryId Handle}
    (laws : SwarmLaws swarm) (loop : LoopCalls swarm) : Type 0 where
  pub close_keep : (id : ℕ) (s : swarm.State) → Keeps laws.issued s (loop.close_connection id s)
  pub dial_addr_keep :
      (a : net.Multiaddr) (s : swarm.State) → Keeps laws.issued s (loop.dial_addr a s).1
  pub add_external_keep :
      (a : net.Multiaddr) (s : swarm.State) → Keeps laws.issued s (loop.add_external_address a s)
  pub remove_external_keep :
      (a : net.Multiaddr) (s : swarm.State) → Keeps laws.issued s (loop.remove_external_address a s)
  pub candidate_keep :
      (a : net.Multiaddr) (s : swarm.State)
      → Keeps laws.issued s (loop.new_external_addr_candidate a s)

module _ (net : Libp2p) ⦃pe : Eq net.PeerId⦄ ⦃ae : Eq net.Multiaddr⦄ {QueryId Handle : Type 0}
    (swarm : Swarm net QueryId Handle) (loop : LoopCalls swarm) (laws : SwarmLaws swarm)
    (loop_laws : LoopLaws laws loop) where
  open net use {PeerId, Multiaddr}

  abbrev calls : AddressCalls net
  calls = addresses swarm loop

  announced-Keeps :
      (observed : Multiaddr) (sw : swarm.State)
      → Keeps laws.issued sw
          (loop.new_external_addr_candidate observed (loop.add_external_address observed sw))
  announced-Keeps observed sw id e =
      loop_laws.candidate_keep observed (loop.add_external_address observed sw) id
        (loop_laws.add_external_keep observed sw id e)

  pub drop_stale-Keeps :
      (previous : Option Multiaddr) (address : Multiaddr) (sw : swarm.State)
      → Keeps laws.issued sw (drop_stale net calls previous address sw)
  unfolding drop_stale
  drop_stale-Keeps none address sw id e = e
  drop_stale-Keeps (some previous) address sw id e =
      if_rule (λ x. laws.issued x id ≡ true) (previous == address) e
        (loop_laws.remove_external_keep previous sw id e)

  announce-Keeps :
      (previous : Option Multiaddr) (observed : Multiaddr) (sw : swarm.State)
      → Keeps laws.issued sw (announce net calls previous observed sw)
  unfolding announce
  announce-Keeps none observed sw id e = announced-Keeps observed sw id e
  announce-Keeps (some previous) observed sw id e =
      if_rule (λ x. laws.issued x id ≡ true) (previous == observed) e
        (announced-Keeps observed (drop_stale net calls (some previous) observed sw) id
          (drop_stale-Keeps (some previous) observed sw id e))

  observe-Keeps :
      (observed : Multiaddr) (by_ip : HashMap IpAddr Multiaddr) (sw : swarm.State)
      → Keeps laws.issued sw (observe net calls observed (by_ip, sw)).1
  unfolding observe
  observe-Keeps observed by_ip sw id e =
      if_rule {A = HashMap IpAddr Multiaddr × swarm.State} (λ x. laws.issued x.1 id ≡ true)
        (is_valid_external_candidate net observed)
        (elim (Option-cases (extract_public_ip_port net observed)) [
          | inl none_found ↦ rw none_found e
          | inr ((found, port), at) ↦ rw at (announce-Keeps (get found by_ip) observed sw id e)
        ])
        e

  pub on_observed_addr-Keeps :
      (bootstrap_peers : HashSet PeerId) (peer : PeerId) (relayed : Bool) (observed : Multiaddr)
      (by_ip : HashMap IpAddr Multiaddr) (sw : swarm.State)
      → Keeps laws.issued sw
          (on_observed_addr net calls bootstrap_peers peer relayed observed (by_ip, sw)).1
  unfolding on_observed_addr
  on_observed_addr-Keeps bootstrap_peers peer relayed observed by_ip sw id e =
      let first : laws.issued
            (if is_empty bootstrap_peers then loop.add_external_address observed sw else sw) id
          ≡ true =
        if_rule (λ x. laws.issued x id ≡ true) (is_empty bootstrap_peers)
          (loop_laws.add_external_keep observed sw id e) e in
      if_rule {A = HashMap IpAddr Multiaddr × swarm.State} (λ x. laws.issued x.1 id ≡ true)
        (contains peer bootstrap_peers && not relayed)
        (observe-Keeps observed by_ip
          (if is_empty bootstrap_peers then loop.add_external_address observed sw else sw) id first)
        first

  pub confirmed-Keeps :
      (address : Multiaddr) (by_ip : HashMap IpAddr Multiaddr) (sw : swarm.State)
      → Keeps laws.issued sw (on_external_addr_confirmed net calls address (by_ip, sw)).1
  unfolding on_external_addr_confirmed
  confirmed-Keeps address by_ip sw id e = elim (Option-cases (extract_public_ip_port net address)) [
    | inl none_found ↦ rw (on_external_addr_confirmed, none_found) e
    | inr ((found, port), at) ↦
        rw (on_external_addr_confirmed, at) (drop_stale-Keeps (get found by_ip) address sw id e)
  ]
