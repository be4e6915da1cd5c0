-- ===== src/Cli/Environment/RoundTrip.antt =====
-- What the daemon reads from the environment that `punchgate up` of src/main.rs writes.
use punchgate.Common.{
  ◌≡◌, refl, ap, ◌∙◌, Bool, false, Option, none, some, String, List, [], ◌∷◌, map, is_empty, All,
  All-map, string_eq, Result, ok, if◌then◌else◌, arith,
}
use punchgate.Net.{Libp2p}
use punchgate.Collections.HashMap.{get, insert, get_or}
use punchgate.Specs.Addr.{IpText, service_addr_to_string}
use punchgate.Specs.Addr.RoundTrip.{
  IpLaws, IsServiceAddr, IsPlain, service_addr_from_str-service_addr_to_string,
}
use punchgate.Specs.Named.{
  ExposedService, TunnelSpec, TunnelByNameSpec, exposed_service_from_str, tunnel_spec_from_str,
  tunnel_by_name_from_str,
}
use punchgate.Specs.Named.RoundTrip.{
  exposed_service_from_str_iff, tunnel_spec_from_str_iff, tunnel_by_name_from_str_iff,
}
use punchgate.Specs.Text.{is_empty_text, Lacks}
use punchgate.Cli.Environment.{
  Paths, Cli, join_text, exposed_text, tunnel_text, by_name_text, format_exposed_services,
  format_tunnel_specs, format_tunnel_by_name_specs, service_env_map, insert_unless, or_given,
  absolute_path, join_multiaddrs,
}

-- The values of an argument with a delimiter, from its variable. `split` is the command line
-- parser's, at the delimiter.
abbrev pub values : (String → List String) → Option String → List String
values split none = []
values split (some s) = split s

-- What the source relies on of that parser: texts without the delimiter that are joined by it
-- come apart again.
abbrev pub IsSplitting : (String → List String) → Type 0
IsSplitting split =
    (s : String) (rest : List String)
    → All (Lacks ",") (s ∷ rest)
    → split (join_text "," (s ∷ rest)) ≡ s ∷ rest

-- The variable of a list.
abbrev pub unless_empty : {A : Type 0} → (List A → String) → List A → Option String
unless_empty format items = if is_empty items then none else some (format items)

module _ {A E : Type 0} (text : A → String) (parse : String → Result E A) where
  -- The text has no delimiter, and parses to what it is the text of.
  abbrev pub IsReread : A → Type 0
  IsReread a = Lacks "," (text a) × (parse (text a) ≡ ok a)

  texts : (items : List A) → All IsReread items → All (Lacks ",") (map text items)
  texts [] h = tt
  texts (a ∷ items) h = (h.0.0, texts items h.1)

  parsed :
      (items : List A) → All IsReread items → map parse (map text items) ≡ map (λ a. ok a) items
  parsed [] h = refl
  parsed (a ∷ items) h =
      ap (λ x. x ∷ map parse (map text items)) h.0.1 ∙ ap (λ x. ok a ∷ x) (parsed items h.1)

  pub reread :
      (split : String → List String)
      → IsSplitting split
      → (items : List A) → All IsReread items
      → map parse (values split (unless_empty (λ l. join_text "," (map text l)) items))
        ≡ map (λ a. ok a) items
  reread split law [] h = refl
  reread split law (a ∷ items) h =
      ap (map parse) (law (text a) (map text items) (texts (a ∷ items) h)) ∙ parsed (a ∷ items) h

module _ (net : Libp2p) (ip : IpText) (laws : IpLaws ip)
    (parse_peer : String → Result String net.PeerId) where
  open net use {PeerId, peer_string}

  -- A spec that its text determines: its name does not end early, its address is one that is
  -- read back, and no comma stands in the text.
  abbrev pub ExposedFits : ExposedService → Type 0
  ExposedFits e =
      Lacks "=" e.name.text
      × (is_empty_text e.name.text ≡ false)
      × IsServiceAddr ip e.local_addr
      × IsPlain ip e.local_addr.host
      × Lacks "," (exposed_text net ip e)

  abbrev pub TunnelFits : TunnelSpec PeerId → Type 0
  TunnelFits t =
      Lacks ":" (peer_string t.remote_peer)
      × (parse_peer (peer_string t.remote_peer) ≡ ok t.remote_peer)
      × Lacks "@" (service_addr_to_string ip t.bind_addr)
      × IsServiceAddr ip t.bind_addr
      × IsPlain ip t.bind_addr.host
      × Lacks "," (tunnel_text net ip t)

  abbrev pub ByNameFits : TunnelByNameSpec → Type 0
  ByNameFits t =
      (is_empty_text t.service_name.text ≡ false)
      × Lacks "@" (service_addr_to_string ip t.bind_addr)
      × IsServiceAddr ip t.bind_addr
      × IsPlain ip t.bind_addr.host
      × Lacks "," (by_name_text net ip t)

  exposed-IsReread :
      (e : ExposedService)
      → ExposedFits e
      → IsReread (exposed_text net ip) (exposed_service_from_str ip) e
  unfolding exposed_text
  exposed-IsReread e (name, some_name, addr, plain, free) = (
    free,
    (exposed_service_from_str_iff ip (exposed_text net ip e) e).1 (
      service_addr_to_string ip e.local_addr,
      refl,
      name,
      some_name,
      service_addr_from_str-service_addr_to_string ip laws e.local_addr addr plain,
    ),
  )

  tunnel-IsReread :
      (t : TunnelSpec PeerId)
      → TunnelFits t
      → IsReread (tunnel_text net ip) (tunnel_spec_from_str ip parse_peer) t
  unfolding tunnel_text
  tunnel-IsReread t (peer, same, bind, addr, plain, free) = (
    free,
    (tunnel_spec_from_str_iff ip parse_peer (tunnel_text net ip t) t).1 (
      peer_string t.remote_peer,
      service_addr_to_string ip t.bind_addr,
      refl,
      peer,
      bind,
      same,
      service_addr_from_str-service_addr_to_string ip laws t.bind_addr addr plain,
    ),
  )

  by_name-IsReread :
      (t : TunnelByNameSpec)
      → ByNameFits t
      → IsReread (by_name_text net ip) (tunnel_by_name_from_str ip) t
  unfolding by_name_text
  by_name-IsReread t (some_name, bind, addr, plain, free) = (
    free,
    (tunnel_by_name_from_str_iff ip (by_name_text net ip t) t).1 (
      service_addr_to_string ip t.bind_addr,
      refl,
      bind,
      some_name,
      service_addr_from_str-service_addr_to_string ip laws t.bind_addr addr plain,
    ),
  )

-- The three variables of specs in the map, where each is set or not.
variables :
    (identity listen bootstrap expose tunnel by_name log : String) (b c d e : Bool)
    → let envs = insert "RUST_LOG" log (
        insert_unless e "PUNCHGATE_TUNNEL_BY_NAME" by_name (
          insert_unless d "PUNCHGATE_TUNNEL" tunnel (
            insert_unless c "PUNCHGATE_EXPOSE" expose (
              insert_unless b "PUNCHGATE_BOOTSTRAP" bootstrap
                (insert "PUNCHGATE_LISTEN" listen (insert "PUNCHGATE_IDENTITY" identity [])))))) in
      (get "PUNCHGATE_EXPOSE" envs ≡ (if c then none else some expose))
      × (get "PUNCHGATE_TUNNEL" envs ≡ (if d then none else some tunnel))
      × (get "PUNCHGATE_TUNNEL_BY_NAME" envs ≡ (if e then none else some by_name))
unfolding get insert string_eq
variables identity listen bootstrap expose tunnel by_name log b c d e = ground arith

module _ (paths : Paths) (net : Libp2p) (ip : IpText) (laws : IpLaws ip)
    (parse_peer : String → Result String net.PeerId) (split : String → List String)
    (splitting : IsSplitting split) where
  -- A daemon that the service manager starts is configured as `punchgate up` was: where every
  -- spec is one that its text determines, what the variables give to the parsers is exactly
  -- the exposed services and the tunnels of the command line, in their order.
  pub service_env_map_reread :
      (cli : Cli paths net) (rust_log : Option String)
      → All (ExposedFits net ip laws parse_peer) cli.expose
      → All (TunnelFits net ip laws parse_peer) cli.tunnel
      → All (ByNameFits net ip laws parse_peer) cli.tunnel_by_name
      → let envs = service_env_map paths net ip cli rust_log in
        (map (exposed_service_from_str ip) (values split (get "PUNCHGATE_EXPOSE" envs))
          ≡ map (λ e. ok e) cli.expose)
        × (map (tunnel_spec_from_str ip parse_peer) (values split (get "PUNCHGATE_TUNNEL" envs))
            ≡ map (λ t. ok t) cli.tunnel)
        × (map (tunnel_by_name_from_str ip) (values split (get "PUNCHGATE_TUNNEL_BY_NAME" envs))
            ≡ map (λ t. ok t) cli.tunnel_by_name)
  unfolding service_env_map format_exposed_services format_tunnel_specs format_tunnel_by_name_specs
  service_env_map_reread cli rust_log h k l =
      let (e, t, n) =
        variables
          (paths.display (or_given paths net ip (absolute_path paths cli.identity) cli.identity))
          (join_multiaddrs net cli.listen) (join_multiaddrs net cli.bootstrap)
          (format_exposed_services net ip cli.expose) (format_tunnel_specs net ip cli.tunnel)
          (format_tunnel_by_name_specs net ip cli.tunnel_by_name) (get_or rust_log "info")
          (is_empty cli.bootstrap) (is_empty cli.expose) (is_empty cli.tunnel)
          (is_empty cli.tunnel_by_name) in
      (
        ap (λ x. map (exposed_service_from_str ip) (values split x)) e
            ∙ reread (exposed_text net ip) (exposed_service_from_str ip) split splitting cli.expose
                (All-map (exposed-IsReread net ip laws parse_peer) cli.expose h),
        ap (λ x. map (tunnel_spec_from_str ip parse_peer) (values split x)) t
            ∙ reread (tunnel_text net ip) (tunnel_spec_from_str ip parse_peer) split splitting
                cli.tunnel (All-map (tunnel-IsReread net ip laws parse_peer) cli.tunnel k),
        ap (λ x. map (tunnel_by_name_from_str ip) (values split x)) n
            ∙ reread (by_name_text net ip) (tunnel_by_name_from_str ip) split splitting
                cli.tunnel_by_name
                (All-map (by_name-IsReread net ip laws parse_peer) cli.tunnel_by_name l),
      )
