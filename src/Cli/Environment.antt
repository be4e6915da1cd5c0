-- ===== src/Cli/Environment.antt =====
-- The environment of the background daemon in src/main.rs: the text of each variable, the file
-- that systemd reads, and the map that the launch agent is written from.
pub mod Agreement
pub mod RoundTrip
use Prim.Native.Char.{Char}
use Prim.Native.String.{◌++◌ as push_str}
use punchgate.Common.{
  Bool, true, false, Option, none, some, String, List, [], ◌∷◌, ◌++◌, map, is_empty, Eq, string_eq,
  Result, ok, err, ◌>>=◌, if◌then◌else◌,
}
use punchgate.Net.{Libp2p}
use punchgate.Collections.HashMap.{HashMap, insert, get_or}
use punchgate.Specs.Addr.{IpText, service_addr_to_string}
use punchgate.Specs.Named.{ExposedService, TunnelSpec, TunnelByNameSpec}
use punchgate.Specs.Text.{joined}

-- What the source calls on paths; `current_dir` may fail.
pub record Paths : Type 1 where
  pub FilePath : Type 0
  pub is_absolute : FilePath → Bool
  pub join : FilePath → FilePath → FilePath
  pub current_dir : Result String FilePath
  pub display : FilePath → String

-- The arguments, without the service manager's action.
pub record Cli (paths : Paths) (net : Libp2p) : Type 0 where
  pub identity : paths.FilePath
  pub listen : List net.Multiaddr
  pub bootstrap : List net.Multiaddr
  pub expose : List ExposedService
  pub tunnel : List (TunnelSpec net.PeerId)
  pub tunnel_by_name : List TunnelByNameSpec

-- `[String]::join` of one character.
unfoldable pub join_text : Char → List String → String
join_text sep [] = String.[]
join_text sep (s ∷ []) = s
join_text sep (s ∷ t ∷ rest) = joined sep s (join_text sep (t ∷ rest))

-- `lines.push` under an `if`.
abbrev pub push_unless {ℓ} : {A : Type ℓ} → Bool → A → List A
push_unless true line = []
push_unless false line = line ∷ []

-- `insert` under an `if`.
abbrev pub insert_unless : Bool → String → String → HashMap String String → HashMap String String
insert_unless true key value envs = envs
insert_unless false key value envs = insert key value envs

module _ (net : Libp2p) where
  open net use {PeerId, Multiaddr, addr_string, peer_string}

  unfoldable pub join_multiaddrs : List Multiaddr → String
  unfolding join_text
  join_multiaddrs addrs = join_text "," (map addr_string addrs)

  module _ (ip : IpText) where
    unfoldable pub exposed_text : ExposedService → String
    unfolding service_addr_to_string
    exposed_text spec = joined "=" spec.name.text (service_addr_to_string ip spec.local_addr)

    unfoldable pub format_exposed_services : List ExposedService → String
    unfolding join_text exposed_text
    format_exposed_services items = join_text "," (map exposed_text items)

    unfoldable pub tunnel_text : TunnelSpec PeerId → String
    unfolding service_addr_to_string
    tunnel_text spec =
        joined "@" (joined ":" (peer_string spec.remote_peer) spec.service_name.text)
          (service_addr_to_string ip spec.bind_addr)

    unfoldable pub format_tunnel_specs : List (TunnelSpec PeerId) → String
    unfolding join_text tunnel_text
    format_tunnel_specs items = join_text "," (map tunnel_text items)

    unfoldable pub by_name_text : TunnelByNameSpec → String
    unfolding service_addr_to_string
    by_name_text spec = joined "@" spec.service_name.text (service_addr_to_string ip spec.bind_addr)

    unfoldable pub format_tunnel_by_name_specs : List TunnelByNameSpec → String
    unfolding join_text by_name_text
    format_tunnel_by_name_specs items = join_text "," (map by_name_text items)

module _ (paths : Paths) where
  open paths use {FilePath, is_absolute, join, current_dir, display}

  unfoldable pub absolute_path : FilePath → Result String FilePath
  absolute_path path =
      if is_absolute path then ok path else (current_dir >>= (λ dir. ok (join dir path)))

  module _ (net : Libp2p) (ip : IpText) where
    -- The lines, where the path is known; `rust_log` is the variable RUST_LOG, if it is set.
    unfoldable pub env_lines : Cli paths net → FilePath → Option String → List String
    unfolding join_multiaddrs format_exposed_services format_tunnel_specs
        format_tunnel_by_name_specs
    env_lines cli identity rust_log =
        "# Auto-generated by `punchgate up`"
        ∷ "# Edit and re-run `punchgate up` to apply changes."
        ∷ joined "=" "PUNCHGATE_IDENTITY" (display identity)
        ∷ joined "=" "PUNCHGATE_LISTEN" (join_multiaddrs net cli.listen)
        ∷ (push_unless (is_empty cli.bootstrap)
              (joined "=" "PUNCHGATE_BOOTSTRAP" (join_multiaddrs net cli.bootstrap))
            ++ (push_unless (is_empty cli.expose)
                  (joined "=" "PUNCHGATE_EXPOSE" (format_exposed_services net ip cli.expose))
                ++ (push_unless (is_empty cli.tunnel)
                      (joined "=" "PUNCHGATE_TUNNEL" (format_tunnel_specs net ip cli.tunnel))
                    ++ (push_unless (is_empty cli.tunnel_by_name) (
                          joined "=" "PUNCHGATE_TUNNEL_BY_NAME"
                            (format_tunnel_by_name_specs net ip cli.tunnel_by_name))
                        ++ joined "=" "RUST_LOG" (get_or rust_log "info") ∷ String.[] ∷ []))))

    unfoldable pub render_env_file : Cli paths net → Option String → Result String String
    unfolding absolute_path env_lines join_text
    render_env_file cli rust_log =
        absolute_path cli.identity
        >>= (λ identity. ok (join_text "\n" (env_lines cli identity rust_log)))

    abbrev pub or_given : Result String FilePath → FilePath → FilePath
    or_given (ok path) given = path
    or_given (err e) given = given

    -- A `BTreeMap`, by its entries; the order in which they are written out is theirs by key.
    unfoldable pub service_env_map : Cli paths net → Option String → HashMap String String
    unfolding absolute_path join_multiaddrs format_exposed_services format_tunnel_specs
        format_tunnel_by_name_specs insert
    service_env_map cli rust_log = insert "RUST_LOG" (get_or rust_log "info") (
        insert_unless (is_empty cli.tunnel_by_name) "PUNCHGATE_TUNNEL_BY_NAME"
          (format_tunnel_by_name_specs net ip cli.tunnel_by_name)
          (insert_unless (is_empty cli.tunnel) "PUNCHGATE_TUNNEL"
            (format_tunnel_specs net ip cli.tunnel)
            (insert_unless (is_empty cli.expose) "PUNCHGATE_EXPOSE"
              (format_exposed_services net ip cli.expose)
              (insert_unless (is_empty cli.bootstrap) "PUNCHGATE_BOOTSTRAP"
                (join_multiaddrs net cli.bootstrap)
                (insert "PUNCHGATE_LISTEN" (join_multiaddrs net cli.listen) (
                  insert "PUNCHGATE_IDENTITY"
                    (display (or_given (absolute_path cli.identity) cli.identity)) []))))))
