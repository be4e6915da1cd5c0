-- ===== src/Cli/Environment/Agreement.antt =====
-- The environment file and the map of src/main.rs say the same.
use punchgate.Common.{
  ◌≡◌, refl, ap, ◌∙◌, Bool, true, false, Option, none, some, String, List, [], ◌∷◌, ◌++◌, is_empty,
  string_eq, nat_eq, ok, arith, sym,
}
use punchgate.Net.{Libp2p}
use punchgate.Collections.HashMap.{insert, get_or}
use punchgate.Specs.Addr.{IpText}
use punchgate.Specs.Text.{joined, Lacks, is_free, is_free-Lacks, split_once, split_once-joined}
use punchgate.Cli.Environment.{
  Paths, Cli, absolute_path, env_lines, service_env_map, join_multiaddrs, format_exposed_services,
  format_tunnel_specs, format_tunnel_by_name_specs, push_unless, insert_unless,
}

-- What a line assigns: the text before its first `=`, and the text behind it.
unfoldable pub assignments : List String → List (String × String)
unfolding split_once
assignments [] = []
assignments (line ∷ lines) = elim (split_once "=" line) [
  | none ↦ assignments lines
  | some entry ↦ entry ∷ assignments lines
]

assignments-joined :
    (key value : String) (lines : List String)
    → Lacks "=" key
    → assignments (joined "=" key value ∷ lines) ≡ (key, value) ∷ assignments lines
unfolding assignments
assignments-joined key value lines h = rw (assignments, split_once-joined "=" key value h) refl

-- A line in front, and one that may be there.
first :
    (key value : String) (lines : List String) {rest : List (String × String)}
    → is_free "=" key ≡ true
    → assignments lines ≡ rest
    → assignments (joined "=" key value ∷ lines) ≡ (key, value) ∷ rest
first key value lines h e =
    assignments-joined key value lines (is_free-Lacks "=" key h) ∙ ap (λ x. (key, value) ∷ x) e

next :
    (b : Bool) (key value : String) (lines : List String) {rest : List (String × String)}
    → is_free "=" key ≡ true
    → assignments lines ≡ rest
    → assignments (push_unless b (joined "=" key value) ++ lines)
      ≡ push_unless b (key, value) ++ rest
next true key value lines h e = e
next false key value lines h e = first key value lines h e

-- The map's entries where each variable is set or not.
entries :
    (identity listen bootstrap expose tunnel by_name log : String) (b c d e : Bool)
    → insert "RUST_LOG" log (
        insert_unless e "PUNCHGATE_TUNNEL_BY_NAME" by_name (
          insert_unless d "PUNCHGATE_TUNNEL" tunnel (
            insert_unless c "PUNCHGATE_EXPOSE" expose (
              insert_unless b "PUNCHGATE_BOOTSTRAP" bootstrap
                (insert "PUNCHGATE_LISTEN" listen (insert "PUNCHGATE_IDENTITY" identity []))))))
      ≡ ("PUNCHGATE_IDENTITY", identity)
        ∷ ("PUNCHGATE_LISTEN", listen)
        ∷ (push_unless b ("PUNCHGATE_BOOTSTRAP", bootstrap)
            ++ (push_unless c ("PUNCHGATE_EXPOSE", expose)
                ++ (push_unless d ("PUNCHGATE_TUNNEL", tunnel)
                    ++ (push_unless e ("PUNCHGATE_TUNNEL_BY_NAME", by_name)
                        ++ ("RUST_LOG", log) ∷ []))))
unfolding insert string_eq
entries identity listen bootstrap expose tunnel by_name log b c d e = ground arith

-- The entries that the lines assign, where each variable is set or not.
lines_of :
    (identity listen bootstrap expose tunnel by_name log : String) (b c d e : Bool)
    → assignments (
        joined "=" "PUNCHGATE_IDENTITY" identity
        ∷ joined "=" "PUNCHGATE_LISTEN" listen
        ∷ (push_unless b (joined "=" "PUNCHGATE_BOOTSTRAP" bootstrap)
            ++ (push_unless c (joined "=" "PUNCHGATE_EXPOSE" expose)
                ++ (push_unless d (joined "=" "PUNCHGATE_TUNNEL" tunnel)
                    ++ (push_unless e (joined "=" "PUNCHGATE_TUNNEL_BY_NAME" by_name)
                        ++ joined "=" "RUST_LOG" log ∷ String.[] ∷ [])))))
      ≡ ("PUNCHGATE_IDENTITY", identity)
        ∷ ("PUNCHGATE_LISTEN", listen)
        ∷ (push_unless b ("PUNCHGATE_BOOTSTRAP", bootstrap)
            ++ (push_unless c ("PUNCHGATE_EXPOSE", expose)
                ++ (push_unless d ("PUNCHGATE_TUNNEL", tunnel)
                    ++ (push_unless e ("PUNCHGATE_TUNNEL_BY_NAME", by_name)
                        ++ ("RUST_LOG", log) ∷ []))))
unfolding assignments nat_eq
lines_of identity listen bootstrap expose tunnel by_name log b c d e =
    let log_line = joined "=" "RUST_LOG" log ∷ String.[] ∷ [] in
    let by_name_on = push_unless e (joined "=" "PUNCHGATE_TUNNEL_BY_NAME" by_name) ++ log_line in
    let tunnel_on = push_unless d (joined "=" "PUNCHGATE_TUNNEL" tunnel) ++ by_name_on in
    let expose_on = push_unless c (joined "=" "PUNCHGATE_EXPOSE" expose) ++ tunnel_on in
    let bootstrap_on = push_unless b (joined "=" "PUNCHGATE_BOOTSTRAP" bootstrap) ++ expose_on in
    first "PUNCHGATE_IDENTITY" identity (joined "=" "PUNCHGATE_LISTEN" listen ∷ bootstrap_on) refl (
      first "PUNCHGATE_LISTEN" listen bootstrap_on refl (
        next b "PUNCHGATE_BOOTSTRAP" bootstrap expose_on refl (
          next c "PUNCHGATE_EXPOSE" expose tunnel_on refl (
            next d "PUNCHGATE_TUNNEL" tunnel by_name_on refl (
              next e "PUNCHGATE_TUNNEL_BY_NAME" by_name log_line refl
                (first "RUST_LOG" log (String.[] ∷ []) refl refl))))))

module _ (paths : Paths) (net : Libp2p) (ip : IpText) where
  open paths use {FilePath}

  -- The environment file and the launch agent give the daemon the same environment: where the
  -- path of the identity resolves, the lines of the file assign the entries of the map, each
  -- variable once.
  pub assignments-env_lines :
      (cli : Cli paths net) (identity : FilePath) (rust_log : Option String)
      → absolute_path paths cli.identity ≡ ok identity
      → assignments (env_lines paths net ip cli identity rust_log)
        ≡ service_env_map paths net ip cli rust_log
  unfolding env_lines service_env_map assignments nat_eq
  assignments-env_lines cli identity rust_log h =
      let file =
        lines_of (paths.display identity) (join_multiaddrs net cli.listen)
          (join_multiaddrs net cli.bootstrap) (format_exposed_services net ip cli.expose)
          (format_tunnel_specs net ip cli.tunnel)
          (format_tunnel_by_name_specs net ip cli.tunnel_by_name) (get_or rust_log "info")
          (is_empty cli.bootstrap) (is_empty cli.expose) (is_empty cli.tunnel)
          (is_empty cli.tunnel_by_name) in
      let map =
        entries (paths.display identity) (join_multiaddrs net cli.listen)
          (join_multiaddrs net cli.bootstrap) (format_exposed_services net ip cli.expose)
          (format_tunnel_specs net ip cli.tunnel)
          (format_tunnel_by_name_specs net ip cli.tunnel_by_name) (get_or rust_log "info")
          (is_empty cli.bootstrap) (is_empty cli.expose) (is_empty cli.tunnel)
          (is_empty cli.tunnel_by_name) in
      rw (service_env_map, h) (file ∙ sym map)
