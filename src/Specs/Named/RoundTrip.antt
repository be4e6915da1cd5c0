-- ===== src/Specs/Named/RoundTrip.antt =====
-- Which texts the parsers of src/specs.rs accept, and the way back from a name's key.
use punchgate.Common.{◌≡◌, ◌∙◌, ◌↔◌, ap, refl, false, some, String, if_cases, if_false, subst}
use punchgate.Types.{ServiceName, for_service, service_key_prefix}
use punchgate.Specs.Addr.{IpText, service_addr_from_str}
use punchgate.Common.{Result, ok, err, map_err, map_err_ok, ok_or, ok_or_ok, bind_rule}
use punchgate.Specs.Named.{
  NamedParseError, missing_separator, invalid_addr, ExposedService, TunnelByNameSpec, TunnelSpec,
  TunnelSpecParseError, missing_bind_separator, missing_peer_separator, invalid_peer_id,
  invalid_bind_addr, exposed_service_from_str, tunnel_by_name_from_str, tunnel_spec_from_str,
  service_name_from_key,
}
use punchgate.Specs.Text.{
  is_empty_text, Lacks, joined, split_once, split_once-joined, split_once_sound, rsplit_once,
  rsplit_once-joined, rsplit_once_sound, strip_prefix-push_str,
}

-- The key that a service is published under gives back the service's name.
pub service_name_from_key-for_service :
    (name : ServiceName) → service_name_from_key (for_service name) ≡ some name.text
unfolding service_name_from_key for_service
service_name_from_key-for_service name = strip_prefix-push_str service_key_prefix name.text

module _ (ip : IpText) where
  -- `name=addr`: the name is not empty and has no `=`.
  abbrev pub IsExposed : String → ExposedService → Type 0
  IsExposed s e =
      (addr_str : String) × (s ≡ joined "=" e.name.text addr_str)
      × Lacks "=" e.name.text
      × (is_empty_text e.name.text ≡ false)
      × (service_addr_from_str ip addr_str ≡ ok e.local_addr)

  -- `name@addr`: the name is not empty, and the address has no `@`.
  abbrev pub IsByName : String → TunnelByNameSpec → Type 0
  IsByName s t =
      (addr_str : String) × (s ≡ joined "@" t.service_name.text addr_str)
      × Lacks "@" addr_str
      × (is_empty_text t.service_name.text ≡ false)
      × (service_addr_from_str ip addr_str ≡ ok t.bind_addr)

  abbrev WhenExposed : String → Result NamedParseError ExposedService → Type 0
  WhenExposed s (ok e) = IsExposed s e
  WhenExposed s (err e) = Unit {0}

  exposed_service_from_str-WhenExposed :
      (s : String) → WhenExposed s (exposed_service_from_str ip s)
  unfolding exposed_service_from_str
  exposed_service_from_str-WhenExposed s =
      bind_rule (WhenExposed s) (ok_or missing_separator (split_once "=" s)) (λ _. tt)
        (λ parts e.
          if_cases (WhenExposed s) (is_empty_text parts.0) (λ _. tt)
            (λ n.
              bind_rule (WhenExposed s) (map_err invalid_addr (service_addr_from_str ip parts.1))
                (λ _. tt)
                (λ a k.
                  let h =
                    split_once_sound "=" s (ok_or_ok missing_separator (split_once "=" s) e) in
                  (
                    parts.1,
                    h.0,
                    h.1,
                    n,
                    map_err_ok invalid_addr (service_addr_from_str ip parts.1) k,
                  ))))

  exposed_of :
      (s : String) (e : ExposedService) → IsExposed s e → exposed_service_from_str ip s ≡ ok e
  unfolding exposed_service_from_str
  exposed_of s e (addr_str, p, l, n, k) =
      rw (p, split_once-joined "=" e.name.text addr_str l) (if_false _ _ n ∙ rw k refl)

  -- A text is accepted as an exposed service just when it is its name, an `=` and a text that
  -- parses to its address, where the name has no `=` and is not empty.
  pub exposed_service_from_str_iff :
      (s : String) (e : ExposedService) → (exposed_service_from_str ip s ≡ ok e) ↔ IsExposed s e
  exposed_service_from_str_iff s e =
      (λ h. subst (WhenExposed s) h (exposed_service_from_str-WhenExposed s), exposed_of s e)

  abbrev WhenByName : String → Result NamedParseError TunnelByNameSpec → Type 0
  WhenByName s (ok t) = IsByName s t
  WhenByName s (err e) = Unit {0}

  tunnel_by_name_from_str-WhenByName : (s : String) → WhenByName s (tunnel_by_name_from_str ip s)
  unfolding tunnel_by_name_from_str
  tunnel_by_name_from_str-WhenByName s =
      bind_rule (WhenByName s) (ok_or missing_separator (rsplit_once "@" s)) (λ _. tt)
        (λ parts e.
          if_cases (WhenByName s) (is_empty_text parts.0) (λ _. tt)
            (λ n.
              bind_rule (WhenByName s) (map_err invalid_addr (service_addr_from_str ip parts.1))
                (λ _. tt)
                (λ a k.
                  let h =
                    rsplit_once_sound "@" s (ok_or_ok missing_separator (rsplit_once "@" s) e) in
                  (
                    parts.1,
                    h.0,
                    h.1,
                    n,
                    map_err_ok invalid_addr (service_addr_from_str ip parts.1) k,
                  ))))

  by_name_of :
      (s : String) (t : TunnelByNameSpec) → IsByName s t → tunnel_by_name_from_str ip s ≡ ok t
  unfolding tunnel_by_name_from_str
  by_name_of s t (addr_str, p, l, n, k) =
      rw (p, rsplit_once-joined "@" t.service_name.text addr_str l) (if_false _ _ n ∙ rw k refl)

  -- A text is accepted as a tunnel by name just when it is its name, an `@` and a text that
  -- parses to its address, where the address has no `@` and the name is not empty.
  pub tunnel_by_name_from_str_iff :
      (s : String) (t : TunnelByNameSpec) → (tunnel_by_name_from_str ip s ≡ ok t) ↔ IsByName s t
  tunnel_by_name_from_str_iff s t =
      (λ h. subst (WhenByName s) h (tunnel_by_name_from_str-WhenByName s), by_name_of s t)

  module _ {PeerId : Type 0} (parse_peer : String → Result String PeerId) where
    -- `peer:name@addr`: the peer has no `:`, and the address no `@`.
    abbrev pub IsTunnelSpec : String → TunnelSpec PeerId → Type 0
    IsTunnelSpec s t =
        (peer_str : String) × (addr_str : String) × (s
          ≡ joined "@" (joined ":" peer_str t.service_name.text) addr_str)
        × Lacks ":" peer_str
        × Lacks "@" addr_str
        × (parse_peer peer_str ≡ ok t.remote_peer)
        × (service_addr_from_str ip addr_str ≡ ok t.bind_addr)

    abbrev WhenTunnelSpec : String → Result TunnelSpecParseError (TunnelSpec PeerId) → Type 0
    WhenTunnelSpec s (ok t) = IsTunnelSpec s t
    WhenTunnelSpec s (err e) = Unit {0}

    tunnel_spec_from_str-WhenTunnelSpec :
        (s : String) → WhenTunnelSpec s (tunnel_spec_from_str ip parse_peer s)
    unfolding tunnel_spec_from_str
    tunnel_spec_from_str-WhenTunnelSpec s =
        let P = WhenTunnelSpec s in
        bind_rule P (ok_or missing_bind_separator (rsplit_once "@" s)) (λ _. tt)
          (λ ps e.
            bind_rule P (ok_or missing_peer_separator (split_once ":" ps.0)) (λ _. tt)
              (λ qs f.
                bind_rule P (map_err invalid_peer_id (parse_peer qs.0)) (λ _. tt)
                  (λ peer g.
                    bind_rule P (map_err invalid_bind_addr (service_addr_from_str ip ps.1))
                      (λ _. tt)
                      (λ a k.
                        let h =
                          rsplit_once_sound "@" s
                            (ok_or_ok missing_bind_separator (rsplit_once "@" s) e) in
                        let l =
                          split_once_sound ":" ps.0
                            (ok_or_ok missing_peer_separator (split_once ":" ps.0) f) in
                        (
                          qs.0,
                          ps.1,
                          h.0 ∙ ap (λ (x : String). joined "@" x ps.1) l.0,
                          l.1,
                          h.1,
                          map_err_ok invalid_peer_id (parse_peer qs.0) g,
                          map_err_ok invalid_bind_addr (service_addr_from_str ip ps.1) k,
                        )))))

    tunnel_spec_of :
        (s : String) (t : TunnelSpec PeerId)
        → IsTunnelSpec s t
        → tunnel_spec_from_str ip parse_peer s ≡ ok t
    unfolding tunnel_spec_from_str
    tunnel_spec_of s t (peer_str, addr_str, p, l, m, q, k) =
        let name = t.service_name.text in
        rw
          (
            p,
            rsplit_once-joined "@" (joined ":" peer_str name) addr_str m,
            split_once-joined ":" peer_str name l,
            q,
            k,
          )
          refl

    -- A text is accepted as a tunnel spec just when it is a text that parses to its peer, a
    -- `:`, its name, an `@` and a text that parses to its address, where the peer has no `:`
    -- and the address no `@`. The name may be empty.
    pub tunnel_spec_from_str_iff :
        (s : String) (t : TunnelSpec PeerId)
        → (tunnel_spec_from_str ip parse_peer s ≡ ok t) ↔ IsTunnelSpec s t
    tunnel_spec_from_str_iff s t = (
      λ h. subst (WhenTunnelSpec s) h (tunnel_spec_from_str-WhenTunnelSpec s),
      tunnel_spec_of s t,
    )
