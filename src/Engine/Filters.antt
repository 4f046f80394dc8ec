-- ===== src/Engine/Filters.antt =====
-- The filters that the engine offers.
use wookie.Base.{
  ℕ, Bool, true, false, Option, none, some, List, [], take, length, Str, nat_ord, str_ord, str_eq,
  contains, elliptics_error, Result, ok, err, einval,
}
use wookie.Magic.{text_prefix, is_text}
use wookie.Engine.{UrlOps, Response}

module _ {Url : Type 0} (net : UrlOps Url) where
  open net use {to_string, parse, resolved, host, port}

  -- `create_text_filter`: the header's content type, or else what libmagic says of the data.
  pub text_filter : (Str → Option Str) → Response Url → Str → Bool
  unfolding is_text
  text_filter magic_buffer reply body = elim reply.content_type [
    | some content_type ↦ str_eq (take 5 content_type) text_prefix
    | none ↦ is_text magic_buffer body (length body)
  ]

  -- `create_domain_filter`: the constructor throws if the host is empty.
  pub domain_filter : Str → Result (Response Url → Url → Bool)
  domain_filter base = elim (str_eq (host (parse base)) []) [
    | true ↦ err (elliptics_error einval)
    | false ↦ ok (λ reply url. str_eq (host (parse base)) (host (resolved reply.url url)))
  ]

  -- `create_port_filter`.
  pub port_filter : List ℕ → Response Url → Url → Bool
  port_filter allowed_ports reply url = elim (port url) [
    | some p ↦ contains p allowed_ports
    | none ↦ true
  ]
