-- ===== src/Outbound.antt =====
-- internal/app/server/outbound.go, utils.go and the settings of model.go: how the configured
-- outbounds and the ACL rules become a router. The acl-engine library is the parameter `Engine`;
-- its outbounds and routers are numbers.

pub mod Direct
pub mod Valid
pub mod Built
pub mod Address
pub mod Proxy
use server_anytls.Prelude.{
  ℕ, Bool, true, false, ◌&&◌, ◌||◌, List, [], ◌∷◌, ◌++◌, Option, none, some, Bytes, codes, equal,
  ◌+◌, leb, Error, message, config_error, Result, ok, err, ◌>>=◌, if◌then◌else◌,
}
use server_anytls.StringMap.{join}

pub record ServerConfigOutboundDirect : Type 0 where
  pub mode : Bytes
  pub bind_ipv4 : Bytes
  pub bind_ipv6 : Bytes
  pub bind_device : Bytes

pub record ServerConfigOutboundSocks5 : Type 0 where
  pub addr : Bytes
  pub username : Bytes
  pub password : Bytes

pub record ServerConfigOutboundHttp : Type 0 where
  pub url : Bytes
  pub insecure : Bool

pub record ServerConfigOutboundEntry : Type 0 where
  pub name : Bytes
  pub outbound_type : Bytes
  pub direct : ServerConfigOutboundDirect
  pub socks5 : ServerConfigOutboundSocks5
  pub http : ServerConfigOutboundHttp

-- `ExtConfig` without the settings of sniffing, which nothing reads; `acl_inline` is `ACL.Inline`.
pub record ExtConfig : Type 0 where
  pub outbounds : List ServerConfigOutboundEntry
  pub acl_inline : List Bytes

pub data DirectMode : Type 0 where
  mode_auto mode_64 mode_46 mode_6 mode_4 : DirectMode

-- `router.OutboundEntry`
pub record OutboundEntry : Type 0 where
  pub entry_name : Bytes
  pub outbound : ℕ

-- The constructors of acl-engine, and `net.ParseIP`, of which the code sees whether it is nil.
-- `new_router` gets the rules, the outbounds and the directory of the geo data.
pub record Engine : Type 0 where
  pub parse_ip : Bytes → Option ℕ
  pub new_direct : DirectMode → ℕ
  pub new_direct_bind_to_ips : DirectMode → Option ℕ → Option ℕ → Result ℕ
  pub new_direct_bind_to_device : DirectMode → Bytes → Result ℕ
  pub new_socks5 : Bytes → Bytes → Bytes → ℕ
  pub new_http : Bytes → Bool → Result ℕ
  pub new_router : Bytes → List OutboundEntry → Bytes → Result ℕ

abbrev lower : ℕ → ℕ
lower c = if leb b'A' c && leb c b'Z' then c + 32 else c

-- `strings.ToLower`, as far as a comparison with an ASCII word can tell: of the characters beyond
-- ASCII only the Kelvin sign (226 132 170) and the dotted capital I (196 176) become ASCII letters.
unfoldable pub to_lower : Bytes → Bytes
to_lower [] = []
to_lower (a ∷ []) = lower a ∷ []
to_lower (a ∷ b ∷ []) =
    if equal (a ∷ b ∷ []) (196 ∷ 176 ∷ []) then b'i' ∷ [] else lower a ∷ lower b ∷ []
to_lower (a ∷ b ∷ c ∷ cs) =
    let after_three = b'k' ∷ to_lower cs in
    let after_two = b'i' ∷ to_lower (c ∷ cs) in
    let after_one = lower a ∷ to_lower (b ∷ c ∷ cs) in
    if equal (a ∷ b ∷ c ∷ []) (226 ∷ 132 ∷ 170 ∷ [])
    then after_three
    else if equal (a ∷ b ∷ []) (196 ∷ 176 ∷ [])
    then after_two
    else after_one

-- `len(s) > 0`
abbrev pub non_empty {ℓ} : {A : Type ℓ} → List A → Bool
non_empty [] = false
non_empty (x ∷ xs) = true

abbrev pub is_nil : Option ℕ → Bool
is_nil none = true
is_nil (some ip) = false

abbrev pub reject : Bytes → Bytes → Result ℕ
reject field text = err (config_error field (message text))

-- The `switch` on the lower-case mode.
unfoldable pub direct_mode : Bytes → Option DirectMode
direct_mode mode =
    if equal mode [] || equal mode (codes "auto")
    then some mode_auto
    else if equal mode (codes "64")
    then some mode_64
    else if equal mode (codes "46")
    then some mode_46
    else if equal mode (codes "6")
    then some mode_6
    else if equal mode (codes "4")
    then some mode_4
    else none

abbrev pub bind_ip : ServerConfigOutboundDirect → Bool
bind_ip c = non_empty c.bind_ipv4 || non_empty c.bind_ipv6

abbrev pub with_name : Bytes → Result ℕ → Result OutboundEntry
with_name name (err e) = err e
with_name name (ok ob) = ok (record { entry_name = name; outbound = ob })

abbrev pub cons_entry :
    Result OutboundEntry → Result (List OutboundEntry) → Result (List OutboundEntry)
cons_entry (err e) rest = err e
cons_entry (ok ob) (err e) = err e
cons_entry (ok ob) (ok obs) = ok (ob ∷ obs)

abbrev pub router_error : Bytes → Result ℕ → Result ℕ
router_error field (err e) = err (config_error field e)
router_error field (ok r) = ok r

abbrev pub entries_of : Option ExtConfig → List ServerConfigOutboundEntry
entries_of none = []
entries_of (some c) = c.outbounds

abbrev pub inline_of : Option ExtConfig → List Bytes
inline_of none = []
inline_of (some c) = c.acl_inline

module _ (E : Engine) where
  abbrev pub bind_to_ips : DirectMode → ServerConfigOutboundDirect → Option ℕ → Option ℕ → Result ℕ
  bind_to_ips mode c ip4 ip6 =
      if non_empty c.bind_ipv4 && is_nil ip4
      then reject (codes "outbounds.direct.bindIPv4") (codes "invalid IPv4 address")
      else if non_empty c.bind_ipv6 && is_nil ip6
      then reject (codes "outbounds.direct.bindIPv6") (codes "invalid IPv6 address")
      else E.new_direct_bind_to_ips mode ip4 ip6

  abbrev pub direct_with : ServerConfigOutboundDirect → Option DirectMode → Result ℕ
  direct_with c none = reject (codes "outbounds.direct.mode") (codes "unsupported mode")
  direct_with c (some mode) =
      if bind_ip c && non_empty c.bind_device
      then reject (codes "outbounds.direct") (codes "cannot bind both IP and device")
      else if bind_ip c
      then bind_to_ips mode c (E.parse_ip c.bind_ipv4) (E.parse_ip c.bind_ipv6)
      else if non_empty c.bind_device
      then E.new_direct_bind_to_device mode c.bind_device
      else ok (E.new_direct mode)

  unfoldable pub server_config_outbound_direct_to_outbound : ServerConfigOutboundDirect → Result ℕ
  server_config_outbound_direct_to_outbound c = direct_with c (direct_mode (to_lower c.mode))

  unfoldable pub server_config_outbound_socks5_to_outbound : ServerConfigOutboundSocks5 → Result ℕ
  server_config_outbound_socks5_to_outbound c =
      if equal c.addr []
      then reject (codes "outbounds.socks5.addr") (codes "empty socks5 address")
      else ok (E.new_socks5 c.addr c.username c.password)

  unfoldable pub server_config_outbound_http_to_outbound : ServerConfigOutboundHttp → Result ℕ
  server_config_outbound_http_to_outbound c =
      if equal c.url []
      then reject (codes "outbounds.http.url") (codes "empty http address")
      else E.new_http c.url c.insecure

  -- The `switch` on the lower-case type.
  unfoldable pub outbound_of : ServerConfigOutboundEntry → Bytes → Result ℕ
  outbound_of entry kind =
      if equal kind (codes "direct")
      then server_config_outbound_direct_to_outbound entry.direct
      else if equal kind (codes "socks5")
      then server_config_outbound_socks5_to_outbound entry.socks5
      else if equal kind (codes "http")
      then server_config_outbound_http_to_outbound entry.http
      else reject (codes "outbounds.type") (codes "unsupported outbound type")

  -- The body of the loop.
  unfoldable pub build_entry : ServerConfigOutboundEntry → Result OutboundEntry
  build_entry entry =
      if equal entry.name []
      then err (config_error (codes "outbounds.name") (message (codes "empty outbound name")))
      else with_name entry.name (outbound_of entry (to_lower entry.outbound_type))

  -- The loop: the first error ends it.
  unfoldable pub build_entries : List ServerConfigOutboundEntry → Result (List OutboundEntry)
  build_entries [] = ok []
  build_entries (entry ∷ entries) = cons_entry (build_entry entry) (build_entries entries)

  abbrev pub or_default_outbound : List OutboundEntry → List OutboundEntry
  or_default_outbound [] =
      record { entry_name = codes "default"; outbound = E.new_direct mode_auto } ∷ []
  or_default_outbound (ob ∷ obs) = ob ∷ obs

  abbrev pub build_router : Bytes → List Bytes → List OutboundEntry → Result ℕ
  build_router data_dir [] obs =
      router_error (codes "outbound") (E.new_router (codes "default(all)") obs data_dir)
  build_router data_dir (rule ∷ rules) obs =
      router_error (codes "acl.inline") (E.new_router (join b'\n' (rule ∷ rules)) obs data_dir)

  -- `buildOutbound`: the router that `s.outbound` wraps.
  unfoldable pub build_outbound : Bytes → Option ExtConfig → Result ℕ
  build_outbound data_dir ext_config =
      build_entries (entries_of ext_config)
      >>= (λ obs. build_router data_dir (inline_of ext_config) (or_default_outbound obs))
